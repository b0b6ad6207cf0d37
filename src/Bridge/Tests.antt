-- ===== src/Bridge/Tests.antt =====
-- Tests of components/switchbot_keypad_bridge/switchbot_keypad_bridge.cpp on a paired bridge.
use switchbot_keypad_bridge.Bridge.WebUsers.{load_web_users}
use switchbot_keypad_bridge.Bridge.Settings.{load_settings}
use switchbot_keypad_bridge.Common.{
  ℕ, ◌+◌, ◌≡◌, refl, ◌↔◌, Bool, true, false, none, some, List, [], ◌∷◌, ◌++◌, map, arith, replicate,
  pos, negsuc, text,
}
use switchbot_keypad_bridge.AesCtr.Toy.{toy_xcrypt, toy_IsStream}
use switchbot_keypad_bridge.LockProtocol.{decode_lock_command}
use switchbot_keypad_bridge.LockSession.{frame_header, session_iv, set_aes_key}
use switchbot_keypad_bridge.LockSession.Sample.{
  live_session, live_session-IsValid, some_words, unlock_frame, not_request, accepted_frame,
}
use switchbot_keypad_bridge.LockSession.Invariant.{IsValid}
use switchbot_keypad_bridge.Bridge.Startup.{
  Boot, restore_key, stored_name, restore_name, restore_info, restore, import_aes_key, prepare_keys,
  prepare_ble, setup, stash_pairing,
}
use switchbot_keypad_bridge.Bridge.Startup.InStep.{saved_all, known}
use switchbot_keypad_bridge.Bridge.Startup.Restored.{
  new_bridge-IsBlank, Change, change, change_all, setup-restored, pairing, unpairing, advertised,
}
use switchbot_keypad_bridge.KeypadAdvert.{original, vision}
use switchbot_keypad_bridge.Bridge.Configured.{new_bridge}
use switchbot_keypad_bridge.Bridge.Sample.{
  wired, anna, visitor, paired_bridge, noon, quiet_radio, alarm_advert, first_boot,
}
use switchbot_keypad_bridge.Bridge.State.{
  Advert, Bridge, locked, start_scan, connect, disconnect, rx,
}
use switchbot_keypad_bridge.Bridge.Users.{lookup_user}
use switchbot_keypad_bridge.Bridge.Users.Lookup.{lookup_user-web}
use switchbot_keypad_bridge.Bridge.EventLog.{LogEvent, event_log_max, lock_event}
use switchbot_keypad_bridge.Bridge.EventLog.Bounded.{take_last, log_all, log_all-eq-take_last}
use switchbot_keypad_bridge.Bridge.Events.Announced.{
  Unlocking, publish, Debounced, publish_unlock-Debounced,
}
use switchbot_keypad_bridge.Bridge.Commands.{on_rx_frame}
use switchbot_keypad_bridge.Bridge.Commands.Answers.{Answered, on_rx_frame-answers}
use switchbot_keypad_bridge.Bridge.Scan.{maybe_start_battery_scan}
use switchbot_keypad_bridge.Bridge.Scan.Calm.{is_tamper, is_duress, count}
use switchbot_keypad_bridge.Bridge.Scan.Alarms.{
  apply_all, rises, tampers, duresses, apply_all-count,
}
use switchbot_keypad_bridge.Bridge.Scan.Window.{MayScan, maybe_start_battery_scan_iff}
use switchbot_keypad_bridge.Bridge.Settings.Stored.{InRange}
use switchbot_keypad_bridge.Bridge.Loop.{on_connect, Pass, drain, loop}
use switchbot_keypad_bridge.Bridge.Loop.Session.{loop-IsValid}
use switchbot_keypad_bridge.Bridge.Loop.Queue.{drain-connect}
use switchbot_keypad_bridge.Bridge.Pairing.{
  name_buffer, info_of, adopt_pairing, apply_pairing, create_shared_key, drop_aes_key, use_aes_key,
  unpair,
}
use switchbot_keypad_bridge.Bridge.Pairing.Outcome.{UnpairOutcome, unpair-UnpairOutcome}

on_rx_frame-answers_example :
    Answered toy_xcrypt
      (decode_lock_command accepted_frame.plaintext).type
      (frame_header unlock_frame)
      locked
      7
      (session_iv live_session)
      (on_rx_frame toy_xcrypt noon some_words unlock_frame paired_bridge).0
on_rx_frame-answers_example =
    on_rx_frame-answers toy_xcrypt toy_IsStream noon some_words unlock_frame paired_bridge
      accepted_frame live_session-IsValid

-- Anna unlocks, again half a second later, and then with another finger.
abbrev anna_unlocks : Unlocking
anna_unlocks = record { clock = noon; method = 0x04; index = pos 0 }

abbrev unlocks_again : Unlocking
unlocks_again = record anna_unlocks { clock = record noon { unlock_ms = 500 + noon.unlock_ms } }

publish_unlock-Debounced_example :
    Debounced paired_bridge.unlocks.min_interval_ms anna_unlocks
      (unlocks_again ∷ record unlocks_again { index = pos 1 } ∷ [])
      (publish anna_unlocks paired_bridge).1
publish_unlock-Debounced_example =
    publish_unlock-Debounced paired_bridge anna_unlocks
      (unlocks_again ∷ record unlocks_again { index = pos 1 } ∷ [])

lookup_user-web_example : lookup_user (visitor ∷ anna ∷ []) [] 0x04 (pos 0) ≡ text "Anna"
lookup_user-web_example =
    lookup_user-web 0x04 (pos 0) (visitor ∷ []) anna [] [] (omega arith) (omega arith, tt) tt tt

abbrev some_event : LogEvent
some_event = record {
  ts = 0;
  up_ms = 5;
  type = lock_event;
  method = 0x00;
  index = negsuc 0;
  name = [];
}

log_all-eq-take_last_example :
    log_all (replicate 40 some_event) [] ≡ take_last event_log_max ([] ++ replicate 40 some_event)
log_all-eq-take_last_example = log_all-eq-take_last (replicate 40 some_event) [] (omega arith)

maybe_start_battery_scan_iff_example :
    ((maybe_start_battery_scan 5 quiet_radio paired_bridge).0 ≡ start_scan ∷ [])
    ↔ MayScan 5 quiet_radio paired_bridge
maybe_start_battery_scan_iff_example = maybe_start_battery_scan_iff 5 quiet_radio paired_bridge

abbrev two_alarms : List (ℕ × Bool × Advert)
two_alarms = (1700000000, true, alarm_advert) ∷ (1700000001, true, alarm_advert) ∷ []

apply_all-count_example :
    (count is_tamper (apply_all two_alarms paired_bridge).0 ≡ rises false (tampers two_alarms))
    × (count is_duress (apply_all two_alarms paired_bridge).0 ≡ rises false (duresses two_alarms))
apply_all-count_example = apply_all-count two_alarms paired_bridge

paired_bridge-InRange : InRange paired_bridge
paired_bridge-InRange = omega arith

-- A connection, an unlock before the IV exchange and the end of the connection.
abbrev busy_bridge : Bridge
busy_bridge = record paired_bridge {
  pending = record (paired_bridge.pending) { queue = connect ∷ rx unlock_frame ∷ disconnect ∷ [] };
}

abbrev some_pass : Pass
some_pass = record {
  now = 20000;
  epoch = 1700000010;
  settings = none;
  moments = [];
  was_scanning = true;
  radio = quiet_radio;
  scan_now = 20001;
}

loop-IsValid_example : IsValid (loop toy_xcrypt some_pass busy_bridge).1.session
loop-IsValid_example = loop-IsValid toy_xcrypt some_pass busy_bridge live_session-IsValid

drain-connect_example :
    ((drain toy_xcrypt 0 [] (connect ∷ map rx (unlock_frame ∷ [])) paired_bridge).0
      ≡ (on_connect 0 paired_bridge).0)
    × ((drain toy_xcrypt 0 [] (connect ∷ map rx (unlock_frame ∷ [])) paired_bridge).1.lock
        ≡ paired_bridge.lock)
drain-connect_example =
    drain-connect toy_xcrypt 0 [] (unlock_frame ∷ []) paired_bridge live_session-IsValid
      (not_request, tt)

unpair-UnpairOutcome_example :
    let (es, s') = unpair (replicate 16 1) (some 9) true paired_bridge in
    UnpairOutcome toy_xcrypt (replicate 16 1) (some 9) paired_bridge es s'
unpair-UnpairOutcome_example =
    unpair-UnpairOutcome toy_xcrypt (replicate 16 1) (some 9) true paired_bridge
      live_session-IsValid

-- A pairing, an unpair whose new key is not imported, another pairing, and an advertisement.
abbrev some_changes : List Change
some_changes =
    pairing 1000 (text "Keypad") (text "B0:E9:FE:01:02:03") vision
    ∷ unpairing (replicate 16 0x11) none false
    ∷ pairing 9000 (text "Front") (text "B0:E9:FE:0A:0B:0C") original
    ∷ advertised 1700000000 true alarm_advert
    ∷ []

abbrev second_boot : Boot
second_boot =
    let started = setup first_boot (new_bridge wired) in
    record first_boot {
      flash =
          saved_all (change_all some_changes started.2).0 (saved_all started.1 first_boot.flash);
      fresh_key = replicate 16 0x22;
    }

setup-restored_example :
    known (setup second_boot (new_bridge wired)).2
    ≡ known (change_all some_changes (setup first_boot (new_bridge wired)).2).1
setup-restored_example =
    setup-restored first_boot second_boot (new_bridge wired) (new_bridge wired) some_changes
      (new_bridge-IsBlank wired) (new_bridge-IsBlank wired)
      (
        record { some_text = refl; clean = omega arith },
        (tt, (record { some_text = refl; clean = omega arith }, (tt, tt))),
      )
      refl

-- A keypad whose name is empty counts as paired until the next start only.
unnamed_keypad_lost :
    let started = setup first_boot (new_bridge wired) in
    let paired = change (pairing 1000 [] (text "B0:E9:FE:01:02:03") vision) started.2 in
    let flash = saved_all paired.0 (saved_all started.1 first_boot.flash) in
    (paired.1.identity.paired ≡ true)
    × ((setup (record first_boot { flash = flash }) (new_bridge wired)).2.identity.paired ≡ false)
unfolding new_bridge setup restore restore_key restore_name stored_name restore_info
    create_shared_key load_settings load_web_users prepare_keys import_aes_key drop_aes_key
    use_aes_key prepare_ble apply_pairing stash_pairing adopt_pairing name_buffer info_of
    set_aes_key
unnamed_keypad_lost = (refl, refl)
