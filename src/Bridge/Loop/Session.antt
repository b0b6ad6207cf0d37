-- ===== src/Bridge/Loop/Session.antt =====
-- components/switchbot_keypad_bridge/switchbot_keypad_bridge.cpp: only the events of the queue change the
-- session in a pass of the loop.
use switchbot_keypad_bridge.Common.{
  ℕ, ◌≡◌, refl, sym, ◌∙◌, subst, inl, inr, Bool, true, false, not, Option, none, some, List, [],
  arith, if◌then◌else◌, Option-cases, ℤ,
}
use switchbot_keypad_bridge.AesCtr.Cipher.{Xcrypt}
use switchbot_keypad_bridge.LockSession.{LockSession}
use switchbot_keypad_bridge.LockSession.Invariant.{IsValid}
use switchbot_keypad_bridge.Bridge.State.{Effect, Advert, Bridge, Method, ◌>>◌, is_due}
use switchbot_keypad_bridge.Bridge.Pairing.{adopt_pairing, apply_pairing}
use switchbot_keypad_bridge.Bridge.Scan.{
  Radio, close_scan, open_scan, maybe_start_battery_scan, publish_last_seen_now, learn_info,
  publish_level, publish_flags, raise_alarms, publish_readings, apply_advert, apply_pending_battery,
}
use switchbot_keypad_bridge.Bridge.Loop.{
  flush_edits, relock_step, settings_read_step, Pass, wants_adverts, scan_step, drain, drain_queue,
  loop,
}
use switchbot_keypad_bridge.Bridge.Loop.Queue.{drain-IsValid}

-- A step that leaves the session alone.
abbrev LeavesSession : Method → Type 0
LeavesSession f = (s : Bridge) → (f s).1.session ≡ s.session

then-LeavesSession : (f g : Method) → LeavesSession f → LeavesSession g → LeavesSession (f >> g)
then-LeavesSession f g hf hg s = hg (f s).1 ∙ hf s

if_same :
    (b : Bool) (x y : List Effect × Bridge) (t : LockSession)
    → x.1.session ≡ t
    → y.1.session ≡ t
    → (if b then x else y).1.session ≡ t
if_same true x y t hx hy = hx
if_same false x y t hx hy = hy

apply_pairing-LeavesSession : (now : ℕ) → LeavesSession (apply_pairing now)
unfolding apply_pairing adopt_pairing
apply_pairing-LeavesSession now s = elim (Option-cases s.pending.pair_apply) [
  | inl e ↦ rw (e, apply_pairing) refl
  | inr (p, e) ↦ rw (e, apply_pairing) refl
]

flush_edits-LeavesSession : LeavesSession flush_edits
unfolding flush_edits
flush_edits-LeavesSession s = refl

relock_step-LeavesSession : (now : ℕ) → LeavesSession (relock_step now)
unfolding relock_step
relock_step-LeavesSession now s = if_same _ _ _ s.session refl refl

settings_read-LeavesSession :
    (now : ℕ) (vals : Option (List ℤ)) → LeavesSession (settings_read_step now vals)
unfolding settings_read_step
settings_read-LeavesSession now none s = if_same _ _ _ s.session refl refl
settings_read-LeavesSession now (some vals) s = if_same _ _ _ s.session refl refl

learn_info-LeavesSession : (a : Advert) → LeavesSession (learn_info a)
unfolding learn_info
learn_info-LeavesSession a s = if_same _ _ _ s.session refl refl

publish_level-LeavesSession : (level : ℤ) → LeavesSession (publish_level level)
unfolding publish_level
publish_level-LeavesSession level s = if_same _ _ _ s.session refl refl

apply_advert-LeavesSession :
    (epoch : ℕ) (is_scanning : Bool) (a : Advert) → LeavesSession (apply_advert epoch is_scanning a)
unfolding apply_advert publish_readings publish_last_seen_now publish_flags raise_alarms
apply_advert-LeavesSession epoch is_scanning a s =
    publish_level-LeavesSession a.status.battery (learn_info a s).1 ∙ learn_info-LeavesSession a s

apply_pending-LeavesSession :
    (epoch : ℕ) (is_scanning : Bool) → LeavesSession (apply_pending_battery epoch is_scanning)
unfolding apply_pending_battery
apply_pending-LeavesSession epoch is_scanning s = elim (Option-cases s.battery.pending) [
  | inl e ↦ rw (e, apply_pending_battery) refl
  | inr (a, e) ↦
      rw (e, apply_pending_battery)
        (apply_advert-LeavesSession epoch is_scanning a
          (record s { battery = record (s.battery) { pending = none } }))
]

close_scan-LeavesSession : (now : ℕ) (radio : Radio) → LeavesSession (close_scan now radio)
unfolding close_scan
close_scan-LeavesSession now radio s = if_same (not radio.is_scanning) _ _ s.session refl refl

open_scan-LeavesSession : (now : ℕ) (radio : Radio) → LeavesSession (open_scan now radio)
unfolding open_scan
open_scan-LeavesSession now radio s = ground arith

maybe_start-LeavesSession :
    (now : ℕ) (radio : Radio) → LeavesSession (maybe_start_battery_scan now radio)
unfolding maybe_start_battery_scan
maybe_start-LeavesSession now radio s =
    let o = open_scan now radio s in
    let c = close_scan now radio s in
    let still : List Effect × Bridge = ([], s) in
    let due : Bool = not (is_due now s.battery.next_scan_at) in
    let off : Bool = not s.battery.scan_enabled in
    if_same s.battery.scan_active c (if off then still else if due then still else o) s.session
      (close_scan-LeavesSession now radio s)
      (if_same off still (if due then still else o) s.session refl
        (if_same due still o s.session refl (open_scan-LeavesSession now radio s)))

scan_step-LeavesSession : (p : Pass) → LeavesSession (scan_step p)
unfolding scan_step
scan_step-LeavesSession p s =
    if_same (wants_adverts s.wiring) _ _ s.session
      (then-LeavesSession (apply_pending_battery p.epoch p.was_scanning)
        (maybe_start_battery_scan p.scan_now p.radio)
        (apply_pending-LeavesSession p.epoch p.was_scanning)
        (maybe_start-LeavesSession p.scan_now p.radio) s)
      refl

module _ (xcrypt : Xcrypt ℕ) where
  -- Every pass of the loop keeps the session valid: whatever the queue, the radio, the clocks and the web
  -- page hand over, and in whatever state the rest of the bridge is.
  pub loop-IsValid :
      (p : Pass) (s : Bridge) → IsValid s.session → IsValid (loop xcrypt p s).1.session
  unfolding loop drain_queue
  loop-IsValid p s v =
      let s1 = (apply_pairing p.now s).1 in
      let s2 = (flush_edits s1).1 in
      let s3 = (relock_step p.now s2).1 in
      let s4 = (settings_read_step p.now p.settings s3).1 in
      let s5 : Bridge = record s4 { pending = record (s4.pending) { queue = [] } } in
      let s6 = (drain xcrypt p.epoch p.moments s4.pending.queue s5).1 in
      let before : s5.session ≡ s.session =
        settings_read-LeavesSession p.now p.settings s3
        ∙ relock_step-LeavesSession p.now s2
        ∙ flush_edits-LeavesSession s1
        ∙ apply_pairing-LeavesSession p.now s in
      subst IsValid (sym (scan_step-LeavesSession p s6))
        (drain-IsValid xcrypt p.epoch p.moments s4.pending.queue s5 (subst IsValid (sym before) v))
