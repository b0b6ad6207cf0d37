-- ===== src/Bridge/Loop/Queue.antt =====
-- components/switchbot_keypad_bridge/switchbot_keypad_bridge.cpp: what the events of a queue may do.
use switchbot_keypad_bridge.Common.{
  ℕ, ◌≡◌, refl, sym, ap, ◌∙◌, subst, inl, inr, false, List, [], ◌∷◌, ◌++◌, map, append-nil, get_or,
  drop, All, Bytes,
}
use switchbot_keypad_bridge.AesCtr.Cipher.{Xcrypt}
use switchbot_keypad_bridge.LockProtocol.{CommandType, DecodedCommand}
use switchbot_keypad_bridge.LockSession.{
  is_iv_request, process_frame, FrameHeader, Action, drop_frame, send_iv, command, LockSession,
  Entropy, reset,
}
use switchbot_keypad_bridge.LockSession.Invariant.{IsValid, reset-IsValid, process_frame-IsValid}
use switchbot_keypad_bridge.LockSession.Steps.{process_frame-Keeps}
use switchbot_keypad_bridge.Bridge.Events.Packets.{publish_unlock-session}
use switchbot_keypad_bridge.Bridge.State.{QueuedEvent, Bridge, unlocked, connect, disconnect, rx}
use switchbot_keypad_bridge.Bridge.Events.{Clock, log_event, publish_lock, publish_doorbell}
use switchbot_keypad_bridge.Bridge.Commands.{
  send_ack, send_encrypted_response, handle_state_poll, handle_lock, handle_unlock,
  dispatch_command, handle_command, after_frame, on_rx_frame,
}
use switchbot_keypad_bridge.Bridge.Scan.{publish_last_seen_now}
use switchbot_keypad_bridge.Bridge.Loop.{
  on_connect, on_disconnect, Moment, no_moment, handle_event, drain,
}
use switchbot_keypad_bridge.LockSession.Gate.{process_frame-command_iff, process_frame_outcomes}

module _ (xcrypt : Xcrypt ℕ) where
  dispatch_command-session :
      (t : CommandType) (c : Clock) (h : FrameHeader) (d : DecodedCommand) (s : Bridge)
      → (dispatch_command xcrypt t c h d s).1.session ≡ s.session
  unfolding dispatch_command handle_lock handle_unlock handle_state_poll send_encrypted_response
      publish_lock publish_doorbell log_event send_ack
  dispatch_command-session CommandType.lock c h d s = refl
  dispatch_command-session CommandType.unlock c h d s =
      publish_unlock-session c d.method d.credential_index
        (record s { lock = record (s.lock) { state = unlocked } })
  dispatch_command-session CommandType.state_poll c h d s = refl
  dispatch_command-session CommandType.doorbell c h d s = refl
  dispatch_command-session CommandType.unknown c h d s = refl

  after_frame-session :
      (k : Action) (c : Clock) (s : Bridge) → (after_frame xcrypt k c s).1.session ≡ s.session
  unfolding after_frame handle_command
  after_frame-session drop_frame c s = refl
  after_frame-session send_iv c s = refl
  after_frame-session command c s =
      let d = s.session.last_command in dispatch_command-session d.type c s.session.header d s

  -- A frame changes the session of the bridge as `process_frame` does, whatever it is answered.
  on_rx_frame-session :
      (c : Clock) (r : Entropy) (frame : Bytes) (s : Bridge)
      → (on_rx_frame xcrypt c r frame s).1.session ≡ (process_frame xcrypt r frame s.session).1
  unfolding on_rx_frame
  on_rx_frame-session c r frame s =
      after_frame-session (process_frame xcrypt r frame s.session).0 c
        (record s { session = (process_frame xcrypt r frame s.session).1 })

  handle_event-IsValid :
      (epoch : ℕ) (m : Moment) (ev : QueuedEvent) (s : Bridge)
      → IsValid s.session
      → IsValid (handle_event xcrypt epoch m ev s).1.session
  unfolding handle_event on_connect on_disconnect publish_last_seen_now
  handle_event-IsValid epoch m connect s v = reset-IsValid s.session v
  handle_event-IsValid epoch m disconnect s v = reset-IsValid s.session v
  handle_event-IsValid epoch m (rx frame) s v =
      subst IsValid (sym (on_rx_frame-session m.clock m.entropy frame s))
        (process_frame-IsValid xcrypt m.entropy frame s.session v)

  -- Whatever a queue holds, connections, disconnections and frames of any bytes in any order, the
  -- session of the bridge stays valid.
  pub drain-IsValid :
      (epoch : ℕ) (ms : List Moment) (evs : List QueuedEvent) (s : Bridge)
      → IsValid s.session
      → IsValid (drain xcrypt epoch ms evs s).1.session
  unfolding drain
  drain-IsValid epoch ms [] s v = v
  drain-IsValid epoch ms (ev ∷ evs) s v =
      let m = get_or ms 0 no_moment in
      drain-IsValid epoch (drop 1 ms) evs (handle_event xcrypt epoch m ev s).1
        (handle_event-IsValid epoch m ev s v)

  -- Frames of which none asks for an IV.
  abbrev pub NoRequest : List Bytes → Type 0
  NoRequest = All (λ frame. is_iv_request frame ≡ false)

  -- The session has no IV of this connection, which is so after every connect and disconnect.
  abbrev pub IsClosed : Bridge → Type 0
  IsClosed s = s.session.iv_established ≡ false

  closed-drops :
      (r : Entropy) (frame : Bytes) (s : LockSession)
      → s.iv_established ≡ false
      → is_iv_request frame ≡ false
      → (process_frame xcrypt r frame s).0 ≡ drop_frame
  closed-drops r frame s closed quiet = elim (process_frame_outcomes xcrypt r frame s quiet) [
    | inl dropped ↦ dropped
    | inr accepted ↦
        absurd
          (cc (closed, ((process_frame-command_iff xcrypt r frame s).0 accepted).live.negotiated))
  ]

  closed_frame :
      (c : Clock) (r : Entropy) (frame : Bytes) (s : Bridge)
      → IsValid s.session
      → IsClosed s
      → is_iv_request frame ≡ false
      → on_rx_frame xcrypt c r frame s
        ≡ ([], record s { session = (process_frame xcrypt r frame s.session).1 })
  unfolding on_rx_frame after_frame
  closed_frame c r frame s v closed quiet =
      ap
        (λ k.
          after_frame xcrypt k c
            (record s { session = (process_frame xcrypt r frame s.session).1 }))
        (closed-drops r frame s.session closed quiet)

  closed_frames :
      (epoch : ℕ) (ms : List Moment) (frames : List Bytes) (s : Bridge)
      → IsValid s.session
      → IsClosed s
      → NoRequest frames
      → ((drain xcrypt epoch ms (map rx frames) s).0 ≡ [])
        × ((drain xcrypt epoch ms (map rx frames) s).1.lock ≡ s.lock)
  unfolding drain handle_event
  closed_frames epoch ms [] s v closed quiet = (refl, refl)
  closed_frames epoch ms (frame ∷ frames) s v closed quiet =
      let m = get_or ms 0 no_moment in
      let k = process_frame-Keeps xcrypt m.entropy frame s.session v quiet.0 in
      rw (closed_frame m.clock m.entropy frame s v closed quiet.0) (
        closed_frames epoch (drop 1 ms) frames
          (record s { session = (process_frame xcrypt m.entropy frame s.session).1 })
          (process_frame-IsValid xcrypt m.entropy frame s.session v) (k.same_flag ∙ closed) quiet.1)

  -- After a connection, frames that come before any IV request have no effect at all, whatever an
  -- earlier connection negotiated: they cause no event and no answer, and leave the lock alone.
  pub drain-connect :
      (epoch : ℕ) (ms : List Moment) (frames : List Bytes) (s : Bridge)
      → IsValid s.session
      → NoRequest frames
      → ((drain xcrypt epoch ms (connect ∷ map rx frames) s).0 ≡ (on_connect epoch s).0)
        × ((drain xcrypt epoch ms (connect ∷ map rx frames) s).1.lock ≡ s.lock)
  unfolding drain handle_event on_connect publish_last_seen_now reset
  drain-connect epoch ms frames s v quiet =
      let s1 : Bridge = record s { session = reset s.session } in
      let rest = closed_frames epoch (drop 1 ms) frames s1 (reset-IsValid s.session v) refl quiet in
      (ap (λ es. (on_connect epoch s).0 ++ es) rest.0 ∙ append-nil (on_connect epoch s).0, rest.1)
