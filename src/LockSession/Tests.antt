-- ===== src/LockSession/Tests.antt =====
-- Tests of components/switchbot_keypad_bridge/lock_session.cpp: a connection of a keypad that unlocks
-- with a PIN.
use switchbot_keypad_bridge.Common.{◌≡◌, refl, ◌↔◌, inl, [], arith}
use switchbot_keypad_bridge.AesCtr.Toy.{toy_xcrypt, toy_IsStream}
use switchbot_keypad_bridge.LockSession.{
  process_frame, drop_frame, command, reset, record_ciphertext,
}
use switchbot_keypad_bridge.LockSession.Sample.{
  live_session, live_session-IsValid, some_words, other_words, unlock_ciphertext, unlock_frame,
  iv_request, pin_zero, unlock_Means, unlock_encrypts, slot_used, not_request, is_request,
  other_echo, unlock_accepted, unlock_filtered,
}
use switchbot_keypad_bridge.LockSession.Invariant.{IsValid, process_frame-IsValid}
use switchbot_keypad_bridge.LockSession.Replay.{remember, history, history-record_ciphertext}
use switchbot_keypad_bridge.LockSession.Gate.{IsAccepted, process_frame-command_iff}
use switchbot_keypad_bridge.LockSession.Traces.{feed, reset_drops, other_iv_drops, replay_drops}
use switchbot_keypad_bridge.LockSession.Transport.{keypad_frame, process_frame-keypad_frame}

process_frame-command_iff_example :
    ((process_frame toy_xcrypt some_words unlock_frame live_session).0 ≡ command)
    ↔ IsAccepted toy_xcrypt unlock_frame live_session
process_frame-command_iff_example =
    process_frame-command_iff toy_xcrypt some_words unlock_frame live_session

process_frame-IsValid_example :
    IsValid (process_frame toy_xcrypt some_words unlock_frame live_session).1
process_frame-IsValid_example =
    process_frame-IsValid toy_xcrypt some_words unlock_frame live_session live_session-IsValid

process_frame-keypad_frame_example :
    ((process_frame toy_xcrypt some_words
        (keypad_frame live_session unlock_ciphertext)
        live_session).0
      ≡ command)
    × ((process_frame toy_xcrypt some_words
          (keypad_frame live_session unlock_ciphertext)
          live_session).1.last_command
        ≡ pin_zero)
process_frame-keypad_frame_example =
    process_frame-keypad_frame toy_xcrypt toy_IsStream some_words live_session unlock_ciphertext
      live_session-IsValid refl slot_used (omega arith) (omega arith) (omega arith) unlock_Means
      unlock_encrypts refl

reset_drops_example :
    (process_frame toy_xcrypt some_words unlock_frame (feed toy_xcrypt [] (reset live_session))).0
    ≡ drop_frame
reset_drops_example =
    reset_drops toy_xcrypt live_session [] some_words unlock_frame live_session-IsValid tt
      not_request

other_iv_drops_example :
    (process_frame toy_xcrypt some_words unlock_frame
      (feed toy_xcrypt [] (process_frame toy_xcrypt other_words iv_request live_session).1)).0
    ≡ drop_frame
other_iv_drops_example =
    other_iv_drops toy_xcrypt live_session other_words iv_request [] some_words unlock_frame
      live_session-IsValid is_request tt not_request (inl other_echo)

replay_drops_example :
    (process_frame toy_xcrypt some_words unlock_frame
      (feed toy_xcrypt [] (process_frame toy_xcrypt some_words unlock_frame live_session).1)).0
    ≡ drop_frame
replay_drops_example =
    replay_drops toy_xcrypt live_session some_words unlock_frame [] some_words live_session-IsValid
      unlock_accepted.0 unlock_filtered tt (omega arith)

history-record_ciphertext_example :
    history (record_ciphertext unlock_ciphertext live_session)
    ≡ remember unlock_ciphertext (history live_session)
history-record_ciphertext_example =
    history-record_ciphertext unlock_ciphertext live_session live_session-IsValid refl
