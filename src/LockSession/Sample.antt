-- ===== src/LockSession/Sample.antt =====
-- A session of components/switchbot_keypad_bridge/lock_session.cpp after its IV exchange, and the frame
-- of an unlock, for tests.
use switchbot_keypad_bridge.Common.{
  ◌≡◌, refl, ap, ◌≢◌, true, false, some, [], ◌∷◌, arith, get_or, replicate, pos, Bytes, u8,
}
use switchbot_keypad_bridge.AesCtr.Toy.{toy_psa, toy_documented, toy_xcrypt, toy_IsStream}
use switchbot_keypad_bridge.AesCtr.Laws.{aes_ctr_xcrypt-usable}
use switchbot_keypad_bridge.LockProtocol.{DecodedCommand, no_command, credential_slot, unlock}
use switchbot_keypad_bridge.LockProtocol.Shape.{Means, means_unlock}
use switchbot_keypad_bridge.LockSession.{
  is_iv_request, is_filtered, process_frame, command, LockSession, Entropy, replay_history_size,
  session_iv,
}
use switchbot_keypad_bridge.LockSession.State.{empty_entry}
use switchbot_keypad_bridge.LockSession.Invariant.{IsValid}
use switchbot_keypad_bridge.LockSession.Gate.{IsAccepted, process_frame-command_iff}
use switchbot_keypad_bridge.LockSession.Transport.{process_frame-keypad_frame}

abbrev pub live_session : LockSession
live_session = record {
  aes_key = 7;
  slot_id = 0x88;
  iv_response = 0x01 ∷ 0x00 ∷ 0x00 ∷ 0x00 ∷ 0xA1 ∷ 0xB2 ∷ replicate 14 0x33;
  iv_established = true;
  replay_history = replicate replay_history_size empty_entry;
  replay_head = 0;
  header = record { key_id = 0x88; seq_a = 0xA1; seq_b = 0xB2 };
  last_command = no_command;
}

pub live_session-IsValid : IsValid live_session
live_session-IsValid = record {
  iv_size = refl;
  iv_header = refl;
  iv_bytes = omega arith;
  history_size = refl;
  head_in = omega arith;
  entries_fit = omega arith;
}

abbrev pub some_words : Entropy
some_words = record { w0 = 1; w1 = 2; w2 = 3; w3 = 4 }

abbrev pub other_words : Entropy
other_words = record { w0 = 0xC3; w1 = 2; w2 = 3; w3 = 4 }

abbrev pub unlock_plaintext : Bytes
unlock_plaintext = 0x0F ∷ 0x4E ∷ 0x01 ∷ 0x03 ∷ 0x04 ∷ 0x80 ∷ 0x0A ∷ 0x00 ∷ []

abbrev pub unlock_ciphertext : Bytes
unlock_ciphertext = 0x08 ∷ 0x49 ∷ 0x06 ∷ 0x04 ∷ 0x03 ∷ 0x87 ∷ 0x0D ∷ 0x07 ∷ []

abbrev pub unlock_frame : Bytes
unlock_frame = 0x57 ∷ 0x88 ∷ 0xA1 ∷ 0xB2 ∷ unlock_ciphertext

abbrev pub iv_request : Bytes
iv_request = 0x57 ∷ 0x00 ∷ 0x00 ∷ 0x00 ∷ 0x0F ∷ 0x21 ∷ 0x03 ∷ 0x88 ∷ []

abbrev pub pin_zero : DecodedCommand
pin_zero = record { type = unlock; method = 0x04; credential_index = pos 0 }

pub unlock_Means : Means unlock_plaintext pin_zero
unfolding credential_slot
unlock_Means = means_unlock 0x04 0x0A 0x00 []

pub unlock_encrypts :
    toy_xcrypt live_session.aes_key (session_iv live_session) unlock_plaintext
    ≡ some unlock_ciphertext
unlock_encrypts =
    aes_ctr_xcrypt-usable toy_psa toy_documented 7 (session_iv live_session) unlock_plaintext refl
      refl

pub slot_used : live_session.slot_id ≢ 0
slot_used = omega arith

pub not_request : is_iv_request unlock_frame ≡ false
unfolding is_iv_request
not_request = refl

pub is_request : is_iv_request iv_request ≡ true
unfolding is_iv_request
is_request = refl

pub other_echo : get_or unlock_frame 2 0 ≢ u8 other_words.w0
other_echo = omega arith

pub unlock_accepted :
    ((process_frame toy_xcrypt some_words unlock_frame live_session).0 ≡ command)
    × ((process_frame toy_xcrypt some_words unlock_frame live_session).1.last_command ≡ pin_zero)
unlock_accepted =
    process_frame-keypad_frame toy_xcrypt toy_IsStream some_words live_session unlock_ciphertext
      live_session-IsValid refl slot_used (omega arith) (omega arith) (omega arith) unlock_Means
      unlock_encrypts refl

pub unlock_filtered :
    is_filtered (process_frame toy_xcrypt some_words unlock_frame live_session).1.last_command.type
    ≡ true
unlock_filtered = ap (λ (d : DecodedCommand). is_filtered d.type) unlock_accepted.1

pub accepted_frame : IsAccepted toy_xcrypt unlock_frame live_session
accepted_frame =
    (process_frame-command_iff toy_xcrypt some_words unlock_frame live_session).0 unlock_accepted.0
