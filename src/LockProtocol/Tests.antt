-- ===== src/LockProtocol/Tests.antt =====
-- Tests of components/switchbot_keypad_bridge/lock_protocol.cpp on frames that keypads send.
use switchbot_keypad_bridge.Common.{◌≡◌, ◌≢◌, ◌↔◌, [], ◌∷◌, pos, Bytes}
use switchbot_keypad_bridge.LockProtocol.{DecodedCommand, decode_lock_command, unknown, unlock}
use switchbot_keypad_bridge.LockProtocol.Shape.{Means, decode-iff-Means}

abbrev pin_unlock : Bytes
pin_unlock = 0x0F ∷ 0x4E ∷ 0x01 ∷ 0x03 ∷ 0x04 ∷ 0x80 ∷ 0x0C ∷ 0x00 ∷ []

abbrev pin_two : DecodedCommand
pin_two = record { type = unlock; method = 0x04; credential_index = pos 2 }

not_unknown : unlock ≢ unknown
not_unknown e = cc

decode-iff-Means_example : (decode_lock_command pin_unlock ≡ pin_two) ↔ Means pin_unlock pin_two
decode-iff-Means_example = decode-iff-Means pin_unlock pin_two not_unknown
