-- ===== src/LockProtocol/Method.antt =====
-- The enumerators of `UnlockMethod` (components/switchbot_keypad_bridge/lock_protocol.h). The
-- decoder casts any byte to the enumeration, so a method is a byte and these name some bytes.
use switchbot_keypad_bridge.Common.{ℕ}

abbrev pub UnlockMethod : Type 0
UnlockMethod = ℕ

abbrev pub unknown : UnlockMethod
unknown = 0x00

abbrev pub pin : UnlockMethod
pin = 0x04

abbrev pub nfc : UnlockMethod
nfc = 0x08

abbrev pub fingerprint : UnlockMethod
fingerprint = 0x0C

abbrev pub face : UnlockMethod
face = 0x18
