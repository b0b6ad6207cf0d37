-- ===== src/AesCtr/Cipher.antt =====
-- What the session and the pairer use of the cipher (components/switchbot_keypad_bridge/aes_ctr.h):
-- a function of a key, an IV and the input, which may fail, with the laws of a stream cipher.
use switchbot_keypad_bridge.Common.{◌≡◌, Option, some, length, All, Bytes, IsByte}

abbrev pub Xcrypt : Type 0 → Type 0
Xcrypt Key = Key → Bytes → Bytes → Option Bytes

-- Where a call succeeds on bytes under a 16-byte IV, the output is as long as the input and the same
-- call on the output gives the input back.
abbrev pub IsStream : {Key : Type 0} → Xcrypt Key → Type 0
IsStream {Key} xcrypt =
    (k : Key) (iv x y : Bytes)
    → length iv ≡ 16
    → All IsByte x
    → xcrypt k iv x ≡ some y
    → (length y ≡ length x) × (xcrypt k iv y ≡ some x)
