-- ===== src/PairingUi/Auth.antt =====
-- components/switchbot_keypad_bridge/pairing_ui.cpp: HTTP Basic Auth (`require_auth_`). The server and
-- base64 are libraries: the header is an argument, the decoder the section's parameter.
use Prim.Native.Nat.{bit_xor, bit_or}
use switchbot_keypad_bridge.Common.{
  ℕ, Bool, false, not, ◌&&◌, ◌||◌, Option, none, some, [], ◌∷◌, ◌++◌, ltb, ◌==◌, if◌then◌else◌,
  length, drop, is_nil, Bytes, u8, memcmp_eq, text,
}

-- The configured name and password; an empty password leaves the console open.
pub record Credentials : Type 0 where
  pub user : Bytes
  pub pass : Bytes

-- `auth_user_ + ":" + auth_pass_`
abbrev pub expected_text : Credentials → Bytes
expected_text k = k.user ++ b':' ∷ k.pass

-- The loop over the expected text, with 0 for what the given text lacks.
unfoldable pub fold_diff : Bytes → Bytes → ℕ → ℕ
fold_diff creds [] diff = diff
fold_diff [] (e ∷ expected) diff = fold_diff [] expected (bit_or diff (bit_xor 0 e))
fold_diff (c ∷ creds) (e ∷ expected) diff = fold_diff creds expected (bit_or diff (bit_xor c e))

-- `diff` after the loop; it starts with the low byte of the lengths' XOR.
unfoldable pub credentials_diff : Bytes → Bytes → ℕ
credentials_diff creds expected =
    fold_diff creds expected (u8 (bit_xor (length creds) (length expected)))

abbrev pub basic_prefix : Bytes
basic_prefix = text "Basic "

abbrev pub header_max : ℕ
header_max = 512

-- The comparison of what the decoder returned; `none` is its failure.
abbrev pub check_decoded : Option Bytes → Credentials → Bool
check_decoded none k = false
check_decoded (some creds) k = credentials_diff creds (expected_text k) == 0

module _ (base64_decode : Bytes → Option Bytes) where
  -- The decoder writes to a buffer of 400 bytes.
  unfoldable pub check_header : Bytes → Credentials → Bool
  check_header header k =
      if not (memcmp_eq basic_prefix header)
      then false
      else check_decoded (base64_decode (drop (length basic_prefix) header)) k

  -- Whether a request goes on; `none` is a request whose header cannot be read.
  unfoldable pub require_auth : Option Bytes → Credentials → Bool
  require_auth none k = is_nil k.pass
  require_auth (some header) k =
      is_nil k.pass
      || (not (length header == 0 || ltb header_max (length header)) && check_header header k)
