-- ===== src/LockSession/State.antt =====
-- components/switchbot_keypad_bridge/lock_session.h: the session's members, and the methods on its
-- replay history and its IV (lock_session.cpp).
use switchbot_keypad_bridge.Common.{
  ℕ, ◌+◌, ◌%◌, Bool, false, not, ◌&&◌, ◌||◌, List, [], ◌∷◌, ◌++◌, ltb, ◌==◌, if◌then◌else◌, length,
  get_or, set, take, drop, replicate, Bytes, memcmp_eq, le_bytes,
}
use switchbot_keypad_bridge.LockProtocol.{DecodedCommand, no_command}

abbrev pub header_len : ℕ
header_len = 4

abbrev pub max_payload : ℕ
max_payload = 32

abbrev pub protocol_magic : ℕ
protocol_magic = 0x57

abbrev pub session_iv_req_min : ℕ
session_iv_req_min = 8

abbrev pub iv_response_header : ℕ
iv_response_header = 4

abbrev pub replay_history_size : ℕ
replay_history_size = 8

pub record FrameHeader : Type 0 where
  pub key_id : ℕ
  pub seq_a : ℕ
  pub seq_b : ℕ

pub data Action : Type 0 where
  drop_frame send_iv command : Action

-- `len` is the field `length`: how many bytes of the 32-byte array are meant.
pub record ReplayEntry : Type 0 where
  pub bytes : Bytes
  pub len : ℕ

pub record LockSession : Type 0 where
  pub aes_key : ℕ
  pub slot_id : ℕ
  pub iv_response : Bytes
  pub iv_established : Bool
  pub replay_history : List ReplayEntry
  pub replay_head : ℕ
  pub header : FrameHeader
  pub last_command : DecodedCommand

abbrev pub empty_entry : ReplayEntry
empty_entry = record { bytes = replicate max_payload 0; len = 0 }

-- The default member initialisers.
unfoldable pub new_session : LockSession
new_session = record {
  aes_key = 0;
  slot_id = 0x00;
  iv_response = 0x01 ∷ replicate 19 0x00;
  iv_established = false;
  replay_history = replicate replay_history_size empty_entry;
  replay_head = 0;
  header = record { key_id = 0; seq_a = 0; seq_b = 0 };
  last_command = no_command;
}

-- `iv_response_.data() + IV_RESPONSE_HEADER`
abbrev pub session_iv : LockSession → Bytes
session_iv s = drop iv_response_header s.iv_response

unfoldable pub set_aes_key : ℕ → LockSession → LockSession
set_aes_key key s = record s { aes_key = key }

unfoldable pub forget_slot : LockSession → LockSession
forget_slot s = record s { slot_id = 0x00 }

-- `for (auto &entry : replay_history_) entry.length = 0;`
unfoldable pub clear_entries : List ReplayEntry → List ReplayEntry
clear_entries [] = []
clear_entries (e ∷ es) = record e { len = 0 } ∷ clear_entries es

unfoldable pub clear_replay_history : LockSession → LockSession
clear_replay_history s = record s {
  replay_head = 0;
  replay_history = clear_entries s.replay_history;
}

unfoldable pub reset : LockSession → LockSession
unfolding clear_replay_history
reset s = clear_replay_history (record s { iv_established = false })

-- The four words that `esp_random()` returns in one rotation.
pub record Entropy : Type 0 where
  pub w0 : ℕ
  pub w1 : ℕ
  pub w2 : ℕ
  pub w3 : ℕ

abbrev pub entropy_bytes : Entropy → Bytes
entropy_bytes r = le_bytes r.w0 ++ (le_bytes r.w1 ++ (le_bytes r.w2 ++ le_bytes r.w3))

-- The 16 bytes after the response's header are overwritten, four at a time.
unfoldable pub rotate_iv : Entropy → LockSession → LockSession
rotate_iv r s = record s { iv_response = take iv_response_header s.iv_response ++ entropy_bytes r }

abbrev pub entry_matches : Bytes → ReplayEntry → Bool
entry_matches ciphertext e = (e.len == length ciphertext) && memcmp_eq ciphertext e.bytes

unfoldable pub any_entry_matches : Bytes → List ReplayEntry → Bool
any_entry_matches ciphertext [] = false
any_entry_matches ciphertext (e ∷ es) =
    entry_matches ciphertext e || any_entry_matches ciphertext es

abbrev pub is_recordable : Bytes → Bool
is_recordable ciphertext = not (length ciphertext == 0 || ltb max_payload (length ciphertext))

unfoldable pub is_replayed_ciphertext : Bytes → LockSession → Bool
is_replayed_ciphertext ciphertext s =
    is_recordable ciphertext && any_entry_matches ciphertext s.replay_history

-- `memcpy` over the start of the array; the bytes behind it stay.
unfoldable pub write_entry : Bytes → ReplayEntry → ReplayEntry
write_entry ciphertext e = record {
  bytes = ciphertext ++ drop (length ciphertext) e.bytes;
  len = length ciphertext;
}

unfoldable pub record_ciphertext : Bytes → LockSession → LockSession
record_ciphertext ciphertext s =
    if is_recordable ciphertext
    then record s {
      replay_history =
          set s.replay_history s.replay_head
            (write_entry ciphertext (get_or s.replay_history s.replay_head empty_entry));
      replay_head = (s.replay_head + 1) % replay_history_size;
    }
    else s
