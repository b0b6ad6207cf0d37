-- ===== src/PairingUi/CommKey.antt =====
-- components/switchbot_keypad_bridge/pairing_ui.h and pairing_ui.cpp: the keypad's communication key, as the page
-- shows it and the flash keeps it.
pub mod Kept
use switchbot_keypad_bridge.Common.{
  ℕ, ◌-◌, Option, none, some, [], ◌∷◌, ◌++◌, ◌==◌, if◌then◌else◌, take, replicate, Bytes,
}

-- The key's id, its digits and its keypad, all as text.
pub record CommKey : Type 0 where
  pub key_id : Bytes
  pub key_hex : Bytes
  pub mac : Bytes

abbrev pub no_comm_key : CommKey
no_comm_key = record { key_id = []; key_hex = []; mac = [] }

-- Three buffers of 8, 40 and 20 characters.
pub record CommKeyBlob : Type 0 where
  pub valid : ℕ
  pub key_id : Bytes
  pub key : Bytes
  pub mac : Bytes

abbrev pub key_id_size : ℕ
key_id_size = 8

abbrev pub key_size : ℕ
key_size = 40

abbrev pub mac_size : ℕ
mac_size = 20

abbrev pub empty_blob : CommKeyBlob
empty_blob = record {
  valid = 0;
  key_id = replicate key_id_size 0;
  key = replicate key_size 0;
  mac = replicate mac_size 0;
}

-- The text of a C string: up to its first NUL.
unfoldable pub c_string : Bytes → Bytes
c_string [] = []
c_string (c ∷ cs) = let rest = c_string cs in if c == 0 then [] else c ∷ rest

-- `strncpy` of a C string to a zeroed buffer, less its last byte.
unfoldable pub strncpy_to : ℕ → Bytes → Bytes
strncpy_to size s = take size (take (size - 1) (c_string s) ++ replicate size 0)

-- The last byte set to NUL, and the text before the first.
unfoldable pub buffer_text : ℕ → Bytes → Bytes
buffer_text size buffer = c_string (take (size - 1) buffer)

unfoldable pub load_comm_key : Option CommKeyBlob → CommKey → CommKey
load_comm_key none k = k
load_comm_key (some blob) k = if blob.valid == 0 then k else record {
  key_id = buffer_text key_id_size blob.key_id;
  key_hex = buffer_text key_size blob.key;
  mac = buffer_text mac_size blob.mac;
}

-- The blob that is saved.
unfoldable pub save_comm_key : CommKey → CommKeyBlob
save_comm_key k = record {
  valid = 1;
  key_id = strncpy_to key_id_size k.key_id;
  key = strncpy_to key_size k.key_hex;
  mac = strncpy_to mac_size k.mac;
}

-- The key is forgotten, and so is what the flash kept of it.
unfoldable pub clear_comm_key : CommKey → CommKeyBlob × CommKey
clear_comm_key k = (empty_blob, no_comm_key)
