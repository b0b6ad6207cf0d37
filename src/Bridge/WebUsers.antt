-- ===== src/Bridge/WebUsers.antt =====
-- components/switchbot_keypad_bridge/switchbot_keypad_bridge.cpp: the user names that the web page edits
-- and the flash keeps. The JSON parser is not part of the program: a row is what it reports.
pub mod Stored
use switchbot_keypad_bridge.Common.{
  ℕ, zero, suc, ◌+◌, ◌-◌, Bool, true, false, Option, none, some, List, [], ◌∷◌, ◌++◌, ltb, leb,
  ◌==◌, if◌then◌else◌, length, set, take, replicate, is_nil, ℤ, int16, pos, negsuc, Bytes, bytes_eq,
  text,
}
use switchbot_keypad_bridge.Bridge.Users.{UserEntry}
use switchbot_keypad_bridge.Bridge.State.{WebUserRec, WebUsersBlob, Bridge, Method, save_web_users}
use switchbot_keypad_bridge.LockProtocol.Method

abbrev pub web_users_max : ℕ
web_users_max = 16

abbrev pub web_user_name_max : ℕ
web_user_name_max = 24

-- An element of the array; a member is there where it has the type that the handler wants.
pub record UserRow : Type 0 where
  pub is_object : Bool
  pub name : Option Bytes
  pub method : Option Bytes
  pub index : Option ℤ

unfoldable pub web_method_str : ℕ → Bytes
web_method_str m =
    if m == 0x04
    then text "pin"
    else if m == 0x08
    then text "nfc"
    else if m == 0x0C
    then text "fingerprint"
    else if m == 0x18
    then text "face"
    else if m == 0xFF
    then text "any"
    else text "unknown"

unfoldable pub web_method_byte : Bytes → ℕ
web_method_byte s =
    if bytes_eq s (text "pin")
    then 0x04
    else if bytes_eq s (text "nfc")
    then 0x08
    else if bytes_eq s (text "fingerprint")
    then 0x0C
    else if bytes_eq s (text "face")
    then 0x18
    else if bytes_eq s (text "unknown")
    then 0x00
    else 0xFF

abbrev pub row_method : Option Bytes → ℕ
row_method none = web_method_byte (text "any")
row_method (some s) = web_method_byte s

abbrev pub row_index : Option ℤ → ℤ
row_index none = negsuc 0
row_index (some i) = int16 i

abbrev pub named_entry : UserRow → Bytes → Option UserEntry
named_entry row name =
    if is_nil name
    then none
    else some (record {
      method = row_method row.method;
      index = row_index row.index;
      name = take (web_user_name_max - 1) name;
    })

-- One round of the loop: `none` is a row that is skipped. A longer name is cut to 23 bytes.
unfoldable pub row_entry : UserRow → Option UserEntry
row_entry row = elim row.name [
  | none ↦ none
  | some name ↦ if row.is_object then named_entry row name else none
]

-- The loop over the array, with the number of entries found so far.
unfoldable pub parse_rows : List UserRow → ℕ → List UserEntry
parse_rows [] found = []
parse_rows (row ∷ rows) found = elim (row_entry row) [
  | none ↦ parse_rows rows found
  | some e ↦
      e ∷ elim (leb web_users_max (found + 1)) [ true ↦ [] | false ↦ parse_rows rows (found + 1) ]
]

-- `none` is a body that does not parse, or holds no array.
unfoldable pub set_web_users : Option (List UserRow) → Bridge → Bool × Bridge
set_web_users none s = (false, s)
set_web_users (some rows) s = (
  true,
  record s {
    web_users = parse_rows rows 0;
    pending = record (s.pending) { web_users_dirty = true };
  },
)

-- What the page is shown: the method's name, the slot and the name of each entry.
unfoldable pub web_users_json : List UserEntry → List (Bytes × ℤ × Bytes)
web_users_json [] = []
web_users_json (u ∷ us) = (web_method_str u.method, u.index, u.name) ∷ web_users_json us

-- `strncpy` into a buffer of `n` bytes: up to the first NUL, and NULs behind it.
unfoldable pub strncpy : ℕ → Bytes → Bytes
strncpy zero s = []
strncpy (suc n) [] = 0 ∷ strncpy n []
strncpy (suc n) (c ∷ s) = if c == 0 then 0 ∷ strncpy n [] else c ∷ strncpy n s

-- The string that a buffer holds up to its first NUL.
unfoldable pub c_string : Bytes → Bytes
c_string [] = []
c_string (c ∷ s) = if c == 0 then [] else c ∷ c_string s

unfoldable pub user_rec : UserEntry → WebUserRec
user_rec u = record {
  method = u.method;
  index = u.index;
  name = strncpy (web_user_name_max - 1) u.name ++ 0 ∷ [];
}

-- An entry of `WebUsersBlob blob{}`.
abbrev pub empty_rec : WebUserRec
empty_rec = record { method = 0; index = pos 0; name = replicate web_user_name_max 0 }

unfoldable pub fill_entries : ℕ → List UserEntry → List WebUserRec
fill_entries zero us = []
fill_entries (suc n) [] = empty_rec ∷ fill_entries n []
fill_entries (suc n) (u ∷ us) = user_rec u ∷ fill_entries n us

unfoldable pub web_users_blob : List UserEntry → WebUsersBlob
web_users_blob us = record {
  version = 1;
  count = if ltb web_users_max (length us) then web_users_max else length us;
  entries = fill_entries web_users_max us;
}

unfoldable pub save_web_users_now : Method
save_web_users_now s = (save_web_users (web_users_blob s.web_users) ∷ [], s)

-- The byte that is set to NUL in the copy is its last.
unfoldable pub read_rec : WebUserRec → UserEntry
read_rec r = record {
  method = r.method;
  index = r.index;
  name = c_string (set r.name (web_user_name_max - 1) 0);
}

unfoldable pub read_recs : ℕ → List WebUserRec → List UserEntry
read_recs zero rs = []
read_recs (suc n) [] = []
read_recs (suc n) (r ∷ rs) = read_rec r ∷ read_recs n rs

unfoldable pub web_users_of : WebUsersBlob → List UserEntry
web_users_of blob =
    read_recs (if leb blob.count web_users_max then blob.count else web_users_max) blob.entries

-- `none` is a preference that does not load.
unfoldable pub load_web_users : Option WebUsersBlob → Bridge → Bridge
load_web_users none s = s
load_web_users (some blob) s =
    if blob.version == 1 then record s { web_users = web_users_of blob } else s
