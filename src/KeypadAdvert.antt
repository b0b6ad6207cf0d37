-- ===== src/KeypadAdvert.antt =====
-- components/switchbot_keypad_bridge/keypad_advert.h and keypad_advert.cpp: what a keypad's BLE
-- advertisement says. A data pointer that may be null is an Option; the list's length is the length
-- argument that goes with it.
pub mod Identify
pub mod Status
mod Tests
use switchbot_keypad_bridge.Common.{
  ℕ, ◌+◌, ◌-◌, ◌/◌, ◌%◌, ◌^◌, Bool, true, false, not, ◌&&◌, ◌||◌, Option, none, some, ltb, leb,
  ◌==◌, if◌then◌else◌, length, get_or, ℤ, pos, negsuc, Bytes, bytes_eq, text,
}

pub data KeypadFamily : Type 0 where
  original vision : KeypadFamily

KeypadFamily-discrete : Discrete KeypadFamily
KeypadFamily-discrete = hlevel

unfoldable pub keypad_family_str : KeypadFamily → Bytes
keypad_family_str vision = text "vision"
keypad_family_str original = text "original"

unfoldable pub keypad_family_from_str : Option Bytes → KeypadFamily
keypad_family_from_str none = original
keypad_family_from_str (some s) = if bytes_eq s (text "vision") then vision else original

pub record KeypadIdent : Type 0 where
  pub is_keypad : Bool
  pub family : KeypadFamily

-- The default member initialisers.
abbrev pub no_keypad : KeypadIdent
no_keypad = record { is_keypad = false; family = original }

-- `x & 0x7F`
abbrev pub low7 : ℕ → ℕ
low7 x = x % 128

-- `(x & (1 << k)) != 0`
abbrev pub bit : ℕ → ℕ → Bool
bit x k = x / 2 ^ k % 2 == 1

abbrev pub keypad_type_byte : ℕ
keypad_type_byte = 0x79

-- `w` points `at` bytes into `svc_data`.
unfoldable pub suffix_is : Bytes → ℕ → ℕ → ℕ → ℕ → Bool
suffix_is svc_data at b1 b2 b3 =
    let w = λ (i : ℕ). get_or svc_data (at + i) 0 in
    (w 0 == 0x00 || w 0 == 0x01) && (w 1 == b1) && (w 2 == b2) && (w 3 == b3)

-- One round of the loop over the two windows.
unfoldable pub is_vision_window : Bytes → ℕ → Bool
is_vision_window svc_data at =
    suffix_is svc_data at 0x11 0x03 0x78 || suffix_is svc_data at 0x11 0x51 0x98

identify_bytes : Bytes → KeypadIdent
identify_bytes svc_data =
    let len = length svc_data in
    if len == 0
    then no_keypad
    else if low7 (get_or svc_data 0 0) == keypad_type_byte
    then record { is_keypad = true; family = original }
    else if ltb 5 len
        && (is_vision_window svc_data (len - 4) || is_vision_window svc_data (len - 5))
    then record { is_keypad = true; family = vision }
    else no_keypad

unfoldable pub identify_keypad : Option Bytes → KeypadIdent
unfolding identify_bytes
identify_keypad none = no_keypad
identify_keypad (some svc_data) = identify_bytes svc_data

-- `pct > 100 ? 100 : pct` of the low seven bits
unfoldable pub battery_percent : ℕ → ℕ
battery_percent b = if ltb 100 (low7 b) then 100 else low7 b

-- The little-endian SwitchBot company id 0x0969.
abbrev pub has_company_id : Bytes → Bool
has_company_id mfr_data = (get_or mfr_data 0 0 == 0x69) && (get_or mfr_data 1 0 == 0x09)

battery_original : Option Bytes → ℤ
battery_original none = negsuc 0
battery_original (some svc_data) =
    if ltb (length svc_data) 3 then negsuc 0 else pos (battery_percent (get_or svc_data 2 0))

battery_vision : Option Bytes → ℤ
battery_vision none = negsuc 0
battery_vision (some mfr_data) =
    if ltb (length mfr_data) 10
    then negsuc 0
    else if not (has_company_id mfr_data)
    then negsuc 0
    else pos (battery_percent (get_or mfr_data 9 0))

-- -1 where the advertisement does not carry the level.
unfoldable pub parse_keypad_battery : KeypadFamily → Option Bytes → Option Bytes → ℤ
unfolding battery_original battery_vision battery_percent
parse_keypad_battery original svc_data mfr_data = battery_original svc_data
parse_keypad_battery vision svc_data mfr_data = battery_vision mfr_data

pub record KeypadStatus : Type 0 where
  pub valid : Bool
  pub battery : ℤ
  pub charging : Bool
  pub tamper : Bool
  pub duress : Bool
  pub lockout : Bool
  pub low_temperature : Bool
  pub high_temperature : Bool
  pub motion : Bool
  pub pir_level : ℕ

-- The default member initialisers.
abbrev pub no_status : KeypadStatus
no_status = record {
  valid = false;
  battery = negsuc 0;
  charging = false;
  tamper = false;
  duress = false;
  lockout = false;
  low_temperature = false;
  high_temperature = false;
  motion = false;
  pir_level = 0;
}

status_original : Option Bytes → KeypadStatus
status_original none = no_status
status_original (some svc_data) =
    if leb 3 (length svc_data)
    then record no_status { battery = pos (battery_percent (get_or svc_data 2 0)); valid = true }
    else no_status

-- The PIR or radar level, from the byte that only longer payloads carry.
with_motion : Bytes → KeypadStatus → KeypadStatus
with_motion mfr_data st =
    let level = get_or mfr_data 15 0 % 4 in
    if leb 16 (length mfr_data) then record st { pir_level = level; motion = leb 2 level } else st

status_vision : Option Bytes → KeypadStatus
status_vision none = no_status
status_vision (some mfr_data) =
    let power = get_or mfr_data 9 0 in
    let alarms = get_or mfr_data 10 0 in
    if ltb (length mfr_data) 15
    then no_status
    else if not (has_company_id mfr_data)
    then no_status
    else with_motion mfr_data (record no_status {
      battery = pos (battery_percent power);
      charging = bit power 7;
      lockout = bit alarms 0;
      tamper = bit alarms 1;
      duress = bit alarms 2;
      high_temperature = bit alarms 6;
      low_temperature = bit alarms 7;
      valid = true;
    })

unfoldable pub parse_keypad_status : KeypadFamily → Option Bytes → Option Bytes → KeypadStatus
unfolding status_original status_vision with_motion battery_percent
parse_keypad_status original svc_data mfr_data = status_original svc_data
parse_keypad_status vision svc_data mfr_data = status_vision mfr_data
