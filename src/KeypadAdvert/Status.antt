-- ===== src/KeypadAdvert/Status.antt =====
-- components/switchbot_keypad_bridge/keypad_advert.cpp: `parse_keypad_battery` and
-- `parse_keypad_status`.
use switchbot_keypad_bridge.Common.{
  ℕ, ◌+◌, ◌*◌, ◌%◌, ◌≤◌, ◌≡◌, ◌↔◌, Bool, true, false, Option, none, some, ◌∷◌, arith, leb, ℤ, pos,
  negsuc, Bytes,
}
use switchbot_keypad_bridge.KeypadAdvert.{
  KeypadFamily, original, vision, KeypadStatus, no_status, parse_keypad_battery,
  parse_keypad_status,
}

abbrev pub IsPercent : ℤ → Type 0
IsPercent (pos n) = n ≤ 100
IsPercent (negsuc n) = ⊥

-- What a consumer of a status may rely on.
pub record IsSane (st : KeypadStatus) : Type 0 where
  pub percent : st.valid ≡ true → IsPercent st.battery
  pub nothing : st.valid ≡ false → st ≡ no_status
  pub level : st.pir_level ≤ 3
  pub moves : (st.motion ≡ true) ↔ (2 ≤ st.pir_level)

-- Of any advertisement, of either family, the parser makes either the empty status, with every alarm
-- off, or a valid one whose battery is a percentage from 0 to 100; the PIR level is at most 3, and
-- motion is reported exactly from level 2 on.
pub parse_keypad_status-IsSane :
    (f : KeypadFamily) (svc_data mfr_data : Option Bytes)
    → IsSane (parse_keypad_status f svc_data mfr_data)
unfolding parse_keypad_status
parse_keypad_status-IsSane original none mfr_data = ground arith
parse_keypad_status-IsSane original (some s) mfr_data = ground arith
parse_keypad_status-IsSane vision svc_data none = ground arith
parse_keypad_status-IsSane vision svc_data (some m) = ground arith

-- The two parsers agree: where the full status is valid, its battery level is the one that
-- `parse_keypad_battery` reads from the same advertisement.
pub parse_keypad_battery-eq-status :
    (f : KeypadFamily) (svc_data mfr_data : Option Bytes)
    → (parse_keypad_status f svc_data mfr_data).valid ≡ true
    → parse_keypad_battery f svc_data mfr_data ≡ (parse_keypad_status f svc_data mfr_data).battery
unfolding parse_keypad_status parse_keypad_battery
parse_keypad_battery-eq-status original none mfr_data h = ground arith
parse_keypad_battery-eq-status original (some s) mfr_data h = ground arith
parse_keypad_battery-eq-status vision svc_data none h = ground arith
parse_keypad_battery-eq-status vision svc_data (some m) h = ground arith

abbrev flag : Bool → ℕ
flag true = 1
flag false = 0

-- The alarm byte that a Vision keypad sends, by its flags.
abbrev pub alarm_byte : Bool → Bool → Bool → Bool → Bool → ℕ
alarm_byte lockout tamper duress hot cold =
    flag lockout + 2 * flag tamper + 4 * flag duress + 64 * flag hot + 128 * flag cold

-- A Vision keypad's manufacturer data with company id 0x0969, a level from 0 to 100 beside the
-- charging bit, any combination of alarm flags and a PIR byte is read back as exactly those values,
-- whatever the other bytes are.
parse_keypad_status_flags :
    (a b c d e f g h i j k l : ℕ) (rest : Bytes) (svc_data : Option Bytes) (level : ℕ)
    (charging lockout tamper duress hot cold : Bool)
    → level ≤ 100
    → parse_keypad_status vision svc_data (
        some (
          0x69
          ∷ 0x09
          ∷ a
          ∷ b
          ∷ c
          ∷ d
          ∷ e
          ∷ f
          ∷ g
          ∷ (level + 128 * flag charging)
          ∷ alarm_byte lockout tamper duress hot cold
          ∷ h
          ∷ i
          ∷ j
          ∷ k
          ∷ l
          ∷ rest))
      ≡ record {
        valid = true;
        battery = pos level;
        charging = charging;
        tamper = tamper;
        duress = duress;
        lockout = lockout;
        low_temperature = cold;
        high_temperature = hot;
        motion = leb 2 (l % 4);
        pir_level = l % 4;
      }
unfolding parse_keypad_status
parse_keypad_status_flags a b c d e f g h i j k l rest svc_data level charging lockout tamper duress
      hot cold le =
    ground arith
