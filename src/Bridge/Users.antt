-- ===== src/Bridge/Users.antt =====
-- components/switchbot_keypad_bridge/switchbot_keypad_bridge.cpp: who a credential belongs to
-- (`lookup_user_`) over the two lists of names.
pub mod Lookup
use switchbot_keypad_bridge.Common.{
  ℕ, ◌+◌, Bool, true, false, not, ◌&&◌, ◌||◌, List, [], ◌∷◌, ◌==◌, if◌then◌else◌, ℤ, is_negative,
  ◌==ℤ◌, ltb_ℤ, pos, negsuc, Bytes,
}
use switchbot_keypad_bridge.LockProtocol.{UnlockMethod}

-- `method` is a byte, 0xFF for any; a negative `index` means any slot.
pub record UserEntry : Type 0 where
  pub method : ℕ
  pub index : ℤ
  pub name : Bytes

abbrev pub any_method : ℕ
any_method = 0xFF

-- `best_score` and `best_name` of the scan.
pub record Best : Type 0 where
  pub score : ℤ
  pub name : Bytes

abbrev pub no_best : Best
no_best = record { score = negsuc 0; name = [] }

abbrev pub entry_applies : UnlockMethod → ℤ → UserEntry → Bool
entry_applies m i u =
    (u.method == any_method || u.method == m) && (is_negative u.index || u.index ==ℤ i)

abbrev pub entry_score : UserEntry → ℕ
entry_score u =
    (if not (u.method == any_method) then 2 else 0) + (if not (is_negative u.index) then 1 else 0)

-- One round of the loop in `scan`.
unfoldable pub scan_entry : UnlockMethod → ℤ → Bool → UserEntry → Best → Best
scan_entry m i win_ties u b =
    let score = entry_score u in
    if not (entry_applies m i u)
    then b
    else if ltb_ℤ b.score (pos score) || (win_ties && (pos score ==ℤ b.score))
    then record { score = pos score; name = u.name }
    else b

unfoldable pub scan : UnlockMethod → ℤ → Bool → List UserEntry → Best → Best
scan m i win_ties [] b = b
scan m i win_ties (u ∷ us) b = scan m i win_ties us (scan_entry m i win_ties u b)

unfoldable pub lookup_user : List UserEntry → List UserEntry → UnlockMethod → ℤ → Bytes
lookup_user web_users users m i = (scan m i false users (scan m i true web_users no_best)).name
