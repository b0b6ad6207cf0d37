-- ===== src/Bridge/WebUsers/Stored.antt =====
-- components/switchbot_keypad_bridge/switchbot_keypad_bridge.cpp: user names that the web page sets fit
-- the flash, and come back from it.
use switchbot_keypad_bridge.Common.{
  ℕ, zero, suc, ◌+◌, ◌≤◌, ◌<◌, ◌≡◌, refl, ap, ap₂, subst, inl, inr, Bool, true, false, Option, none,
  some, List, [], ◌∷◌, ◌++◌, arith, leb, ◌==◌, if◌then◌else◌, Bool-cases, Option-cases, length, set,
  All, length-take, take-All, Bytes,
}
use switchbot_keypad_bridge.Bridge.Users.{UserEntry}
use switchbot_keypad_bridge.Bridge.WebUsers.{
  web_users_max, UserRow, named_entry, row_entry, parse_rows, set_web_users, strncpy, c_string,
  user_rec, fill_entries, web_users_blob, read_rec, read_recs, web_users_of, load_web_users,
}
use switchbot_keypad_bridge.Bridge.State.{Bridge}

-- No byte is a NUL, as in every string that the JSON parser hands over.
abbrev pub NoNul : Bytes → Type 0
NoNul = All (λ c. 0 < c)

-- An entry that the flash can hold.
abbrev pub IsStorable : UserEntry → Type 0
IsStorable u = (length u.name ≤ 23) × NoNul u.name

abbrev pub CleanRow : UserRow → Type 0
CleanRow row = (name : Bytes) → row.name ≡ some name → NoNul name

cut-IsStorable :
    (row : UserRow) (name : Bytes) (e : UserEntry)
    → NoNul name
    → named_entry row name ≡ some e
    → IsStorable e
cut-IsStorable row [] e clean h = absurd (cc h)
cut-IsStorable row (c ∷ name) e clean h =
    subst IsStorable (ap (λ (o : Option UserEntry). elim o [ none ↦ e | some u ↦ u ]) h)
      (omega (arith, length-take 23 (c ∷ name)), take-All (λ b. 0 < b) 23 (c ∷ name) clean)

object-IsStorable :
    (is_object : Bool) (row : UserRow) (name : Bytes) (e : UserEntry)
    → NoNul name
    → (if is_object then named_entry row name else none) ≡ some e
    → IsStorable e
object-IsStorable true row name e clean h = cut-IsStorable row name e clean h
object-IsStorable false row name e clean h = absurd (cc h)

row_entry-IsStorable :
    (row : UserRow) (e : UserEntry) → CleanRow row → row_entry row ≡ some e → IsStorable e
unfolding row_entry
row_entry-IsStorable row e clean h = elim (Option-cases row.name) [
  | inl e1 ↦ absurd (cc (rw (e1, row_entry) at h))
  | inr (name, e1) ↦
      object-IsStorable row.is_object row name e (clean name e1) (rw (e1, row_entry) at h)
]

parse_rows-Storable :
    (rows : List UserRow) (found : ℕ)
    → found < web_users_max
    → All CleanRow rows
    → (length (parse_rows rows found) + found ≤ web_users_max)
      × All IsStorable (parse_rows rows found)
unfolding parse_rows
parse_rows-Storable [] found h clean = (omega arith, tt)
parse_rows-Storable (row ∷ rows) found h clean = elim (Option-cases (row_entry row)) [
  | inl e ↦ rw (e, parse_rows) (parse_rows-Storable rows found h clean.1)
  | inr (u, e) ↦ elim (Bool-cases (leb web_users_max (found + 1))) [
    | inl full ↦ rw (e, full, parse_rows) (omega arith, (row_entry-IsStorable row u clean.0 e, tt))
    | inr room ↦
        let rest = parse_rows-Storable rows (found + 1) (ground arith) clean.1 in
        rw (e, room, parse_rows)
          (omega (arith, rest.0), (row_entry-IsStorable row u clean.0 e, rest.1))
  ]
]

-- However many rows a request holds and however long their names are, at most 16 entries are kept,
-- each with a name of at most 23 bytes; entries already there are replaced.
pub set_web_users-Storable :
    (rows : List UserRow) (s : Bridge)
    → All CleanRow rows
    → (length (set_web_users (some rows) s).1.web_users ≤ web_users_max)
      × All IsStorable (set_web_users (some rows) s).1.web_users
unfolding set_web_users
set_web_users-Storable rows s clean =
    let p = parse_rows-Storable rows 0 (omega arith) clean in (omega (arith, p.0), p.1)

c_string-strncpy :
    (n : ℕ) (s : Bytes) → length s ≤ n → NoNul s → c_string (set (strncpy n s ++ 0 ∷ []) n 0) ≡ s
unfolding strncpy c_string
c_string-strncpy zero [] h clean = refl
c_string-strncpy zero (c ∷ s) h clean = absurd (omega arith)
c_string-strncpy (suc n) [] h clean = refl
c_string-strncpy (suc n) (c ∷ s) h clean =
    let nonzero : (c == 0) ≡ false = ground (arith, clean.0) in
    rw nonzero (rw nonzero (ap (c ∷◌) (c_string-strncpy n s (omega arith) clean.1)))

read-user_rec : (u : UserEntry) → IsStorable u → read_rec (user_rec u) ≡ u
unfolding read_rec user_rec
read-user_rec u h = ap (λ name. record u { name = name }) (c_string-strncpy 23 u.name h.0 h.1)

read-fill :
    (n : ℕ) (us : List UserEntry)
    → length us ≤ n
    → All IsStorable us
    → read_recs (length us) (fill_entries n us) ≡ us
unfolding read_recs fill_entries
read-fill zero [] h clean = refl
read-fill zero (u ∷ us) h clean = absurd (omega arith)
read-fill (suc n) [] h clean = refl
read-fill (suc n) (u ∷ us) h clean =
    ap₂ ◌∷◌ (read-user_rec u clean.0) (read-fill n us (omega arith) clean.1)

-- User names that the flash can hold come back the same at the next start.
pub load_web_users-save :
    (s boot : Bridge)
    → length s.web_users ≤ web_users_max
    → All IsStorable s.web_users
    → (load_web_users (some (web_users_blob s.web_users)) boot).web_users ≡ s.web_users
unfolding load_web_users web_users_of web_users_blob
load_web_users-save s boot h clean = ground (arith, read-fill 16 s.web_users h clean)
