-- ===== src/PairingUi/CommKey/Kept.antt =====
-- components/switchbot_keypad_bridge/pairing_ui.cpp: what the flash keeps of a communication key.
use switchbot_keypad_bridge.Common.{
  ℕ, zero, suc, ◌-◌, ◌≤◌, ◌≡◌, refl, ap, Bool, true, false, not, ◌&&◌, some, [], ◌∷◌, ◌++◌, arith,
  ◌==◌, &&_true, length, take, replicate, All, take-take, length-take, take-All, Bytes,
}
use switchbot_keypad_bridge.PairingUi.CommKey.{
  CommKey, no_comm_key, key_id_size, key_size, mac_size, c_string, strncpy_to, buffer_text,
  load_comm_key, save_comm_key, clear_comm_key,
}

-- A text without a NUL.
abbrev pub IsText : Bytes → Type 0
IsText s = All (λ c. (c == 0) ≡ false) s

abbrev pub is_text : Bytes → Bool
is_text [] = true
is_text (c ∷ cs) = not (c == 0) && is_text cs

pub is_text→IsText : (s : Bytes) → is_text s ≡ true → IsText s
is_text→IsText [] h = tt
is_text→IsText (c ∷ cs) h = (ground (arith, h), is_text→IsText cs (&&_true _ _ h).1)

c_string-text : (s : Bytes) → IsText s → c_string s ≡ s
unfolding c_string
c_string-text [] h = refl
c_string-text (c ∷ cs) h = rw (h.0) (ap (c ∷◌) (c_string-text cs h.1))

c_string-zeros : (n k : ℕ) → c_string (take n (replicate k 0)) ≡ []
unfolding c_string
c_string-zeros zero k = refl
c_string-zeros (suc n) zero = refl
c_string-zeros (suc n) (suc k) = refl

c_string-padded :
    (n k : ℕ) (t : Bytes) → IsText t → length t ≤ n → c_string (take n (t ++ replicate k 0)) ≡ t
unfolding c_string
c_string-padded n k [] h fits = c_string-zeros n k
c_string-padded zero k (c ∷ cs) h fits = absurd (omega arith)
c_string-padded (suc n) k (c ∷ cs) h fits =
    rw (h.0) (ap (c ∷◌) (c_string-padded n k cs h.1 (omega arith)))

-- What comes back of a text that was put into a buffer.
buffer_text-strncpy_to :
    (size : ℕ) (s : Bytes) → IsText s → buffer_text size (strncpy_to size s) ≡ take (size - 1) s
unfolding buffer_text strncpy_to
buffer_text-strncpy_to size s h =
    rw
      (
        c_string-text s h,
        take-take (size - 1) size (take (size - 1) s ++ replicate size 0) (omega arith),
      )
      (c_string-padded (size - 1) size (take (size - 1) s) (take-All _ (size - 1) s h)
        (omega (arith, length-take (size - 1) s)))

abbrev pub cut_key : CommKey → CommKey
cut_key k = record { key_id = take 7 k.key_id; key_hex = take 39 k.key_hex; mac = take 19 k.mac }

-- After a reboot the page shows the communication key that was saved, cut to 7, 39 and 19 characters, which holds
-- every key of 16 bytes and every address; and after the key was forgotten it shows none of it.
pub load_comm_key-kept :
    (k now : CommKey)
    → IsText k.key_id
    → IsText k.key_hex
    → IsText k.mac
    → (load_comm_key (some (save_comm_key k)) now ≡ cut_key k)
      × (load_comm_key (some (clear_comm_key k).0) no_comm_key ≡ (clear_comm_key k).1)
unfolding load_comm_key save_comm_key clear_comm_key
load_comm_key-kept k now hid hkey hmac = (
  rw (
    buffer_text-strncpy_to key_id_size k.key_id hid,
    buffer_text-strncpy_to key_size k.key_hex hkey,
    buffer_text-strncpy_to mac_size k.mac hmac,
  ),
  refl,
)
