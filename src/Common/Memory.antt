-- ===== src/Common/Memory.antt =====
-- Byte strings as lists of numbers, and the C comparisons that the program makes on them.
use Prim.Native.Nat.{ℕ, zero, suc, ◌+◌, ◌-◌, ◌/◌, ◌%◌, ◌^◌, ◌<◌}
use mathlib.Core.Path.{◌≡◌, refl, ap₂, subst}
use mathlib.Core.Logic.{◌↔◌}
use mathlib.Core.Bool.{Bool, true, false, ◌&&◌}
use mathlib.Core.List.{List, [], ◌∷◌, ◌++◌}
use native.Mathlib.Omega.{arith}
use Prim.Native.Char.{code}
use Prim.Native.String.{String}
use switchbot_keypad_bridge.Common.Tests.{◌==◌, ltb, if◌then◌else◌, ==_iff, &&_true}
use switchbot_keypad_bridge.Common.Int.{ℤ, pos, negsuc}
use switchbot_keypad_bridge.Common.Lists.{length, All, take, get_or}

abbrev pub Bytes : Type 0
Bytes = List ℕ

abbrev pub IsByte : ℕ → Type 0
IsByte b = b < 256

-- `static_cast<uint8_t>`
abbrev pub u8 : ℕ → ℕ
u8 n = n % 256

-- `uint32_t` wraps.
abbrev pub u32 : ℕ → ℕ
u32 n = n % 2 ^ 32

-- `memcmp(xs, prefix, sizeof(prefix)) == 0`, where `xs` has at least that many bytes.
abbrev pub memcmp_eq : Bytes → Bytes → Bool
memcmp_eq [] xs = true
memcmp_eq (p ∷ ps) [] = false
memcmp_eq (p ∷ ps) (x ∷ xs) = (x == p) && memcmp_eq ps xs

-- `a == b` on two strings
abbrev pub bytes_eq : Bytes → Bytes → Bool
bytes_eq [] [] = true
bytes_eq [] (y ∷ ys) = false
bytes_eq (x ∷ xs) [] = false
bytes_eq (x ∷ xs) (y ∷ ys) = (x == y) && bytes_eq xs ys

pub bytes_eq→≡ : (xs ys : Bytes) → bytes_eq xs ys ≡ true → xs ≡ ys
bytes_eq→≡ [] [] h = refl
bytes_eq→≡ [] (y ∷ ys) h = ground arith
bytes_eq→≡ (x ∷ xs) [] h = ground arith
bytes_eq→≡ (x ∷ xs) (y ∷ ys) h =
    let (e, r) = &&_true (x == y) (bytes_eq xs ys) h in
    ap₂ ◌∷◌ ((==_iff x y).0 e) (bytes_eq→≡ xs ys r)

pub bytes_eq_refl : (xs : Bytes) → bytes_eq xs xs ≡ true
bytes_eq_refl [] = refl
bytes_eq_refl (x ∷ xs) = ground (arith, bytes_eq_refl xs)

pub bytes_eq_iff : (xs ys : Bytes) → (bytes_eq xs ys ≡ true) ↔ (xs ≡ ys)
bytes_eq_iff xs ys =
    (bytes_eq→≡ xs ys, λ e. subst (λ zs. bytes_eq xs zs ≡ true) e (bytes_eq_refl xs))

pub memcmp_eq-append : (ps xs : Bytes) → memcmp_eq ps (ps ++ xs) ≡ true
memcmp_eq-append [] xs = refl
memcmp_eq-append (p ∷ ps) xs = ground (arith, memcmp_eq-append ps xs)

pub memcmp_eq→take : (ps xs : Bytes) → memcmp_eq ps xs ≡ true → take (length ps) xs ≡ ps
memcmp_eq→take [] xs h = refl
memcmp_eq→take (p ∷ ps) [] h = ground arith
memcmp_eq→take (p ∷ ps) (x ∷ xs) h =
    let (e, r) = &&_true (x == p) (memcmp_eq ps xs) h in
    ap₂ ◌∷◌ ((==_iff x p).0 e) (memcmp_eq→take ps xs r)

-- The four bytes of a `uint32_t` in memory on the (little-endian) ESP32.
abbrev pub le_bytes : ℕ → Bytes
le_bytes w = u8 w ∷ u8 (w / 2 ^ 8) ∷ u8 (w / 2 ^ 16) ∷ u8 (w / 2 ^ 24) ∷ []

pub length-le_bytes : (w : ℕ) → length (le_bytes w) ≡ 4
length-le_bytes w = refl

pub le_bytes-IsByte : (w : ℕ) → All IsByte (le_bytes w)
le_bytes-IsByte w = omega arith

-- The bytes of an ASCII string literal.
abbrev pub text : String → Bytes
text String.[] = []
text (String.◌∷◌ c s) = code c ∷ text s

-- What a successful `memcmp` against a prefix says of the bytes.
pub memcmp_eq→append : (ps xs : Bytes) → memcmp_eq ps xs ≡ true → (rest : Bytes) × (xs ≡ ps ++ rest)
memcmp_eq→append [] xs h = (xs, refl)
memcmp_eq→append (p ∷ ps) [] h = ground arith
memcmp_eq→append (p ∷ ps) (x ∷ xs) h =
    let (e, r) = &&_true (x == p) (memcmp_eq ps xs) h in
    let (rest, q) = memcmp_eq→append ps xs r in (rest, ap₂ ◌∷◌ ((==_iff x p).0 e) q)

pub get_or-IsByte : (xs : Bytes) (i : ℕ) → All IsByte xs → IsByte (get_or xs i 0)
get_or-IsByte [] i h = omega arith
get_or-IsByte (x ∷ xs) zero h = h.0
get_or-IsByte (x ∷ xs) (suc i) h = get_or-IsByte xs i h.1

-- The decimal digits of a number, before a text. The fuel is the number itself plus one, which is more than
-- its digits.
unfoldable pub decimal : ℕ → ℕ → Bytes → Bytes
decimal zero n acc = acc
decimal (suc f) n acc =
    let rest = decimal f (n / 10) ((b'0' + n % 10) ∷ acc) in
    if ltb n 10 then (b'0' + n) ∷ acc else rest

-- "%lu"
unfoldable pub unsigned_text : ℕ → Bytes
unfolding decimal
unsigned_text n = decimal (suc n) n []

-- "%d"
unfoldable pub show_int : ℤ → Bytes
unfolding unsigned_text
show_int (pos n) = unsigned_text n
show_int (negsuc n) = b'-' ∷ unsigned_text (suc n)

-- Two lower-case hexadecimal digits for each byte.
abbrev pub hex_char_lower : ℕ → ℕ
hex_char_lower d = if ltb d 10 then b'0' + d else b'a' + (d - 10)

unfoldable pub hex_text : Bytes → Bytes
hex_text [] = []
hex_text (b ∷ bs) = hex_char_lower (b / 16) ∷ hex_char_lower (b % 16) ∷ hex_text bs
