-- ===== src/Config/Poly.antt =====
-- The chunker polynomial as text: `format!("{poly:x}")` and `u64::from_str_radix(_, 16)`.
use native.Mathlib.Nat.{pow-suc}
use rustic_core.Base.{
  ℕ, zero, suc, ◌+◌, ◌-◌, ◌*◌, ◌/◌, ◌%◌, ◌^◌, ◌<◌, ◌≡◌, refl, Bool, true, false, ◌&&◌, ◌==◌, List,
  [], ◌∷◌, Option, none, some, ltb, leb, if◌then◌else◌, Result, ok, err, invalid_input, arith, ◌↔◌,
  ◌∙◌, Bool-cases, ap, inl, inr, ltb→lt, subst,
}
use rustic_core.Base.Word.{u64_mod}

-- Equality of two strings.
unfoldable pub eq_codes : List ℕ → List ℕ → Bool
eq_codes [] [] = true
eq_codes (a ∷ as') (b ∷ bs) = a == b && eq_codes as' bs
eq_codes _ _ = false

-- The code of a lower-case hexadecimal digit.
unfoldable pub hex_digit : ℕ → ℕ
hex_digit d = if ltb d 10 then 48 + d else 87 + d

-- The value of a hexadecimal digit of either case.
unfoldable pub digit_of : ℕ → Option ℕ
digit_of c =
    if leb 48 c && leb c 57
    then some (c - 48)
    else if leb 97 c && leb c 102
    then some (c - 87)
    else if leb 65 c && leb c 70
    then some (c - 55)
    else none

-- The digits of `n` before `rest`, in at most `fuel + 1` steps.
hex_onto : ℕ → ℕ → List ℕ → List ℕ
hex_onto zero n rest = hex_digit (n % 16) ∷ rest
hex_onto (suc fuel) n rest =
    let more = hex_onto fuel (n / 16) (hex_digit (n % 16) ∷ rest) in
    if ltb n 16 then hex_digit n ∷ rest else more

-- A `u64` has at most 16 digits.
unfoldable pub hex_of_u64 : ℕ → List ℕ
unfolding hex_onto hex_digit
hex_of_u64 n = hex_onto 15 n []

-- The digits after the first ones, whose value is `acc`; an overflow is an error.
from_digits : ℕ → List ℕ → Result ℕ
from_digits acc [] = ok acc
from_digits acc (c ∷ cs) = elim (digit_of c) [
  | none ↦ err invalid_input
  | some d ↦ if ltb (acc * 16 + d) u64_mod then from_digits (acc * 16 + d) cs else err invalid_input
]

-- One leading `+` is allowed; no digit is an error.
unfoldable pub u64_from_hex : List ℕ → Result ℕ
unfolding from_digits digit_of
u64_from_hex [] = err invalid_input
u64_from_hex (c ∷ []) = if c == 43 then err invalid_input else from_digits 0 (c ∷ [])
u64_from_hex (c ∷ d ∷ cs) = if c == 43 then from_digits 0 (d ∷ cs) else from_digits 0 (c ∷ d ∷ cs)

pub hex_digit-ne-plus : (d : ℕ) → (hex_digit d == 43) ≡ false
unfolding hex_digit
hex_digit-ne-plus d = ground arith

pub digit_of-hex_digit : (d : ℕ) → d < 16 → digit_of (hex_digit d) ≡ some d
unfolding digit_of hex_digit
digit_of-hex_digit d h = ground arith

from_digits-cons :
    (acc d : ℕ) (cs : List ℕ)
    → d < 16
    → acc * 16 + d < u64_mod
    → from_digits acc (hex_digit d ∷ cs) ≡ from_digits (acc * 16 + d) cs
unfolding from_digits
from_digits-cons acc d cs h k = rw (digit_of-hex_digit d h, from_digits) (ground arith)

from_digits-hex_onto :
    (fuel n : ℕ) (rest : List ℕ)
    → n < 16 ^ suc fuel
    → n < u64_mod
    → from_digits 0 (hex_onto fuel n rest) ≡ from_digits n rest
unfolding hex_onto
from_digits-hex_onto zero n rest h k =
    let e : n % 16 ≡ n = omega arith in
    let z : 0 * 16 + n ≡ n = omega arith in
    rw e (from_digits-cons 0 n rest (omega arith) (omega arith) ∙ ap (λ a. from_digits a rest) z)
from_digits-hex_onto (suc fuel) n rest h k = elim (Bool-cases (ltb n 16)) [
  | inl small ↦ rw small (
      from_digits-cons 0 n rest (ltb→lt n 16 small) (omega arith)
      ∙ ap (λ a. from_digits a rest) (omega arith))
  | inr large ↦ rw large (
      from_digits-hex_onto fuel (n / 16) (hex_digit (n % 16) ∷ rest) (below fuel n h) (omega arith)
      ∙ from_digits-cons (n / 16) (n % 16) rest (omega arith) (omega arith)
      ∙ ap (λ a. from_digits a rest) (omega arith))
]
  where
    below : (f m : ℕ) → m < 16 ^ suc (suc f) → m / 16 < 16 ^ suc f
    below f m h' = let p : m < 16 ^ suc f * 16 = rw (pow-suc 16 (suc f)) at h' in omega arith

-- A leading digit is no plus sign.
unsigned :
    (c : ℕ) (cs : List ℕ) → (c == 43) ≡ false → u64_from_hex (c ∷ cs) ≡ from_digits 0 (c ∷ cs)
unfolding u64_from_hex
unsigned c [] h = rw h
unsigned c (d ∷ cs) h = rw h

-- The printed digits begin with a digit.
hex_onto-cons :
    (fuel n : ℕ) (rest : List ℕ)
    → (d : ℕ) × (cs : List ℕ) × (hex_onto fuel n rest ≡ hex_digit d ∷ cs)
unfolding hex_onto
hex_onto-cons zero n rest = (n % 16, rest, refl)
hex_onto-cons (suc fuel) n rest = elim (Bool-cases (ltb n 16)) [
  | inl small ↦ (n, rest, rw small)
  | inr large ↦
      let (d, cs, e) = hex_onto-cons fuel (n / 16) (hex_digit (n % 16) ∷ rest) in
      (d, cs, rw large e)
]

-- Reading back the printed number gives the number.
pub u64_from_hex-hex_of_u64 : (n : ℕ) → n < u64_mod → u64_from_hex (hex_of_u64 n) ≡ ok n
unfolding hex_of_u64
u64_from_hex-hex_of_u64 n h =
    let (d, cs, e) = hex_onto-cons 15 n [] in
    let whole : from_digits 0 (hex_digit d ∷ cs) ≡ ok n =
      subst (λ l. from_digits 0 l ≡ ok n) e (from_digits-hex_onto 15 n [] h h ∙ nil n) in
    rw e (unsigned (hex_digit d) cs (hex_digit-ne-plus d) ∙ whole)
  where
    nil : (a : ℕ) → from_digits a [] ≡ ok a
    nil a = unfold from_digits in refl

pub eq_codes_iff : (a b : List ℕ) → (eq_codes a b ≡ true) ↔ (a ≡ b)
unfolding eq_codes
eq_codes_iff [] [] = ((λ h. refl), (λ h. refl))
eq_codes_iff [] (b ∷ bs) = ((λ h. cc), (λ h. cc))
eq_codes_iff (a ∷ as') [] = ((λ h. cc), (λ h. cc))
eq_codes_iff (a ∷ as') (b ∷ bs) =
    ((λ h. ground (arith, eq_codes_iff as' bs)), (λ h. ground (arith, eq_codes_iff as' bs)))
