-- ===== src/PackFile/Bytes.antt =====
-- Numbers as bytes, in both orders.
use native.Mathlib.Nat.{pow-suc}
use rustic_core.Base.{
  ℕ, zero, suc, ◌+◌, ◌*◌, ◌/◌, ◌%◌, ◌^◌, ◌<◌, ◌≡◌, refl, ap, ◌∙◌, Option, none, some, List, [], ◌∷◌,
  ◌++◌, length, arith,
}

-- The lowest `n` bytes, lowest first.
unfoldable pub le_bytes : ℕ → ℕ → List ℕ
le_bytes zero x = []
le_bytes (suc n) x = (x % 256) ∷ le_bytes n (x / 256)

unfoldable pub read_le : ℕ → List ℕ → Option (ℕ × List ℕ)
read_le zero bs = some (0, bs)
read_le (suc n) [] = none
read_le (suc n) (b ∷ bs) = elim (read_le n bs) [
  | none ↦ none
  | some (v, rest) ↦ some (b + 256 * v, rest)
]

-- The lowest `n` bytes, highest first, before `rest`.
unfoldable pub be_bytes : ℕ → ℕ → List ℕ → List ℕ
be_bytes zero x rest = rest
be_bytes (suc n) x rest = be_bytes n (x / 256) ((x % 256) ∷ rest)

unfoldable pub read_be : ℕ → ℕ → List ℕ → Option (ℕ × List ℕ)
read_be zero acc bs = some (acc, bs)
read_be (suc n) acc [] = none
read_be (suc n) acc (b ∷ bs) = read_be n (acc * 256 + b) bs

div-below : (n x : ℕ) → x < 256 ^ suc n → x / 256 < 256 ^ n
div-below n x h = let p : x < 256 ^ n * 256 = rw (pow-suc 256 n) at h in omega arith

pub read_le-le_bytes :
    (n x : ℕ) (rest : List ℕ) → x < 256 ^ n → read_le n (le_bytes n x ++ rest) ≡ some (x, rest)
unfolding read_le le_bytes
read_le-le_bytes zero x rest h = let e : 0 ≡ x = omega arith in ap (λ v. some (v, rest)) e
read_le-le_bytes (suc n) x rest h =
    rw (read_le-le_bytes n (x / 256) rest (div-below n x h), read_le)
      (ap (λ v. some (v, rest)) (omega arith))

pub length-le_bytes : (n x : ℕ) → length (le_bytes n x) ≡ n
unfolding le_bytes
length-le_bytes zero x = refl
length-le_bytes (suc n) x = ap suc (length-le_bytes n (x / 256))

pub length-be_bytes : (n x : ℕ) (rest : List ℕ) → length (be_bytes n x rest) ≡ n + length rest
unfolding be_bytes
length-be_bytes zero x rest = omega arith
length-be_bytes (suc n) x rest = omega (arith, length-be_bytes n (x / 256) ((x % 256) ∷ rest))

-- The last byte that is read.
last_byte : Option (ℕ × List ℕ) → Option (ℕ × List ℕ)
last_byte none = none
last_byte (some (v, [])) = none
last_byte (some (v, b ∷ bs)) = some (v * 256 + b, bs)

read_be-suc : (n acc : ℕ) (bs : List ℕ) → read_be (suc n) acc bs ≡ last_byte (read_be n acc bs)
unfolding read_be last_byte
read_be-suc zero acc [] = refl
read_be-suc zero acc (b ∷ bs) = refl
read_be-suc (suc n) acc [] = refl
read_be-suc (suc n) acc (b ∷ bs) = read_be-suc n (acc * 256 + b) bs

pub read_be-be_bytes :
    (n x : ℕ) (rest : List ℕ) → x < 256 ^ n → read_be n 0 (be_bytes n x rest) ≡ some (x, rest)
unfolding be_bytes
read_be-be_bytes zero x rest h =
    let e : 0 ≡ x = omega arith in unfold read_be in ap (λ v. some (v, rest)) e
read_be-be_bytes (suc n) x rest h =
    read_be-suc n 0 (be_bytes n (x / 256) ((x % 256) ∷ rest))
    ∙ ap last_byte (read_be-be_bytes n (x / 256) ((x % 256) ∷ rest) (div-below n x h))
    ∙ last (x / 256) (x % 256)
    ∙ ap (λ v. some (v, rest)) (omega arith)
  where
    last : (v b : ℕ) → last_byte (some (v, b ∷ rest)) ≡ some (v * 256 + b, rest)
    last v b = unfold last_byte in refl

pub be_bytes-append :
    (n x : ℕ) (r rest : List ℕ) → be_bytes n x r ++ rest ≡ be_bytes n x (r ++ rest)
unfolding be_bytes
be_bytes-append zero x r rest = refl
be_bytes-append (suc n) x r rest = be_bytes-append n (x / 256) ((x % 256) ∷ r) rest
