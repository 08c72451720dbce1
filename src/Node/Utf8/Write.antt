-- ===== src/Node/Utf8/Write.antt =====
-- Writing characters as UTF-8, for `escape_filename` of crates/core/src/backend/node.rs.
use rustic_core.Base.{
  ℕ, ◌+◌, ◌/◌, ◌%◌, ◌≡◌, ◌≤◌, ◌<◌, ◌⊎◌, List, ◌∷◌, arith, ltb, true, suc, length, All, ◌++◌,
  Bool-cases, length-append, inl, ◌∙◌, inr, ap, [], refl, zero,
}
use rustic_core.Node.Utf8.{
  char, front, front_2, front_3, front_4, third_of_3, third_of_4, fourth_of_4, second_of_3,
  second_of_4, between, read_chars, encode_utf8, as_bytes, from_utf8, before, valid,
}

-- The code of a character is no surrogate.
abbrev pub IsChar : ℕ → Type 0
IsChar c = (c < 55296) ⊎ ((57343 < c) × (c < 1114112))

front-encode_1 : (c : ℕ) (rest : List ℕ) → ltb c 128 ≡ true → front c rest ≡ char c rest
unfolding front
front-encode_1 c rest h = rw h

front-encode_2 :
    (c : ℕ) (rest : List ℕ)
    → 128 ≤ c
    → c < 2048
    → front (192 + c / 64) ((128 + c % 64) ∷ rest) ≡ char c rest
unfolding front front_2 between
front-encode_2 c rest h k = ground arith

front-encode_3 :
    (c : ℕ) (rest : List ℕ)
    → 2048 ≤ c
    → c < 65536
    → IsChar c
    → front (224 + c / 4096) ((128 + c / 64 % 64) ∷ (128 + c % 64) ∷ rest) ≡ char c rest
unfolding front front_3 between second_of_3 third_of_3
front-encode_3 c rest h k i = ground arith

front-encode_4 :
    (c : ℕ) (rest : List ℕ)
    → 65536 ≤ c
    → c < 1114112
    → front (240 + c / 262144) ((128 + c / 4096 % 64) ∷ (128 + c / 64 % 64) ∷ (128 + c % 64) ∷ rest)
      ≡ char c rest
unfolding front front_4 between second_of_4 third_of_4 fourth_of_4
front-encode_4 c rest h k = ground arith

module _ (fuel c : ℕ) (rest : List ℕ) where
  read_front :
      (a : ℕ) (bs : List ℕ)
      → front a bs ≡ char c rest
      → read_chars (suc fuel) (a ∷ bs) ≡ before c (read_chars fuel rest)
  unfolding read_chars
  read_front a bs e = rw (e, read_chars)

  read-encode_utf8 :
      IsChar c → read_chars (suc fuel) (encode_utf8 c ++ rest) ≡ before c (read_chars fuel rest)
  unfolding encode_utf8
  read-encode_utf8 i = elim (Bool-cases (ltb c 128)) [
    | inl h ↦ rw h (read_front c rest (front-encode_1 c rest h))
    | inr h ↦ rw h (elim (Bool-cases (ltb c 2048)) [
      | inl j ↦ rw j (read_front _ _ (front-encode_2 c rest (ground arith) (ground arith)))
      | inr j ↦ rw j (elim (Bool-cases (ltb c 65536)) [
        | inl k ↦ rw k (read_front _ _ (front-encode_3 c rest (ground arith) (ground arith) i))
        | inr k ↦ rw k (read_front _ _ (front-encode_4 c rest (ground arith) (ground arith)))
      ])
    ])
  ]

length-encode_utf8 : (c : ℕ) → 1 ≤ length (encode_utf8 c)
unfolding encode_utf8
length-encode_utf8 c = ground arith

read_chars-as_bytes :
    (fuel : ℕ) (cs : List ℕ)
    → All IsChar cs
    → length (as_bytes cs) ≤ fuel
    → read_chars fuel (as_bytes cs) ≡ valid cs
unfolding as_bytes read_chars before
read_chars-as_bytes fuel [] a h = refl
read_chars-as_bytes zero (c ∷ cs) a h =
    absurd (omega (arith, length-append (encode_utf8 c) (as_bytes cs), length-encode_utf8 c))
read_chars-as_bytes (suc fuel) (c ∷ cs) a h =
    read-encode_utf8 fuel c (as_bytes cs) a.0
    ∙ ap (before c) (
        read_chars-as_bytes fuel cs a.1
          (omega (arith, length-append (encode_utf8 c) (as_bytes cs), length-encode_utf8 c)))

-- The bytes of a string are read as its characters.
pub from_utf8-as_bytes : (cs : List ℕ) → All IsChar cs → from_utf8 (as_bytes cs) ≡ valid cs
unfolding from_utf8
from_utf8-as_bytes cs a = read_chars-as_bytes (length (as_bytes cs)) cs a (omega arith)
