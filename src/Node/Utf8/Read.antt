-- ===== src/Node/Utf8/Read.antt =====
-- Reading bytes as UTF-8, for `escape_filename` of crates/core/src/backend/node.rs.
use mathlib.Core.List.{append_assoc}
use rustic_core.Base.{
  ℕ, ◌+◌, ◌*◌, ◌%◌, ◌≡◌, true, [], ◌∷◌, arith, List, ltb, Bool-cases, length, inl, ◌≤◌, ◌++◌, ap,
  inr, suc, some, ◌∙◌, none, refl, zero,
}
use rustic_core.Node.Utf8.{
  encode_utf8, second_of_3, second_of_4, between, fourth_of_4, third_of_4, third_of_3, front_4,
  front_3, front_2, front, before, read_chars, from_utf8, Front, Decoded, as_bytes, char, valid,
  invalid, error, cut_off,
}

encode_2 :
    (a b : ℕ)
    → between 194 223 a ≡ true
    → between 128 191 b ≡ true
    → encode_utf8 (a % 32 * 64 + b % 64) ≡ a ∷ b ∷ []
unfolding encode_utf8 between
encode_2 a b h k = ground arith

encode_3 :
    (a b c : ℕ)
    → between 224 239 a ≡ true
    → second_of_3 a b ≡ true
    → between 128 191 c ≡ true
    → encode_utf8 (a % 16 * 4096 + b % 64 * 64 + c % 64) ≡ a ∷ b ∷ c ∷ []
unfolding encode_utf8 between second_of_3
encode_3 a b c h k l = ground arith

encode_4 :
    (a b c d : ℕ)
    → between 240 244 a ≡ true
    → second_of_4 a b ≡ true
    → between 128 191 c ≡ true
    → between 128 191 d ≡ true
    → encode_utf8 (a % 8 * 262144 + b % 64 * 4096 + c % 64 * 64 + d % 64) ≡ a ∷ b ∷ c ∷ d ∷ []
unfolding encode_utf8 between second_of_4
encode_4 a b c d h k l m = ground arith

-- What is found at the front of the bytes.
abbrev Reads : ℕ → List ℕ → Front → Type 0
Reads a bs (char c rest) = (encode_utf8 c ++ rest ≡ a ∷ bs) × (length rest ≤ length bs)
Reads a bs (invalid n) = 1 ≤ n
Reads a bs cut_off = Unit

fourth-Reads :
    (a b c : ℕ) (bs : List ℕ)
    → between 240 244 a ≡ true
    → second_of_4 a b ≡ true
    → between 128 191 c ≡ true
    → Reads a (b ∷ c ∷ bs) (fourth_of_4 a b c bs)
unfolding fourth_of_4
fourth-Reads a b c [] h k l = tt
fourth-Reads a b c (d ∷ bs) h k l = elim (Bool-cases (between 128 191 d)) [
  | inl m ↦ rw m (ap (λ l. l ++ bs) (encode_4 a b c d h k l m), omega arith)
  | inr m ↦ rw m (omega arith)
]

third_of_4-Reads :
    (a b : ℕ) (bs : List ℕ)
    → between 240 244 a ≡ true
    → second_of_4 a b ≡ true
    → Reads a (b ∷ bs) (third_of_4 a b bs)
unfolding third_of_4
third_of_4-Reads a b [] h k = tt
third_of_4-Reads a b (c ∷ bs) h k = elim (Bool-cases (between 128 191 c)) [
  | inl m ↦ rw m (fourth-Reads a b c bs h k m)
  | inr m ↦ rw m (omega arith)
]

third_of_3-Reads :
    (a b : ℕ) (bs : List ℕ)
    → between 224 239 a ≡ true
    → second_of_3 a b ≡ true
    → Reads a (b ∷ bs) (third_of_3 a b bs)
unfolding third_of_3
third_of_3-Reads a b [] h k = tt
third_of_3-Reads a b (c ∷ bs) h k = elim (Bool-cases (between 128 191 c)) [
  | inl m ↦ rw m (ap (λ l. l ++ bs) (encode_3 a b c h k m), omega arith)
  | inr m ↦ rw m (omega arith)
]

front_4-Reads : (a : ℕ) (bs : List ℕ) → between 240 244 a ≡ true → Reads a bs (front_4 a bs)
unfolding front_4
front_4-Reads a [] h = tt
front_4-Reads a (b ∷ bs) h = elim (Bool-cases (second_of_4 a b)) [
  | inl m ↦ rw m (third_of_4-Reads a b bs h m)
  | inr m ↦ rw m (omega arith)
]

front_3-Reads : (a : ℕ) (bs : List ℕ) → between 224 239 a ≡ true → Reads a bs (front_3 a bs)
unfolding front_3
front_3-Reads a [] h = tt
front_3-Reads a (b ∷ bs) h = elim (Bool-cases (second_of_3 a b)) [
  | inl m ↦ rw m (third_of_3-Reads a b bs h m)
  | inr m ↦ rw m (omega arith)
]

front_2-Reads : (a : ℕ) (bs : List ℕ) → between 194 223 a ≡ true → Reads a bs (front_2 a bs)
unfolding front_2
front_2-Reads a [] h = tt
front_2-Reads a (b ∷ bs) h = elim (Bool-cases (between 128 191 b)) [
  | inl m ↦ rw m (ap (λ l. l ++ bs) (encode_2 a b h m), omega arith)
  | inr m ↦ rw m (omega arith)
]

encode_1 : (a : ℕ) → ltb a 128 ≡ true → encode_utf8 a ≡ a ∷ []
unfolding encode_utf8
encode_1 a h = rw h

front-Reads : (a : ℕ) (bs : List ℕ) → Reads a bs (front a bs)
unfolding front
front-Reads a bs = elim (Bool-cases (ltb a 128)) [
  | inl h ↦ rw h (ap (λ l. l ++ bs) (encode_1 a h), omega arith)
  | inr h ↦ rw h (elim (Bool-cases (between 194 223 a)) [
    | inl i ↦ rw i (front_2-Reads a bs i)
    | inr i ↦ rw i (elim (Bool-cases (between 224 239 a)) [
      | inl j ↦ rw j (front_3-Reads a bs j)
      | inr j ↦ rw j (elim (Bool-cases (between 240 244 a)) [
        | inl k ↦ rw k (front_4-Reads a bs k)
        | inr k ↦ rw k (omega arith)
      ])
    ])
  ])
]

-- The characters and the bytes after them are the bytes that were read.
abbrev pub Splits : List ℕ → Decoded → Type 0
Splits bs (valid cs) = as_bytes cs ≡ bs
Splits bs (error cs none after) = as_bytes cs ++ after ≡ bs
Splits bs (error cs (some n) after) = (as_bytes cs ++ after ≡ bs) × (1 ≤ n) × (1 ≤ length after)

before-Splits :
    (c : ℕ) (bs rest : List ℕ) (u : Decoded)
    → encode_utf8 c ++ rest ≡ bs
    → Splits rest u
    → Splits bs (before c u)
unfolding before as_bytes
before-Splits c bs rest (valid cs) e h = ap (λ l. encode_utf8 c ++ l) h ∙ e
before-Splits c bs rest (error cs none after) e h =
    append_assoc (encode_utf8 c) (as_bytes cs) after ∙ ap (λ l. encode_utf8 c ++ l) h ∙ e
before-Splits c bs rest (error cs (some n) after) e (h, k, l) =
    (append_assoc (encode_utf8 c) (as_bytes cs) after ∙ ap (λ l. encode_utf8 c ++ l) h ∙ e, k, l)

read_chars-Splits : (fuel : ℕ) (bs : List ℕ) → length bs ≤ fuel → Splits bs (read_chars fuel bs)
unfolding read_chars as_bytes
read_chars-Splits fuel [] h = refl
read_chars-Splits zero (b ∷ bs) h = refl
read_chars-Splits (suc fuel) (b ∷ bs) h =
    go (λ rest k. read_chars-Splits fuel rest k) (front b bs) (front-Reads b bs)
  where
    go :
        ((rest : List ℕ) → length rest ≤ fuel → Splits rest (read_chars fuel rest))
        → (f : Front) → Reads b bs f
        → Splits (b ∷ bs) (elim f [
          | char c rest ↦ before c (read_chars fuel rest)
          | invalid n ↦ error [] (some n) (b ∷ bs)
          | cut_off ↦ error [] none (b ∷ bs)
        ])
    go ih (char c rest) (e, k) =
        before-Splits c (b ∷ bs) rest (read_chars fuel rest) e (ih rest (omega arith))
    go ih (invalid n) k = (refl, k, omega arith)
    go ih cut_off k = refl

pub from_utf8-Splits : (bs : List ℕ) → Splits bs (from_utf8 bs)
unfolding from_utf8
from_utf8-Splits bs = read_chars-Splits (length bs) bs (omega arith)
