-- ===== src/Node/Utf8.antt =====
-- UTF-8 as the standard library of the language reads and writes it, for escape_filename and
-- unescape_filename of crates/core/src/backend/node.rs. A character is its code.
pub mod Read
pub mod Write
use rustic_core.Base.{
  ℕ, zero, suc, ◌+◌, ◌*◌, ◌/◌, ◌%◌, Bool, ◌&&◌, Option, none, some, List, [], ◌∷◌, ◌++◌, ltb, leb,
  ◌==◌, if◌then◌else◌, length,
}

-- `char::encode_utf8`
unfoldable pub encode_utf8 : ℕ → List ℕ
encode_utf8 c =
    if ltb c 128
    then c ∷ []
    else if ltb c 2048
    then (192 + c / 64) ∷ (128 + c % 64) ∷ []
    else if ltb c 65536
    then (224 + c / 4096) ∷ (128 + c / 64 % 64) ∷ (128 + c % 64) ∷ []
    else (240 + c / 262144) ∷ (128 + c / 4096 % 64) ∷ (128 + c / 64 % 64) ∷ (128 + c % 64) ∷ []

-- The bytes of a string.
unfoldable pub as_bytes : List ℕ → List ℕ
as_bytes [] = []
as_bytes (c ∷ cs) = encode_utf8 c ++ as_bytes cs

-- What stands at the front of bytes: a character before the rest, some bytes that are no character,
-- or the begin of one where the input ends.
pub data Front : Type 0 where
  char : ℕ → List ℕ → Front
  invalid : ℕ → Front
  cut_off : Front

between : ℕ → ℕ → ℕ → Bool
between low high b = leb low b && leb b high

-- The first two bytes of a character with three or four.
second_of_3 : ℕ → ℕ → Bool
second_of_3 a b =
    if a == 224
    then between 160 191 b
    else if a == 237
    then between 128 159 b
    else between 128 191 b

second_of_4 : ℕ → ℕ → Bool
second_of_4 a b =
    if a == 240
    then between 144 191 b
    else if a == 244
    then between 128 143 b
    else between 128 191 b

front_2 : ℕ → List ℕ → Front
front_2 a [] = cut_off
front_2 a (b ∷ bs) = if between 128 191 b then char (a % 32 * 64 + b % 64) bs else invalid 1

third_of_3 : ℕ → ℕ → List ℕ → Front
third_of_3 a b [] = cut_off
third_of_3 a b (c ∷ bs) =
    if between 128 191 c then char (a % 16 * 4096 + b % 64 * 64 + c % 64) bs else invalid 2

front_3 : ℕ → List ℕ → Front
front_3 a [] = cut_off
front_3 a (b ∷ bs) = if second_of_3 a b then third_of_3 a b bs else invalid 1

fourth_of_4 : ℕ → ℕ → ℕ → List ℕ → Front
fourth_of_4 a b c [] = cut_off
fourth_of_4 a b c (d ∷ bs) =
    if between 128 191 d
    then char (a % 8 * 262144 + b % 64 * 4096 + c % 64 * 64 + d % 64) bs
    else invalid 3

third_of_4 : ℕ → ℕ → List ℕ → Front
third_of_4 a b [] = cut_off
third_of_4 a b (c ∷ bs) = if between 128 191 c then fourth_of_4 a b c bs else invalid 2

front_4 : ℕ → List ℕ → Front
front_4 a [] = cut_off
front_4 a (b ∷ bs) = if second_of_4 a b then third_of_4 a b bs else invalid 1

unfoldable pub front : ℕ → List ℕ → Front
unfolding front_2 front_3 front_4 third_of_3 third_of_4 fourth_of_4 second_of_3 second_of_4 between
front a bs =
    if ltb a 128
    then char a bs
    else if between 194 223 a
    then front_2 a bs
    else if between 224 239 a
    then front_3 a bs
    else if between 240 244 a
    then front_4 a bs
    else invalid 1

-- The characters of the bytes, or a `Utf8Error`: the characters before it, its `error_len`, and the bytes
-- after those characters.
pub data Decoded : Type 0 where
  valid : List ℕ → Decoded
  error : List ℕ → Option ℕ → List ℕ → Decoded

before : ℕ → Decoded → Decoded
before c (valid cs) = valid (c ∷ cs)
before c (error cs n rest) = error (c ∷ cs) n rest

-- Each round reads at least one byte.
read_chars : ℕ → List ℕ → Decoded
read_chars fuel [] = valid []
read_chars zero (b ∷ bs) = error [] none (b ∷ bs)
read_chars (suc fuel) (b ∷ bs) = elim (front b bs) [
  | char c rest ↦ before c (read_chars fuel rest)
  | invalid n ↦ error [] (some n) (b ∷ bs)
  | cut_off ↦ error [] none (b ∷ bs)
]

-- `std::str::from_utf8`
unfoldable pub from_utf8 : List ℕ → Decoded
unfolding read_chars before
from_utf8 bs = read_chars (length bs) bs
