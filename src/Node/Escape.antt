-- ===== src/Node/Escape.antt =====
-- `escape_filename` and `unescape_filename` of crates/core/src/backend/node.rs, those that are not for
-- Windows. A name is its bytes, a string the codes of its characters.
pub mod Fuel
pub mod RoundTrip
pub mod Plain
use rustic_core.Base.{
  ℕ, zero, suc, ◌/◌, ◌%◌, ◌==◌, ◌&&◌, ◌||◌, leb, any, Option, none, some, List, [], ◌∷◌, ◌++◌,
  if◌then◌else◌, length, take, drop, ◌⊎◌, inl, inr, ◌*◌, ◌+◌,
}
use rustic_core.Config.Poly.{hex_digit, digit_of}
use rustic_core.Node.Utf8.{encode_utf8, as_bytes, valid, error, from_utf8}

-- `NodeErrorKind`, without the strings.
pub data NodeErrorKind : Type 0 where
  unexpected_eof invalid_unicode unrecognized_escape parsing_hex_failed parsing_unicode_failed :
      NodeErrorKind

abbrev pub NodeResult : Type 0
NodeResult = NodeErrorKind ⊎ List ℕ

-- The letter after the backslash of a character that is escaped.
unfoldable pub letter_of : ℕ → Option ℕ
letter_of c =
    if c == b'\\'
    then some b'\\'
    else if c == b'"'
    then some b'"'
    else if c == 7
    then some b'a'
    else if c == 8
    then some b'b'
    else if c == 12
    then some b'f'
    else if c == 10
    then some b'n'
    else if c == 13
    then some b'r'
    else if c == 9
    then some b't'
    else if c == 11
    then some b'v'
    else none

unfoldable pub push_char : ℕ → List ℕ
unfolding letter_of
push_char c = elim (letter_of c) [ none ↦ c ∷ [] | some l ↦ b'\\' ∷ l ∷ [] ]

unfoldable pub push : List ℕ → List ℕ
unfolding push_char
push [] = []
push (c ∷ cs) = push_char c ++ push cs

-- `\x{b:02x}`
unfoldable pub hex_of : ℕ → List ℕ
hex_of b = b'\\' ∷ b'x' ∷ hex_digit (b / 16) ∷ hex_digit (b % 16) ∷ []

unfoldable pub push_bytes : List ℕ → List ℕ
unfolding hex_of
push_bytes [] = []
push_bytes (b ∷ bs) = hex_of b ++ push_bytes bs

-- The loop of `escape_filename`. Each round after the first one has less input.
escape_loop : ℕ → List ℕ → List ℕ
escape_loop zero input = []
escape_loop (suc fuel) input = elim (from_utf8 input) [
  | valid cs ↦ push cs
  | error cs n after ↦ push cs ++ elim n [
    | none ↦ push_bytes after
    | some len ↦ push_bytes (take len after) ++ escape_loop fuel (drop len after)
  ]
]

unfoldable pub escape_filename : List ℕ → List ℕ
unfolding escape_loop
escape_filename name = escape_loop (suc (length name)) name

-- The byte that a letter after a backslash stands for.
unfoldable pub byte_of : ℕ → Option ℕ
byte_of c =
    if (c == b'\\' || c == b'"') || (c == b'\'' || c == b'`')
    then some c
    else if c == b'a'
    then some 7
    else if c == b'b'
    then some 8
    else if c == b'f'
    then some 12
    else if c == b'n'
    then some 10
    else if c == b'r'
    then some 13
    else if c == b't'
    then some 9
    else if c == b'v'
    then some 11
    else none

-- `take`: some characters, filled up with NUL, and the rest.
unfoldable pub take_chars : ℕ → List ℕ → List ℕ × List ℕ
take_chars zero cs = ([], cs)
take_chars (suc n) [] = let r = take_chars n [] in (0 ∷ r.0, r.1)
take_chars (suc n) (c ∷ cs) = let r = take_chars n cs in (c ∷ r.0, r.1)

from_digits : ℕ → List ℕ → Option ℕ
from_digits acc [] = some acc
from_digits acc (c ∷ cs) = elim (digit_of c) [
  | none ↦ none
  | some d ↦ from_digits (acc * 16 + d) cs
]

-- `from_str_radix` with the radix 16, of so few digits that none overflows. One leading `+` is allowed.
unfoldable pub from_hex : List ℕ → Option ℕ
unfolding from_digits
from_hex [] = none
from_hex (c ∷ []) = if c == b'+' then none else from_digits 0 (c ∷ [])
from_hex (c ∷ d ∷ cs) = if c == b'+' then from_digits 0 (d ∷ cs) else from_digits 0 (c ∷ d ∷ cs)

-- `char::from_u32`
unfoldable pub from_u32 : ℕ → Option ℕ
from_u32 n = if leb 1114112 n || (leb 55296 n && leb n 57343) then none else some n

-- The bytes before those that the rest of the loop gives.
abbrev pub then_bytes : List ℕ → NodeResult → NodeResult
then_bytes bs (inl e) = inl e
then_bytes bs (inr more) = inr (bs ++ more)

-- `\x`
hex : (List ℕ → NodeResult) → List ℕ → NodeResult
hex rest cs = elim (from_hex (take_chars 2 cs).0) [
  | none ↦ inl parsing_hex_failed
  | some b ↦ then_bytes (b ∷ []) (rest (take_chars 2 cs).1)
]

-- `\u` and `\U`
unicode : ℕ → (List ℕ → NodeResult) → List ℕ → NodeResult
unicode n rest cs = elim (from_hex (take_chars n cs).0) [
  | none ↦ inl parsing_unicode_failed
  | some v ↦ elim (from_u32 v) [
    | none ↦ inl invalid_unicode
    | some c ↦ then_bytes (encode_utf8 c) (rest (take_chars n cs).1)
  ]
]

-- What is done after a backslash; `rest` is the rest of the loop.
escaped : (List ℕ → NodeResult) → List ℕ → NodeResult
escaped rest [] = inl unexpected_eof
escaped rest (c ∷ cs) = elim (byte_of c) [
  | some b ↦ then_bytes (b ∷ []) (rest cs)
  | none ↦
      if c == b'x'
      then hex rest cs
      else if c == b'u'
      then unicode 4 rest cs
      else if c == b'U'
      then unicode 8 rest cs
      else inl unrecognized_escape
]

-- The loop of `unescape_filename`. Each round reads at least one character.
unfoldable pub unescape_loop : ℕ → List ℕ → NodeResult
unfolding escaped hex unicode
unescape_loop fuel [] = inr []
unescape_loop zero (c ∷ cs) = inl unexpected_eof
unescape_loop (suc fuel) (c ∷ cs) =
    if c == b'\\'
    then escaped (unescape_loop fuel) cs
    else then_bytes (encode_utf8 c) (unescape_loop fuel cs)

unfoldable pub unescape_filename : List ℕ → NodeResult
unfolding unescape_loop
unescape_filename s =
    if any (λ c. c == b'\\') s then unescape_loop (length s) s else inr (as_bytes s)
