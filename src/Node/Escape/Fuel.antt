-- ===== src/Node/Escape/Fuel.antt =====
-- The rounds of the loop of `unescape_filename` of crates/core/src/backend/node.rs.
use rustic_core.Base.{
  ℕ, zero, suc, ◌≡◌, ◌≤◌, ◌<◌, Option, none, some, List, [], ◌∷◌, length, ap, refl, arith, inl,
  ◌==◌, if◌then◌else◌,
}
use rustic_core.Node.Utf8.{encode_utf8}
use rustic_core.Node.Escape.{
  NodeResult, parsing_hex_failed, parsing_unicode_failed, invalid_unicode, unrecognized_escape,
  take_chars, from_hex, from_u32, byte_of, then_bytes, hex, unicode, escaped, unescape_loop,
}

pub length-take_chars : (n : ℕ) (cs : List ℕ) → length (take_chars n cs).1 ≤ length cs
unfolding take_chars
length-take_chars zero cs = omega arith
length-take_chars (suc n) [] = length-take_chars n []
length-take_chars (suc n) (c ∷ cs) = omega (arith, length-take_chars n cs)

-- Two continuations that agree on the lists that are not longer give the same.
module _ (k l : List ℕ → NodeResult) where
  abbrev Agree : List ℕ → Type 0
  Agree cs = (r : List ℕ) → length r ≤ length cs → k r ≡ l r

  hex-Agree : (cs : List ℕ) → Agree cs → hex k cs ≡ hex l cs
  unfolding hex
  hex-Agree cs a =
      ap
        (λ x. elim (from_hex (take_chars 2 cs).0) [
          | none ↦ inl parsing_hex_failed
          | some b ↦ then_bytes (b ∷ []) x
        ])
        (a (take_chars 2 cs).1 (length-take_chars 2 cs))

  unicode-Agree : (n : ℕ) (cs : List ℕ) → Agree cs → unicode n k cs ≡ unicode n l cs
  unfolding unicode
  unicode-Agree n cs a =
      ap
        (λ x. elim (from_hex (take_chars n cs).0) [
          | none ↦ inl parsing_unicode_failed
          | some v ↦ elim (from_u32 v) [
            | none ↦ inl invalid_unicode
            | some c ↦ then_bytes (encode_utf8 c) x
          ]
        ])
        (a (take_chars n cs).1 (length-take_chars n cs))

  escaped-Agree :
      (cs : List ℕ)
      → ((r : List ℕ) → length r < length cs → k r ≡ l r)
      → escaped k cs ≡ escaped l cs
  unfolding escaped
  escaped-Agree [] a = refl
  escaped-Agree (c ∷ cs) a = go (byte_of c)
    where
      b : Agree cs
      b r h = a r (omega arith)

      go :
          (o : Option ℕ)
          → elim o [
            | some b ↦ then_bytes (b ∷ []) (k cs)
            | none ↦
                if c == b'x'
                then hex k cs
                else if c == b'u'
                then unicode 4 k cs
                else if c == b'U'
                then unicode 8 k cs
                else inl unrecognized_escape
          ]
            ≡ elim o [
              | some b ↦ then_bytes (b ∷ []) (l cs)
              | none ↦
                  if c == b'x'
                  then hex l cs
                  else if c == b'u'
                  then unicode 4 l cs
                  else if c == b'U'
                  then unicode 8 l cs
                  else inl unrecognized_escape
            ]
      go none = cc (hex-Agree cs b, unicode-Agree 4 cs b, unicode-Agree 8 cs b)
      go (some x) = ap (then_bytes (x ∷ [])) (b cs (omega arith))

pub unescape_loop-fuel :
    (n m : ℕ) (s : List ℕ) → length s ≤ n → length s ≤ m → unescape_loop n s ≡ unescape_loop m s
unfolding unescape_loop
unescape_loop-fuel n m [] h k = refl
unescape_loop-fuel zero m (c ∷ cs) h k = absurd (omega arith)
unescape_loop-fuel (suc n) zero (c ∷ cs) h k = absurd (omega arith)
unescape_loop-fuel (suc n) (suc m) (c ∷ cs) h k = cc (
  unescape_loop-fuel n m cs (omega arith) (omega arith),
  escaped-Agree (unescape_loop n) (unescape_loop m) cs
      (λ r i. unescape_loop-fuel n m r (omega arith) (omega arith)),
)
