-- ===== src/Node/Escape/Plain.antt =====
-- The names that `escape_filename` of crates/core/src/backend/node.rs leaves as they are.
use rustic_core.Base.{
  ℕ, ◌≡◌, ◌≢◌, ◌≤◌, ◌<◌, ◌⊎◌, ◌↔◌, none, some, List, [], ◌∷◌, ◌++◌, length, length-append, All,
  refl, ap, ◌∙◌, sym, arith, inl, inr, Option-cases,
}
use rustic_core.Node.Utf8.{as_bytes}
use rustic_core.Node.Utf8.Write.{IsChar, from_utf8-as_bytes}
use rustic_core.Node.Escape.{letter_of, push_char, push, escape_loop, escape_filename}

-- No backslash, no quote, and none of the control characters from bell to carriage return.
abbrev pub IsPlain : ℕ → Type 0
IsPlain c = (c ≢ b'\\') × (c ≢ b'"') × ((c < 7) ⊎ (13 < c))

letter_of-IsPlain : (c : ℕ) → IsPlain c → letter_of c ≡ none
unfolding letter_of
letter_of-IsPlain c (h, k, l) = ground arith

IsPlain-letter_of : (c : ℕ) → letter_of c ≡ none → IsPlain c
unfolding letter_of
IsPlain-letter_of c h = ((λ e. ground arith), (λ e. ground arith), ground arith)

push_char-none : (c : ℕ) → letter_of c ≡ none → push_char c ≡ c ∷ []
unfolding push_char
push_char-none c h = rw (h, push_char)

push_char-some : (c l : ℕ) → letter_of c ≡ some l → length (push_char c) ≡ 2
unfolding push_char
push_char-some c l h = rw (h, push_char)

push-IsPlain : (cs : List ℕ) → All IsPlain cs → push cs ≡ cs
unfolding push
push-IsPlain [] h = refl
push-IsPlain (c ∷ cs) h =
    ap (λ l. l ++ push cs) (push_char-none c (letter_of-IsPlain c h.0))
    ∙ ap (λ l. c ∷ l) (push-IsPlain cs h.1)

length-push_char : (c : ℕ) → 1 ≤ length (push_char c)
length-push_char c = elim (Option-cases (letter_of c)) [
  | inl e ↦ omega (arith, ap length (push_char-none c e))
  | inr (l, e) ↦ omega (arith, push_char-some c l e)
]

length-push : (cs : List ℕ) → length cs ≤ length (push cs)
unfolding push
length-push [] = omega arith
length-push (c ∷ cs) =
    omega (arith, length-append (push_char c) (push cs), length-push_char c, length-push cs)

-- A string that does not grow is plain.
IsPlain-push : (cs : List ℕ) → length (push cs) ≡ length cs → All IsPlain cs
unfolding push
IsPlain-push [] h = tt
IsPlain-push (c ∷ cs) h = elim (Option-cases (letter_of c)) [
  | inl e ↦ (
    IsPlain-letter_of c e,
    IsPlain-push cs
        (omega (arith, length-append (push_char c) (push cs), ap length (push_char-none c e))),
  )
  | inr (l, e) ↦
      absurd
        (omega (arith, length-append (push_char c) (push cs), push_char-some c l e, length-push cs))
]

escape_filename-push : (cs : List ℕ) → All IsChar cs → escape_filename (as_bytes cs) ≡ push cs
unfolding escape_filename escape_loop
escape_filename-push cs a = rw (from_utf8-as_bytes cs a, escape_loop)

-- A name that is valid UTF-8 is stored as it is exactly if it has no backslash, no quote, and none of the
-- control characters from bell (7) to carriage return (13).
pub escape_filename-as_bytes :
    (cs : List ℕ) → All IsChar cs → (escape_filename (as_bytes cs) ≡ cs) ↔ All IsPlain cs
escape_filename-as_bytes cs a = (
  (λ e. IsPlain-push cs (ap length (sym (escape_filename-push cs a) ∙ e))),
  (λ h. escape_filename-push cs a ∙ push-IsPlain cs h),
)
