-- ===== src/Node/Escape/RoundTrip.antt =====
-- `escape_filename` and `unescape_filename` of crates/core/src/backend/node.rs together.
use mathlib.Core.List.{append_assoc, append-nil}
use rustic_core.Base.{
  ℕ, zero, suc, ◌/◌, ◌%◌, ◌≡◌, ◌<◌, false, Option, none, some, List, [], ◌∷◌, ◌++◌, length, ap, ◌∙◌,
  sym, refl, arith, Bool-cases, inl, inr, ◌==◌, any, All, All-right, subst, take, drop, length-drop,
  length-append, take-drop-id, All-left,
}
use rustic_core.Config.Poly.{hex_digit, digit_of-hex_digit, hex_digit-ne-plus}
use rustic_core.Node.Utf8.{encode_utf8, as_bytes, Decoded, valid, error, from_utf8}
use rustic_core.Node.Utf8.Read.{Splits, from_utf8-Splits}
use rustic_core.Node.Escape.{
  NodeResult, letter_of, push_char, push, hex_of, push_bytes, escape_loop, escape_filename,
  take_chars, from_digits, from_hex, byte_of, then_bytes, hex, escaped, unescape_loop,
  unescape_filename,
}
use rustic_core.Node.Escape.Fuel.{unescape_loop-fuel}

-- The loop with enough fuel.
abbrev unescape : List ℕ → NodeResult
unescape s = unescape_loop (length s) s

then_bytes-append :
    (xs ys : List ℕ) (r : NodeResult) → then_bytes xs (then_bytes ys r) ≡ then_bytes (xs ++ ys) r
then_bytes-append xs ys (inl e) = refl
then_bytes-append xs ys (inr more) = ap inr (sym (append_assoc xs ys more))

then_no_bytes : (r : NodeResult) → then_bytes [] r ≡ r
then_no_bytes (inl e) = refl
then_no_bytes (inr more) = refl

unescape-plain :
    (c : ℕ) (s : List ℕ)
    → (c == b'\\') ≡ false
    → unescape (c ∷ s) ≡ then_bytes (encode_utf8 c) (unescape s)
unfolding unescape_loop
unescape-plain c s h = rw h

unescape-backslash : (s : List ℕ) → unescape (b'\\' ∷ s) ≡ escaped (unescape_loop (length s)) s
unfolding unescape_loop
unescape-backslash s = refl

escaped-letter :
    (k : List ℕ → NodeResult) (l b : ℕ) (s : List ℕ)
    → byte_of l ≡ some b
    → escaped k (l ∷ s) ≡ then_bytes (b ∷ []) (k s)
unfolding escaped
escaped-letter k l b s h = rw (h, escaped)

unescape-letter :
    (l b : ℕ) (s : List ℕ)
    → byte_of l ≡ some b
    → unescape (b'\\' ∷ l ∷ s) ≡ then_bytes (b ∷ []) (unescape s)
unescape-letter l b s h =
    unescape-backslash (l ∷ s)
    ∙ escaped-letter (unescape_loop (suc (length s))) l b s h
    ∙ ap (then_bytes (b ∷ []))
        (unescape_loop-fuel (suc (length s)) (length s) s (omega arith) (omega arith))

byte_of-letter_of : (c l : ℕ) → letter_of c ≡ some l → (byte_of l ≡ some c) × (c < 128)
unfolding byte_of letter_of
byte_of-letter_of c l h = ground arith

letter_of-none : (c : ℕ) → letter_of c ≡ none → (c == b'\\') ≡ false
unfolding letter_of
letter_of-none c h = ground arith

from_hex_digits :
    (b : ℕ) → b < 256 → from_hex (hex_digit (b / 16) ∷ hex_digit (b % 16) ∷ []) ≡ some b
unfolding from_hex from_digits
from_hex_digits b h =
    rw
      (
        hex_digit-ne-plus (b / 16),
        from_digits,
        digit_of-hex_digit (b / 16) (omega arith),
        digit_of-hex_digit (b % 16) (omega arith),
      )
      (ap some (omega arith))

escaped-hex :
    (k : List ℕ → NodeResult) (b : ℕ) (s : List ℕ)
    → b < 256
    → escaped k (b'x' ∷ hex_digit (b / 16) ∷ hex_digit (b % 16) ∷ s) ≡ then_bytes (b ∷ []) (k s)
unfolding escaped hex byte_of take_chars
escaped-hex k b s h = rw (from_hex_digits b h, hex)

unescape-hex_of :
    (b : ℕ) (s : List ℕ) → b < 256 → unescape (hex_of b ++ s) ≡ then_bytes (b ∷ []) (unescape s)
unfolding hex_of
unescape-hex_of b s h =
    unescape-backslash _
    ∙ escaped-hex (unescape_loop (suc (suc (suc (length s))))) b s h
    ∙ ap (then_bytes (b ∷ []))
        (unescape_loop-fuel (suc (suc (suc (length s)))) (length s) s (omega arith) (omega arith))

encode_small : (c : ℕ) → c < 128 → encode_utf8 c ≡ c ∷ []
unfolding encode_utf8
encode_small c h = ground arith

unescape-push_char :
    (c : ℕ) (s : List ℕ) → unescape (push_char c ++ s) ≡ then_bytes (encode_utf8 c) (unescape s)
unfolding push_char
unescape-push_char c s = go (letter_of c) refl
  where
    go :
        (o : Option ℕ)
        → letter_of c ≡ o
        → unescape (elim o [ none ↦ c ∷ [] | some l ↦ b'\\' ∷ l ∷ [] ] ++ s)
          ≡ then_bytes (encode_utf8 c) (unescape s)
    go none e = unescape-plain c s (letter_of-none c e)
    go (some l) e =
        let (h, k) = byte_of-letter_of c l e in
        unescape-letter l c s h ∙ ap (λ x. then_bytes x (unescape s)) (sym (encode_small c k))

unescape-push : (cs s : List ℕ) → unescape (push cs ++ s) ≡ then_bytes (as_bytes cs) (unescape s)
unfolding push as_bytes
unescape-push [] s = sym (then_no_bytes (unescape s))
unescape-push (c ∷ cs) s =
    ap unescape (append_assoc (push_char c) (push cs) s)
    ∙ unescape-push_char c (push cs ++ s)
    ∙ ap (then_bytes (encode_utf8 c)) (unescape-push cs s)
    ∙ then_bytes-append (encode_utf8 c) (as_bytes cs) (unescape s)

unescape-push_bytes :
    (bs s : List ℕ)
    → All (λ b. b < 256) bs
    → unescape (push_bytes bs ++ s) ≡ then_bytes bs (unescape s)
unfolding push_bytes
unescape-push_bytes [] s h = sym (then_no_bytes (unescape s))
unescape-push_bytes (b ∷ bs) s h =
    ap unescape (append_assoc (hex_of b) (push_bytes bs) s)
    ∙ unescape-hex_of b (push_bytes bs ++ s) h.0
    ∙ ap (then_bytes (b ∷ [])) (unescape-push_bytes bs s h.1)
    ∙ then_bytes-append (b ∷ []) bs (unescape s)

no_bytes : unescape [] ≡ inr []
unfolding unescape_loop
no_bytes = refl

unescape-only :
    (bs s : List ℕ) → unescape (s ++ []) ≡ then_bytes bs (unescape []) → unescape s ≡ inr bs
unescape-only bs s e =
    ap unescape (sym (append-nil s)) ∙ e ∙ ap (then_bytes bs) no_bytes ∙ ap inr (append-nil bs)

unescape-escape_loop :
    (fuel : ℕ) (bs : List ℕ)
    → length bs < fuel
    → All (λ b. b < 256) bs
    → unescape (escape_loop fuel bs) ≡ inr bs
unfolding escape_loop
unescape-escape_loop zero bs h a = absurd (omega arith)
unescape-escape_loop (suc fuel) bs h a =
    go (λ rest k b. unescape-escape_loop fuel rest k b) (from_utf8 bs) (from_utf8-Splits bs)
  where
    go :
        ((rest : List ℕ)
          → length rest < fuel
          → All (λ b. b < 256) rest
          → unescape (escape_loop fuel rest) ≡ inr rest)
        → (u : Decoded) → Splits bs u
        → unescape (elim u [
          | valid cs ↦ push cs
          | error cs n after ↦ push cs ++ elim n [
            | none ↦ push_bytes after
            | some len ↦ push_bytes (take len after) ++ escape_loop fuel (drop len after)
          ]
        ])
          ≡ inr bs
    go ih (valid cs) e =
        unescape-only bs (push cs) (unescape-push cs [] ∙ ap (λ x. then_bytes x (unescape [])) e)
    go ih (error cs none after) e =
        let b : All (λ x. x < 256) after =
          All-right (λ x. x < 256) (as_bytes cs) after (subst (All (λ x. x < 256)) (sym e) a) in
        unescape-push cs (push_bytes after)
        ∙ ap (then_bytes (as_bytes cs))
            (unescape-only after (push_bytes after) (unescape-push_bytes after [] b))
        ∙ ap inr e
    go ih (error cs (some n) after) (e, k, l) =
        let b : All (λ x. x < 256) after =
          All-right (λ x. x < 256) (as_bytes cs) after (subst (All (λ x. x < 256)) (sym e) a) in
        let s : take n after ++ drop n after ≡ after = take-drop-id n after in
        let c : All (λ x. x < 256) (take n after ++ drop n after) =
          subst (All (λ x. x < 256)) (sym s) b in
        unescape-push cs _
        ∙ ap (then_bytes (as_bytes cs)) (
            unescape-push_bytes (take n after) (escape_loop fuel (drop n after))
              (All-left (λ x. x < 256) (take n after) (drop n after) c)
            ∙ ap (then_bytes (take n after)) (
                ih (drop n after)
                  (omega
                    (arith, length-drop n after, ap length e, length-append (as_bytes cs) after))
                  (All-right (λ x. x < 256) (take n after) (drop n after) c))
            ∙ ap inr s)
        ∙ ap inr e

-- Without a backslash the loop copies.
unescape-as_bytes : (s : List ℕ) → any (λ c. c == b'\\') s ≡ false → unescape s ≡ inr (as_bytes s)
unfolding as_bytes
unescape-as_bytes [] h = no_bytes
unescape-as_bytes (c ∷ s) h =
    unescape-plain c s (ground arith)
    ∙ ap (then_bytes (encode_utf8 c)) (unescape-as_bytes s (ground arith))

unescape_filename_lem : (s : List ℕ) → unescape_filename s ≡ unescape s
unfolding unescape_filename
unescape_filename_lem s = elim (Bool-cases (any (λ c. c == b'\\') s)) [
  | inl h ↦ rw h refl
  | inr h ↦ rw h (sym (unescape-as_bytes s h))
]

-- Any name, valid as UTF-8 or not, is read back from its escaped form.
pub unescape_filename-escape_filename :
    (name : List ℕ) → All (λ b. b < 256) name → unescape_filename (escape_filename name) ≡ inr name
unfolding escape_filename
unescape_filename-escape_filename name h =
    unescape_filename_lem (escape_loop (suc (length name)) name)
    ∙ unescape-escape_loop (suc (length name)) name (omega arith) h
