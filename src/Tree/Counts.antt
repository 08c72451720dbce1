-- ===== src/Tree/Counts.antt =====
-- The counters of the roots and the queue, for `TreeStreamerOnce` of crates/core/src/blob/tree.rs.
use rustic_core.Base.{
  ℕ, zero, suc, ◌+◌, ◌-◌, ◌≡◌, ◌≤◌, ◌<◌, Bool, true, false, ◌==◌, any, none, some, List, [], ◌∷◌,
  count, length, if◌then◌else◌, refl, ap, ◌∙◌, arith, some-injective, inl, inr, Bool-cases,
  Option-cases,
}
use rustic_core.Tree.{Pending, count_at, add_one, take_one, zeros, take_out}

-- How often an id stands in a list.
abbrev pub occ : ℕ → List ℕ → ℕ
occ id = count (λ i. i == id)

-- The roots that are finished.
abbrev pub at_zero : List ℕ → ℕ
at_zero = count (λ n. n == 0)

pub count_at-add_one :
    (c d : ℕ) (l : List ℕ)
    → c < length l
    → count_at d (add_one c l) ≡ (if c == d then suc (count_at d l) else count_at d l)
unfolding count_at add_one
count_at-add_one c d [] h = absurd (omega arith)
count_at-add_one zero zero (n ∷ l) h = refl
count_at-add_one zero (suc d) (n ∷ l) h = ground arith
count_at-add_one (suc c) zero (n ∷ l) h = ground arith
count_at-add_one (suc c) (suc d) (n ∷ l) h = ground (arith, count_at-add_one c d l (omega arith))

pub count_at-take_one :
    (c d : ℕ) (l : List ℕ)
    → count_at d (take_one c l) ≡ (if c == d then count_at d l - 1 else count_at d l)
unfolding count_at take_one
count_at-take_one c d [] = ground arith
count_at-take_one zero zero (n ∷ l) = refl
count_at-take_one zero (suc d) (n ∷ l) = ground arith
count_at-take_one (suc c) zero (n ∷ l) = ground arith
count_at-take_one (suc c) (suc d) (n ∷ l) = ground (arith, count_at-take_one c d l)

pub at_zero-add_one :
    (c : ℕ) (l : List ℕ)
    → c < length l
    → at_zero (add_one c l) + (if count_at c l == 0 then 1 else 0) ≡ at_zero l
unfolding count_at add_one
at_zero-add_one c [] h = absurd (omega arith)
at_zero-add_one zero (n ∷ l) h = ground arith
at_zero-add_one (suc c) (n ∷ l) h = ground (arith, at_zero-add_one c l (omega arith))

pub at_zero-take_one :
    (c : ℕ) (l : List ℕ)
    → 1 ≤ count_at c l
    → at_zero (take_one c l) ≡ at_zero l + (if count_at c (take_one c l) == 0 then 1 else 0)
unfolding count_at take_one
at_zero-take_one c [] h = absurd (omega arith)
at_zero-take_one zero (n ∷ l) h = ground arith
at_zero-take_one (suc c) (n ∷ l) h = ground (arith, at_zero-take_one c l h)

pub length-add_one : (c : ℕ) (l : List ℕ) → length (add_one c l) ≡ length l
unfolding add_one
length-add_one c [] = refl
length-add_one zero (n ∷ l) = refl
length-add_one (suc c) (n ∷ l) = ap suc (length-add_one c l)

pub length-take_one : (c : ℕ) (l : List ℕ) → length (take_one c l) ≡ length l
unfolding take_one
length-take_one c [] = refl
length-take_one zero (n ∷ l) = refl
length-take_one (suc c) (n ∷ l) = ap suc (length-take_one c l)

pub count_at-lt : (c : ℕ) (l : List ℕ) → 1 ≤ count_at c l → c < length l
unfolding count_at
count_at-lt c [] h = absurd (omega arith)
count_at-lt zero (n ∷ l) h = omega arith
count_at-lt (suc c) (n ∷ l) h = omega (arith, count_at-lt c l h)

pub at_zero-le : (l : List ℕ) → at_zero l ≤ length l
at_zero-le [] = omega arith
at_zero-le (n ∷ l) = ground (arith, at_zero-le l)

-- If all are finished, every counter is zero.
pub count_at-at_zero : (c : ℕ) (l : List ℕ) → at_zero l ≡ length l → count_at c l ≡ 0
unfolding count_at
count_at-at_zero c [] h = refl
count_at-at_zero zero (n ∷ l) h = ground (arith, at_zero-le l)
count_at-at_zero (suc c) (n ∷ l) h = count_at-at_zero c l (ground (arith, at_zero-le l))

-- If some are not, a counter is not.
pub at_zero-lt : (l : List ℕ) → at_zero l < length l → (c : ℕ) × (1 ≤ count_at c l)
unfolding count_at
at_zero-lt [] h = absurd (omega arith)
at_zero-lt (n ∷ l) h = elim (Bool-cases (n == 0)) [
  | inl e ↦ let (c, k) = at_zero-lt l (ground arith) in (suc c, k)
  | inr e ↦ (zero, ground arith)
]

pub count_at-zeros : (c n : ℕ) → count_at c (zeros n) ≡ 0
unfolding count_at zeros
count_at-zeros c zero = refl
count_at-zeros zero (suc n) = refl
count_at-zeros (suc c) (suc n) = count_at-zeros c n

pub at_zero-zeros : (n : ℕ) → at_zero (zeros n) ≡ n
unfolding zeros
at_zero-zeros zero = refl
at_zero-zeros (suc n) = ap suc (at_zero-zeros n)

pub length-zeros : (n : ℕ) → length (zeros n) ≡ n
unfolding zeros
length-zeros zero = refl
length-zeros (suc n) = ap suc (length-zeros n)

pub occ-any : (id : ℕ) (l : List ℕ) → any (λ i. i == id) l ≡ false → occ id l ≡ 0
occ-any id [] h = refl
occ-any id (i ∷ l) h = ground (arith, occ-any id l)

pub any-occ : (id : ℕ) (l : List ℕ) → any (λ i. i == id) l ≡ true → 1 ≤ occ id l
any-occ id [] h = absurd (ground arith)
any-occ id (i ∷ l) h = ground (arith, any-occ id l)

swapped :
    (q r : Pending) (ps more : List Pending) (f : Pending → Bool)
    → count f ps ≡ count f (r ∷ more)
    → count f (q ∷ ps) ≡ count f (r ∷ q ∷ more)
swapped q r ps more f h = ground arith

pub none-some {ℓ} : {A : Type ℓ} (a : A) → none ≡ some a → ⊥
none-some a e = cc

-- What is taken out was in the queue, and the others are left.
pub count-take_out :
    (i : ℕ) (ps : List Pending) (p : Pending) (rest : List Pending) (f : Pending → Bool)
    → take_out i ps ≡ some (p, rest)
    → count f ps ≡ count f (p ∷ rest)
unfolding take_out
count-take_out i [] p rest f e = absurd (ground arith)
count-take_out zero (q ∷ ps) p rest f e =
    ap (λ (r : Pending × List Pending). count f (r.0 ∷ r.1)) (some-injective e)
count-take_out (suc i) (q ∷ ps) p rest f e = elim (Option-cases (take_out i ps)) [
  | inl n ↦ absurd (none-some (p, rest) (rw n at e))
  | inr ((r, more), n) ↦
      let e' : some (r, q ∷ more) ≡ some (p, rest) = rw n at e in
      swapped q r ps more f (count-take_out i ps r more f n)
      ∙ ap (λ (x : Pending × List Pending). count f (x.0 ∷ x.1)) (some-injective e')
]
