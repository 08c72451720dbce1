-- ===== src/Forget/KeptReason.antt =====
-- The reasons of a snapshot that name a period.
use rustic_core.Base.{
  ℕ, zero, suc, ◌≡◌, refl, ap, Bool, true, false, ◌&&◌, ◌||◌, List, ◌∷◌, any, arith, ◌==◌, sym, ◌∙◌,
  count, ◌≤◌,
}
use rustic_core.Forget.{Period, periods, Reason}

abbrev pub index : Period → ℕ
index Period.last = 0
index Period.minutely = 1
index Period.hourly = 2
index Period.daily = 3
index Period.weekly = 4
index Period.monthly = 5
index Period.quarter_yearly = 6
index Period.half_yearly = 7
index Period.yearly = 8

pub of_index : ℕ → Period
of_index zero = Period.last
of_index (suc zero) = Period.minutely
of_index (suc (suc zero)) = Period.hourly
of_index (suc (suc (suc zero))) = Period.daily
of_index (suc (suc (suc (suc zero)))) = Period.weekly
of_index (suc (suc (suc (suc (suc zero))))) = Period.monthly
of_index (suc (suc (suc (suc (suc (suc zero)))))) = Period.quarter_yearly
of_index (suc (suc (suc (suc (suc (suc (suc zero))))))) = Period.half_yearly
of_index (suc (suc (suc (suc (suc (suc (suc (suc n)))))))) = Period.yearly

of_index-index : (p : Period) → of_index (index p) ≡ p
unfolding of_index
of_index-index Period.last = refl
of_index-index Period.minutely = refl
of_index-index _ = refl

pub index-injective : (p q : Period) → index p ≡ index q → p ≡ q
index-injective p q e = sym (of_index-index p) ∙ ap of_index e ∙ of_index-index q

-- Whether a reason is that of the counter of the period.
abbrev pub is_kept : Period → Reason → Bool
is_kept p (Reason.kept q) = index p == index q
is_kept p _ = false

abbrev pub has_kept : Period → List Reason → Bool
has_kept p = any (is_kept p)

pub or-and : (a b k : Bool) → ((a && k) || (b && k)) ≡ ((a || b) && k)
or-and a b k = ground arith

pub any-periods : (p : Period) → any (λ q. index p == index q) periods ≡ true
any-periods Period.last = refl
any-periods Period.minutely = refl
any-periods _ = refl

pub count_skip {ℓ} :
    {A : Type ℓ} (q : A → Bool) (x : A) (xs : List A) {m n : ℕ}
    → q x ≡ false
    → count q xs ≤ m
    → m ≤ n
    → count q (x ∷ xs) ≤ n
count_skip q x xs e h k = ground arith

pub count_hit {ℓ} :
    {A : Type ℓ} (q : A → Bool) (x : A) (xs : List A) {m n : ℕ}
    → count q xs ≤ m
    → suc m ≤ n
    → count q (x ∷ xs) ≤ n
count_hit q x xs h k = ground arith
