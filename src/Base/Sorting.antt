-- ===== src/Base/Sorting.antt =====
-- `sort_unstable_by_key`: an insertion sort, in which equal elements keep their order.
use rustic_core.Base.Tests.{if◌then◌else◌}
use rustic_core.Base.Lists.{count, any}
use mathlib.Core.Path.{◌≡◌, refl}
use mathlib.Core.Bool.{Bool}
use mathlib.Core.List.{List, [], ◌∷◌}
use native.Mathlib.Omega.{arith}

module _ {ℓ} {A : Type ℓ} (lt : A → A → Bool) where
  -- An element is put behind those that are not greater.
  unfoldable pub insert_by : A → List A → List A
  insert_by a [] = a ∷ []
  insert_by a (b ∷ bs) = let rest = insert_by a bs in if lt b a then b ∷ rest else a ∷ b ∷ bs

  unfoldable pub sort_by : List A → List A
  unfolding insert_by
  sort_by [] = []
  sort_by (a ∷ rest) = insert_by a (sort_by rest)

  count-insert_by :
      (p : A → Bool) (a : A) (bs : List A) → count p (insert_by a bs) ≡ count p (a ∷ bs)
  unfolding insert_by
  count-insert_by p a [] = refl
  count-insert_by p a (b ∷ bs) = ground (arith, count-insert_by p a bs)

  pub count-sort_by : (p : A → Bool) (as' : List A) → count p (sort_by as') ≡ count p as'
  unfolding sort_by
  count-sort_by p [] = refl
  count-sort_by p (a ∷ rest) =
      ground (arith, count-sort_by p rest, count-insert_by p a (sort_by rest))

  any-insert_by : (p : A → Bool) (a : A) (bs : List A) → any p (insert_by a bs) ≡ any p (a ∷ bs)
  unfolding insert_by
  any-insert_by p a [] = refl
  any-insert_by p a (b ∷ bs) = ground (arith, any-insert_by p a bs)

  pub any-sort_by : (p : A → Bool) (as' : List A) → any p (sort_by as') ≡ any p as'
  unfolding sort_by
  any-sort_by p [] = refl
  any-sort_by p (a ∷ rest) = ground (arith, any-sort_by p rest, any-insert_by p a (sort_by rest))
