-- ===== src/Base/AssocMap.antt =====
-- `BTreeMap` with ids as keys: an association list. A key is found at its first entry.
use rustic_core.Base.Tests.{◌==◌, if◌then◌else◌}
use Prim.Native.Nat.{ℕ}
use mathlib.Core.Path.{◌≡◌}
use mathlib.Core.List.{List, [], ◌∷◌}
use mathlib.Core.Option.{Option, none, some}
use native.Mathlib.Omega.{arith}

abbrev pub Map {ℓ} : Type ℓ → Type ℓ
Map V = List (ℕ × V)

module _ {ℓ} {V : Type ℓ} where
  unfoldable pub get : Map V → ℕ → Option V
  get [] k = none
  get ((j, v) ∷ m) k = if j == k then some v else get m k

  -- A write through `get_mut`: nothing happens where the key is missing.
  unfoldable pub update : Map V → ℕ → V → Map V
  update [] k w = []
  update ((j, v) ∷ m) k w = let rest = update m k w in if j == k then (j, w) ∷ m else (j, v) ∷ rest

  unfoldable pub remove : Map V → ℕ → Map V
  remove [] k = []
  remove ((j, v) ∷ m) k = let rest = remove m k in if j == k then rest else (j, v) ∷ rest

  abbrev pub on_some : Option V → V → Option V
  on_some none w = none
  on_some (some v) w = some w

  pub get-update :
      (m : Map V) (k j : ℕ) (w : V)
      → get (update m k w) j ≡ (if k == j then on_some (get m k) w else get m j)
  unfolding get update
  get-update [] k j w = ground arith
  get-update ((i, v) ∷ m) k j w = ground (arith, get-update m k j w)

  pub get-remove : (m : Map V) (k j : ℕ) → get (remove m k) j ≡ (if k == j then none else get m j)
  unfolding get remove
  get-remove [] k j = ground arith
  get-remove ((i, v) ∷ m) k j = ground (arith, get-remove m k j)
