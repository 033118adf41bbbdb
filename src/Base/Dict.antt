-- ===== src/Base/Dict.antt =====
-- Go's maps: association lists, whose order stands for the order in which `range` yields the keys.
use mathlib.Core.Path.{◌≡◌, refl}
use mathlib.Core.Bool.{Bool, true, false, ◌||◌}
use mathlib.Core.Option.{Option, none, some}
use mathlib.Core.List.{List, [], ◌∷◌}
use native.Mathlib.Omega.{arith}
use creidhne.Base.Tests.{if◌then◌else◌}
use creidhne.Base.Equality.{Eq, ◌==◌, contains}

abbrev pub Dict {ℓ κ} : Type ℓ → Type κ → Type (ℓ ⊔ κ)
Dict K V = List (K × V)

abbrev pub is_some {ℓ} : {A : Type ℓ} → Option A → Bool
is_some none = false
is_some (some a) = true

unfoldable pub keys {ℓ κ} : {K : Type ℓ} {V : Type κ} → Dict K V → List K
keys [] = []
keys ((k, v) ∷ m) = k ∷ keys m

module _ {ℓ κ} {K : Type ℓ} {V : Type κ} ⦃e : Eq K⦄ where
  -- `v, ok := m[k]`
  unfoldable pub lookup : K → Dict K V → Option V
  lookup k [] = none
  lookup k ((j, v) ∷ m) = if k == j then some v else lookup k m

  -- `m[k] = v`
  unfoldable pub insert : K → V → Dict K V → Dict K V
  insert k v [] = (k, v) ∷ []
  insert k v ((j, w) ∷ m) = if k == j then (j, v) ∷ m else (j, w) ∷ insert k v m

  -- `delete(m, k)`
  unfoldable pub erase : K → Dict K V → Dict K V
  erase k [] = []
  erase k ((j, w) ∷ m) = let rest = erase k m in if k == j then rest else (j, w) ∷ rest

  -- `_, ok := m[k]`
  unfoldable pub has : K → Dict K V → Bool
  unfolding lookup
  has k m = is_some (lookup k m)

  pub lookup-insert :
      (j k : K) (v : V) (m : Dict K V)
      → lookup j (insert k v m) ≡ (if j == k then some v else lookup j m)
  unfolding lookup insert
  lookup-insert j k v [] = refl
  lookup-insert j k v ((i, w) ∷ m) =
      ground (arith, lookup-insert j k v m, e.same_iff j k, e.same_iff k i, e.same_iff j i)

  pub lookup-erase :
      (j k : K) (m : Dict K V) → lookup j (erase k m) ≡ (if j == k then none else lookup j m)
  unfolding lookup erase
  lookup-erase j k [] = ground arith
  lookup-erase j k ((i, w) ∷ m) =
      ground (arith, lookup-erase j k m, e.same_iff j k, e.same_iff k i, e.same_iff j i)

  pub has-keys : (k : K) (m : Dict K V) → contains (keys m) k ≡ has k m
  unfolding contains keys has
  has-keys k [] = refl
  has-keys k ((j, w) ∷ m) = ground (arith, has-keys k m)

  pub has-insert : (j k : K) (v : V) (m : Dict K V) → has j (insert k v m) ≡ (j == k || has j m)
  unfolding has
  has-insert j k v m = rw (lookup-insert j k v m) (ground arith)
