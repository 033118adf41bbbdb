-- ===== src/Base/Order.antt =====
-- Total orders, and the sort of the standard library: the result of `sort.Strings` and
-- `sort.Slice` by a total order is one list, so an insertion sort gives it.
use Prim.Native.Nat.{ℕ}
use mathlib.Core.Path.{◌≡◌, refl, ◌∙◌}
use mathlib.Core.Logic.{inl, inr, ∥∥₁_elim}
use mathlib.Core.Bool.{Bool, true, false, ◌&&◌, ◌||◌}
use mathlib.Core.List.{List, [], ◌∷◌, Perm, Permᴰ}
use mathlib.Core.List.Perm
use native.Mathlib.Omega.{arith}
use creidhne.Base.Tests.{if◌then◌else◌, ltb, Bool-cases}
use creidhne.Base.Equality.{Eq, ◌==◌, contains}

pub record Order {ℓ} (A : Type ℓ) : Type ℓ where
  pub le : A → A → Bool
  pub le_total : (a b : A) → (le a b || le b a) ≡ true
  pub le_antisymm : (a b : A) → le a b ≡ true → le b a ≡ true → a ≡ b
  pub le_trans : (a b c : A) → le a b ≡ true → le b c ≡ true → le a c ≡ true

module _ {ℓ} {A : Type ℓ} ⦃o : Order A⦄ where
  unfoldable pub insert_sorted : A → List A → List A
  insert_sorted x [] = x ∷ []
  insert_sorted x (y ∷ ys) = if o.le x y then x ∷ y ∷ ys else y ∷ insert_sorted x ys

  unfoldable pub sort : List A → List A
  unfolding insert_sorted
  sort [] = []
  sort (x ∷ xs) = insert_sorted x (sort xs)

  -- Each element is below all that come after it.
  abbrev pub below_all : A → List A → Bool
  below_all x [] = true
  below_all x (y ∷ ys) = o.le x y && below_all x ys

  abbrev pub is_sorted : List A → Bool
  is_sorted [] = true
  is_sorted (x ∷ xs) = below_all x xs && is_sorted xs

  below_all-insert_sorted :
      (a x : A) (xs : List A) → below_all a (insert_sorted x xs) ≡ (o.le a x && below_all a xs)
  unfolding insert_sorted
  below_all-insert_sorted a x [] = refl
  below_all-insert_sorted a x (y ∷ ys) = ground (arith, below_all-insert_sorted a x ys)

  below_all_trans :
      (a b : A) (xs : List A) → o.le a b ≡ true → below_all b xs ≡ true → below_all a xs ≡ true
  below_all_trans a b [] h k = refl
  below_all_trans a b (x ∷ xs) h k = ground (arith, o.le_trans a b x, below_all_trans a b xs)

  insert_sorted-is_sorted :
      (x : A) (xs : List A) → is_sorted xs ≡ true → is_sorted (insert_sorted x xs) ≡ true
  unfolding insert_sorted
  insert_sorted-is_sorted x [] h = refl
  insert_sorted-is_sorted x (y ∷ ys) h = ground (
    arith,
    insert_sorted-is_sorted x ys,
    below_all-insert_sorted y x ys,
    below_all_trans x y ys,
    o.le_total x y,
  )

  pub sort-is_sorted : (xs : List A) → is_sorted (sort xs) ≡ true
  unfolding sort
  sort-is_sorted [] = refl
  sort-is_sorted (x ∷ xs) = insert_sorted-is_sorted x (sort xs) (sort-is_sorted xs)

  insert_sorted_comm :
      (x y : A) (zs : List A)
      → insert_sorted x (insert_sorted y zs) ≡ insert_sorted y (insert_sorted x zs)
  unfolding insert_sorted
  insert_sorted_comm x y [] = ground (arith, o.le_total x y, o.le_antisymm x y)
  insert_sorted_comm x y (z ∷ zs) = ground (
    arith,
    insert_sorted_comm x y zs,
    o.le_total x y,
    o.le_antisymm x y,
    o.le_trans x y z,
    o.le_trans y x z,
    o.le_total x z,
    o.le_total y z,
  )

  sort-eq_of_permᴰ : {xs ys : List A} → Permᴰ xs ys → sort xs ≡ sort ys
  unfolding sort
  sort-eq_of_permᴰ Permᴰ.nil = refl
  sort-eq_of_permᴰ (Permᴰ.cons {l₁ = l} e p) = rw (e, sort-eq_of_permᴰ p)
  sort-eq_of_permᴰ (Permᴰ.swap {a = a} {b = b} {l = l} e f) =
      insert_sorted_comm a b (sort l) ∙ rw (e, f)
  sort-eq_of_permᴰ (Permᴰ.trans p q) = sort-eq_of_permᴰ p ∙ sort-eq_of_permᴰ q

  insert_sorted-perm : (x : A) (xs : List A) → Perm (insert_sorted x xs) (x ∷ xs)
  unfolding insert_sorted
  insert_sorted-perm x [] = Perm.refl (x ∷ [])
  insert_sorted-perm x (y ∷ ys) = elim (Bool-cases (o.le x y)) [
    | inl h ↦ rw h (Perm.refl (x ∷ y ∷ ys))
    | inr h ↦ rw h (Perm.trans (Perm.cons y (insert_sorted-perm x ys)) (Perm.swap x y ys))
  ]

  pub sort-perm : (xs : List A) → Perm (sort xs) xs
  unfolding sort
  sort-perm [] = Perm.nil
  sort-perm (x ∷ xs) = Perm.trans (insert_sorted-perm x (sort xs)) (Perm.cons x (sort-perm xs))

module _ {ℓ} {A : Type ℓ} ⦃o : Order A⦄ where
  -- The order in which the elements came does not show in the sorted list.
  pub sort-eq_of_perm : IsSet (List A) → {xs ys : List A} → Perm xs ys → sort xs ≡ sort ys
  sort-eq_of_perm is_set p = ∥∥₁_elim p (is_set _ _) sort-eq_of_permᴰ

module _ {ℓ} {A : Type ℓ} ⦃o : Order A⦄ ⦃e : Eq A⦄ where
  contains-insert_sorted :
      (x a : A) (xs : List A) → contains (insert_sorted x xs) a ≡ (a == x || contains xs a)
  unfolding insert_sorted contains
  contains-insert_sorted x a [] = refl
  contains-insert_sorted x a (y ∷ ys) = ground (arith, contains-insert_sorted x a ys)

  pub contains-sort : (a : A) (xs : List A) → contains (sort xs) a ≡ contains xs a
  unfolding sort contains
  contains-sort a [] = refl
  contains-sort a (x ∷ xs) = contains-insert_sorted x a (sort xs) ∙ rw (contains-sort a xs)

-- `<` on strings compares byte by byte.
unfoldable pub str_le : List ℕ → List ℕ → Bool
str_le [] ys = true
str_le (x ∷ xs) [] = false
str_le (x ∷ xs) (y ∷ ys) = if ltb x y then true else if ltb y x then false else str_le xs ys

pub str_le_total : (a b : List ℕ) → (str_le a b || str_le b a) ≡ true
unfolding str_le
str_le_total [] ys = refl
str_le_total (x ∷ xs) [] = refl
str_le_total (x ∷ xs) (y ∷ ys) = ground (arith, str_le_total xs ys)

pub str_le_antisymm : (a b : List ℕ) → str_le a b ≡ true → str_le b a ≡ true → a ≡ b
unfolding str_le
str_le_antisymm [] [] h k = refl
str_le_antisymm [] (y ∷ ys) h k = ground arith
str_le_antisymm (x ∷ xs) [] h k = ground arith
str_le_antisymm (x ∷ xs) (y ∷ ys) h k = ground (arith, str_le_antisymm xs ys)

pub str_le_trans : (a b c : List ℕ) → str_le a b ≡ true → str_le b c ≡ true → str_le a c ≡ true
unfolding str_le
str_le_trans [] ys zs h k = refl
str_le_trans (x ∷ xs) [] zs h k = ground arith
str_le_trans (x ∷ xs) (y ∷ ys) [] h k = ground arith
str_le_trans (x ∷ xs) (y ∷ ys) (z ∷ zs) h k = ground (arith, str_le_trans xs ys zs)

instance abbrev pub str_order : Order (List ℕ)
str_order = record {
  le = str_le;
  le_total = str_le_total;
  le_antisymm = str_le_antisymm;
  le_trans = str_le_trans;
}

pub Strs-set : IsSet (List (List ℕ))
Strs-set = hlevel
