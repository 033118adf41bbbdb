-- ===== src/Base/Equality.antt =====
-- Go's `==`, for every type of the model that has a Boolean equality.
use Prim.Native.Nat.{ℕ, compare, Ordering}
use mathlib.Core.Path.{◌≡◌, refl, sym, subst}
use mathlib.Core.Logic.{◌↔◌, ◌≢◌, inl, inr}
use mathlib.Core.Bool.{Bool, true, false, not, ◌&&◌, ◌||◌}
use mathlib.Core.List.{List, [], ◌∷◌, ◌++◌}
use native.Mathlib.Omega.{arith}
use creidhne.Base.Tests.{Bool-cases}
use creidhne.Base.Lists.{select, All}

infix 50 ◌==◌ ◌!=◌
pub record Eq {κ} (T : Type κ) : Type κ where
  pub same : T → T → Bool
  pub same_iff : (x y : T) → (same x y ≡ true) ↔ (x ≡ y)

abbrev pub ◌==◌ {κ} : {T : Type κ} ⦃e : Eq T⦄ → T → T → Bool
◌==◌ ⦃e = c⦄ = c.same

abbrev pub ◌!=◌ {κ} : {T : Type κ} ⦃e : Eq T⦄ → T → T → Bool
x != y = not (x == y)

abbrev pub nat_beq : ℕ → ℕ → Bool
nat_beq a b = elim (compare a b) [ Ordering.eq ↦ true | _ ↦ false ]

pub nat_beq_iff : (a b : ℕ) → (nat_beq a b ≡ true) ↔ (a ≡ b)
nat_beq_iff a b = ground arith

instance abbrev pub nat_eq : Eq ℕ
nat_eq = record { same = nat_beq; same_iff = nat_beq_iff }

abbrev pub bool_beq : Bool → Bool → Bool
bool_beq true b = b
bool_beq false b = not b

pub bool_beq_iff : (a b : Bool) → (bool_beq a b ≡ true) ↔ (a ≡ b)
bool_beq_iff a b = ground arith

instance abbrev pub bool_eq : Eq Bool
bool_eq = record { same = bool_beq; same_iff = bool_beq_iff }

-- Strings are lists of bytes, so the equality of lists is that of strings too.
module _ {ℓ} {A : Type ℓ} ⦃e : Eq A⦄ where
  unfoldable pub list_beq : List A → List A → Bool
  list_beq [] [] = true
  list_beq [] (y ∷ ys) = false
  list_beq (x ∷ xs) [] = false
  list_beq (x ∷ xs) (y ∷ ys) = e.same x y && list_beq xs ys

  pub list_beq_iff : (xs ys : List A) → (list_beq xs ys ≡ true) ↔ (xs ≡ ys)
  unfolding list_beq
  list_beq_iff [] [] = ground arith
  list_beq_iff [] (y ∷ ys) = ground arith
  list_beq_iff (x ∷ xs) [] = ground arith
  list_beq_iff (x ∷ xs) (y ∷ ys) = ground (arith, e.same_iff x y, list_beq_iff xs ys)

  instance abbrev pub list_eq : Eq (List A)
  list_eq = record { same = list_beq; same_iff = list_beq_iff }

  pub beq_refl : (a : A) → (a == a) ≡ true
  beq_refl a = (e.same_iff a a).1 refl

  pub beq_ne : (a b : A) → a ≢ b → (a == b) ≡ false
  beq_ne a b h = ground (arith, e.same_iff a b)

  pub beq→eq : {a b : A} → (a == b) ≡ true → a ≡ b
  beq→eq {a} {b} h = (e.same_iff a b).0 h

  -- Membership, as the code tests it by a loop or a `map[..]bool`.
  unfoldable pub contains : List A → A → Bool
  contains [] a = false
  contains (x ∷ xs) a = a == x || contains xs a

  pub contains-append :
      (a : A) (xs ys : List A) → contains (xs ++ ys) a ≡ (contains xs a || contains ys a)
  unfolding contains
  contains-append a [] ys = refl
  contains-append a (x ∷ xs) ys = ground (arith, contains-append a xs ys)

  pub contains-select :
      (p : A → Bool) (a : A) (xs : List A) → contains (select p xs) a ≡ (contains xs a && p a)
  unfolding contains select
  contains-select p a [] = refl
  contains-select p a (x ∷ xs) = elim (Bool-cases (e.same a x)) [
    | inl h ↦ rw (beq→eq h) (ground (arith, contains-select p x xs, beq_refl x))
    | inr h ↦ ground (arith, contains-select p a xs)
  ]

  pub select-none :
      (p : A → Bool) (xs : List A)
      → ((a : A) → contains xs a ≡ true → p a ≡ false)
      → select p xs ≡ []
  unfolding contains select
  select-none p [] h = refl
  select-none p (x ∷ xs) h =
      rw (h x (rw (beq_refl x)), select-none p xs (λ a later. h a (ground arith)))

  pub All-contains {κ} :
      (P : A → Type κ) (a : A) (xs : List A) → All P xs → contains xs a ≡ true → P a
  unfolding contains
  All-contains P a [] h m = absurd (ground arith)
  All-contains P a (x ∷ xs) h m = elim (Bool-cases (e.same a x)) [
    | inl same ↦ subst P (sym (beq→eq same)) h.0
    | inr other ↦ All-contains P a xs h.1 (ground arith)
  ]

  -- No element occurs twice, as holds of the keys of a Go map.
  abbrev pub is_distinct : List A → Bool
  is_distinct [] = true
  is_distinct (x ∷ xs) = not (contains xs x) && is_distinct xs

  pub beq_comm : (a b : A) → (a == b) ≡ (b == a)
  beq_comm a b = ground (arith, e.same_iff a b, e.same_iff b a)
