-- ===== src/Registry/Version/Order.antt =====
-- `Compare` is a total preorder: versions that differ by trailing zeros are equal.
use Prim.Native.Nat.{Ordering}
use creidhne.Base.{
  ℕ, zero, suc, ◌+◌, ◌≤◌, ◌≡◌, refl, sym, true, false, List, [], ◌∷◌, length, max, arith,
}
use creidhne.Registry.Version.{Version, part_at, compare_from, compare_versions, is_gt}

part_at-zero : (ps : List ℕ) (i : ℕ) → length ps ≤ i → part_at ps i ≡ 0
part_at-zero [] i h = refl
part_at-zero (p ∷ ps) zero h = absurd (omega arith)
part_at-zero (p ∷ ps) (suc i) h = part_at-zero ps i (omega arith)

module _ (vs os : List ℕ) where
  compare_from-zero :
      (n i : ℕ) → length vs ≤ i → length os ≤ i → compare_from n i vs os ≡ Ordering.eq
  unfolding compare_from
  compare_from-zero zero i h k = refl
  compare_from-zero (suc n) i h k = ground (
    arith,
    part_at-zero vs i h,
    part_at-zero os i k,
    compare_from-zero n (suc i) (omega arith) (omega arith),
  )

  -- Components past both ends change nothing.
  compare_from-more :
      (n m i : ℕ)
      → n ≤ m
      → length vs ≤ i + n
      → length os ≤ i + n
      → compare_from m i vs os ≡ compare_from n i vs os
  unfolding compare_from
  compare_from-more zero m i le h h' = compare_from-zero m i (omega arith) (omega arith)
  compare_from-more (suc n) zero i le h h' = absurd (omega arith)
  compare_from-more (suc n) (suc m) i le h h' =
      ground (arith, compare_from-more n m (suc i) (omega arith) (omega arith) (omega arith))

  compare_from-flip :
      (n i : ℕ) → is_gt (compare_from n i vs os) ≡ true → is_gt (compare_from n i os vs) ≡ false
  unfolding compare_from
  compare_from-flip zero i h = refl
  compare_from-flip (suc n) i h = ground (arith, compare_from-flip n (suc i))

  compare_from_trans :
      (n i : ℕ) (us : List ℕ)
      → is_gt (compare_from n i us vs) ≡ false
      → is_gt (compare_from n i vs os) ≡ false
      → is_gt (compare_from n i us os) ≡ false
  unfolding compare_from
  compare_from_trans zero i us h k = refl
  compare_from_trans (suc n) i us h k = ground (arith, compare_from_trans n (suc i) us)

-- `v` is at most `o`.
abbrev pub AtMost : Version → Version → Type 0
AtMost v o = is_gt (compare_versions v o) ≡ false

-- Any count of rounds past both ends is as good as `Compare`'s own.
compare_versions-more :
    (v o : Version) (m : ℕ)
    → length v.parts ≤ m
    → length o.parts ≤ m
    → compare_versions v o ≡ compare_from m 0 v.parts o.parts
unfolding compare_versions
compare_versions-more v o m h k = sym (
    compare_from-more v.parts o.parts (max (length v.parts) (length o.parts)) m 0 (omega arith)
      (omega arith) (omega arith))

compare_from_refl : (n i : ℕ) (vs : List ℕ) → compare_from n i vs vs ≡ Ordering.eq
unfolding compare_from
compare_from_refl zero i vs = refl
compare_from_refl (suc n) i vs = ground (arith, compare_from_refl n (suc i) vs)

pub AtMost-refl : (v : Version) → AtMost v v
unfolding compare_versions
AtMost-refl v = rw compare_from_refl

pub AtMost-of_gt : (v o : Version) → is_gt (compare_versions v o) ≡ true → AtMost o v
AtMost-of_gt v o h =
    let m = length v.parts + length o.parts in
    rw (compare_versions-more o v m (omega arith) (omega arith)) (
      compare_from-flip v.parts o.parts m 0
        (rw (compare_versions-more v o m (omega arith) (omega arith)) at h))

-- The order is transitive, for tuples of any lengths.
pub AtMost-trans : (u v w : Version) → AtMost u v → AtMost v w → AtMost u w
AtMost-trans u v w h k =
    let m = length u.parts + length v.parts + length w.parts in
    rw (compare_versions-more u w m (omega arith) (omega arith)) (
      compare_from_trans v.parts w.parts m 0 u.parts
        (rw (compare_versions-more u v m (omega arith) (omega arith)) at h)
        (rw (compare_versions-more v w m (omega arith) (omega arith)) at k))
