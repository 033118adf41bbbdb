-- ===== src/Registry/Version/Above.antt =====
-- `Compare` against the order on tuples of any lengths, where a missing component is zero.
use creidhne.Base.{
  ℕ, zero, suc, ◌≤◌, ◌≡◌, refl, Bool, false, ◌&&◌, ◌||◌, ◌==◌, nat_eq, ltb, List, [], ◌∷◌, length,
  max, arith,
}
use creidhne.Registry.Version.{Version, compare_from, compare_versions, is_gt}

-- The first tuple is above the second one: at the first difference it has the greater component.
unfoldable pub is_above : List ℕ → List ℕ → Bool
is_above [] os = false
is_above (v ∷ vs) [] = ltb 0 v || is_above vs []
is_above (v ∷ vs) (o ∷ os) = ltb o v || (v == o && is_above vs os)

compare_from-tail :
    (n i v o : ℕ) (vs os : List ℕ)
    → compare_from n (suc i) (v ∷ vs) (o ∷ os) ≡ compare_from n i vs os
unfolding compare_from
compare_from-tail zero i v o vs os = refl
compare_from-tail (suc n) i v o vs os = ground (arith, compare_from-tail n (suc i) v o vs os)

compare_from-left_tail :
    (n i v : ℕ) (vs : List ℕ) → compare_from n (suc i) (v ∷ vs) [] ≡ compare_from n i vs []
unfolding compare_from
compare_from-left_tail zero i v vs = refl
compare_from-left_tail (suc n) i v vs = ground (arith, compare_from-left_tail n (suc i) v vs)

compare_from-zeros : (n i : ℕ) (os : List ℕ) → is_gt (compare_from n i [] os) ≡ false
unfolding compare_from
compare_from-zeros zero i os = refl
compare_from-zeros (suc n) i os = ground (arith, compare_from-zeros n (suc i) os)

compare_from-is_above :
    (n : ℕ) (vs os : List ℕ)
    → length vs ≤ n
    → length os ≤ n
    → is_gt (compare_from n 0 vs os) ≡ is_above vs os
unfolding is_above compare_from
compare_from-is_above n [] os h k = compare_from-zeros n 0 os
compare_from-is_above zero (v ∷ vs) os h k = absurd (omega arith)
compare_from-is_above (suc n) (v ∷ vs) [] h k =
    let rest = compare_from-is_above n vs [] (omega arith) (omega arith) in
    ground (arith, compare_from-left_tail n 0 v vs, rest)
compare_from-is_above (suc n) (v ∷ vs) (o ∷ os) h k =
    let rest = compare_from-is_above n vs os (omega arith) (omega arith) in
    ground (arith, compare_from-tail n 0 v o vs os, rest)

pub compare_versions-is_above :
    (v o : Version) → is_gt (compare_versions v o) ≡ is_above v.parts o.parts
unfolding compare_versions
compare_versions-is_above v o =
    compare_from-is_above (max (length v.parts) (length o.parts)) v.parts o.parts (omega arith)
      (omega arith)
