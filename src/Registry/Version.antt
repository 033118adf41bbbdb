-- ===== src/Registry/Version.antt =====
-- `Version`, `ParseVersion`, `Compare` and `truncated`.
pub mod Order
pub mod Above
pub mod Raw
use Prim.Native.Nat.{compare, Ordering}
use creidhne.Base.{
  ℕ, zero, suc, ◌+◌, ◌≤◌, ◌≡◌, refl, Bool, true, false, ◌&&◌, ◌||◌, Option, none, some, List, [],
  ◌∷◌, ◌==◌, nat_eq, leb, all, length, take, is_nil, not, max, arith, if◌then◌else◌,
}
use creidhne.Base.Str.{Str, cut_byte, split_byte, is_digit}
use creidhne.Registry.Numbers.{Signed, atoi}

pub record Version : Type 0 where
  pub raw : Str
  pub parts : List ℕ
  pub suffix : Str

is_suffix_byte : ℕ → Bool
is_suffix_byte c =
    is_digit c || ((leb b'A' c && leb c b'Z') || ((leb b'a' c && leb c b'z') || c == b'.'))

-- `v?`
drop_v : Str → Str
drop_v [] = []
drop_v (c ∷ s) = if c == b'v' then s else c ∷ s

-- The groups of `^v?([0-9]+(?:\.[0-9]+)*)(?:-([0-9A-Za-z.]+))?$`. No byte of the first group and
-- none of the second is a dash, so the first dash parts them.
with_suffix : Str → Option (Str × Str) → Option (Str × Str)
unfolding is_suffix_byte
with_suffix s none = some (s, [])
with_suffix s (some (front, suffix)) =
    if not (is_nil suffix) && all is_suffix_byte suffix then some (front, suffix) else none

is_numeric : Str → Bool
is_numeric part = not (is_nil part) && all is_digit part

-- `strconv.Atoi` of each component; `none` when one of them does not fit.
atoi_parts : List Str → Option (List ℕ)
atoi_parts [] = some []
atoi_parts (p ∷ ps) =
    let rest = atoi_parts ps in
    elim (atoi p) [
      | none ↦ none
      | some n ↦ elim rest [ none ↦ none | some ns ↦ some (n.size ∷ ns) ]
    ]

version_of : Str → Option (Str × Str) → Option Version
unfolding is_numeric atoi_parts
version_of tag none = none
version_of tag (some (front, suffix)) =
    if all is_numeric (split_byte front b'.')
    then elim (atoi_parts (split_byte front b'.')) [
      | none ↦ none
      | some ns ↦ some (record { raw = tag; parts = ns; suffix = suffix })
    ]
    else none

unfoldable pub parse_version : Str → Option Version
unfolding version_of with_suffix drop_v
parse_version tag = let body = drop_v tag in version_of tag (with_suffix body (cut_byte body b'-'))

-- A component, zero past the end.
abbrev pub part_at : List ℕ → ℕ → ℕ
part_at [] i = 0
part_at (p ∷ ps) zero = p
part_at (p ∷ ps) (suc i) = part_at ps i

-- The loop of `Compare` from component `i` on, for `n` components.
unfoldable pub compare_from : ℕ → ℕ → List ℕ → List ℕ → Ordering
compare_from zero i vs os = Ordering.eq
compare_from (suc n) i vs os =
    let rest = compare_from n (suc i) vs os in
    elim (compare (part_at vs i) (part_at os i)) [
      | Ordering.lt ↦ Ordering.lt
      | Ordering.gt ↦ Ordering.gt
      | Ordering.eq ↦ rest
    ]

abbrev pub is_gt : Ordering → Bool
is_gt Ordering.gt = true
is_gt _ = false

unfoldable pub compare_versions : Version → Version → Ordering
compare_versions v o = compare_from (max (length v.parts) (length o.parts)) 0 v.parts o.parts

unfoldable pub truncated : Version → ℕ → Version
truncated v n = if leb (length v.parts) n then v else record v { parts = take n v.parts }
