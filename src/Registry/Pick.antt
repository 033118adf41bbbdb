-- ===== src/Registry/Pick.antt =====
-- `inRange` and `PickVersion`. The constraints of the semver library are a parameter.
pub mod Newer
pub mod Best
use Prim.Native.Nat.{Ordering}
use creidhne.Base.{
  ℕ, Bool, true, false, not, ◌&&◌, ◌||◌, Option, none, some, List, [], ◌∷◌, Result, ok, err, ◌>>=◌,
  ◌==◌, list_eq, nat_eq, ltb, leb, length, is_nil, if◌then◌else◌,
}
use creidhne.Base.Str.{Str}
use creidhne.Registry.Version.{Version, parse_version, part_at, compare_versions, truncated, is_gt}

-- `semver.NewConstraint`: what a range accepts of (major, minor, patch), or its error.
abbrev pub Constraint : Type 0
Constraint = ℕ → ℕ → ℕ → Bool

pub data PickError : Type 0 where
  invalid_range : Str → PickError

unfoldable pub in_range : Version → Constraint → Bool
in_range v check = check (part_at v.parts 0) (part_at v.parts 1) (part_at v.parts 2)

-- No constraint accepts every version.
abbrev pub allows : Option Constraint → Version → Bool
allows none v = true
allows (some check) v = in_range v check

-- The guards of the loop, in their order. `ParseVersion` gives no version without a component, and
-- for a current one the source would panic where it indexes the first; here it counts as zero.
unfoldable pub is_candidate : Version → Option Constraint → Version → Bool
is_candidate current c v =
    v.suffix == current.suffix
    && (not (ltb (length v.parts) (length current.parts))
        && (not (leb 10000 (part_at v.parts 0) && ltb (part_at current.parts 0) 1000)
            && (is_gt (compare_versions (truncated v (length current.parts)) current)
                && allows c v)))

unfoldable pub better : Option Version → Version → Option Version
better none v = some v
better (some best) v = if is_gt (compare_versions v best) then some v else some best

unfoldable pub consider :
    Version → Option Constraint → Option Version → Option Version → Option Version
consider current c best none = best
consider current c best (some v) = if is_candidate current c v then better best v else best

unfoldable pub pick_loop : Version → Option Constraint → Option Version → List Str → Option Version
pick_loop current c best [] = best
pick_loop current c best (t ∷ tags) =
    pick_loop current c (consider current c best (parse_version t)) tags

unfoldable pub raw_or_empty : Option Version → Str
raw_or_empty none = []
raw_or_empty (some v) = v.raw

module _ (new_constraint : Str → Option Constraint) where
  unfoldable pub constraint_of : Str → Result PickError (Option Constraint)
  constraint_of range =
      if is_nil range
      then ok none
      else elim (new_constraint range) [ none ↦ err (invalid_range range) | some c ↦ ok (some c) ]

  unfoldable pub pick_version : List Str → Version → Str → Result PickError Str
  pick_version tags current range = do
    c ← constraint_of range
    ok (raw_or_empty (pick_loop current c none tags))
