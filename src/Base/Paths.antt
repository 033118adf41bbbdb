-- ===== src/Base/Paths.antt =====
-- Paths of the file system, and the functions of package `path/filepath` on slash-separated names.
use Prim.Native.Nat.{ℕ, zero, suc}
use mathlib.Core.Path.{◌≡◌, refl}
use mathlib.Core.Logic.{◌⊎◌, inl, inr}
use mathlib.Core.Bool.{Bool, true, false, not, ◌&&◌, ◌||◌}
use mathlib.Core.Option
use mathlib.Core.Option.{Option, none, some}
use mathlib.Core.List.{List, [], ◌∷◌, ◌++◌}
use native.Mathlib.Omega.{arith}
use creidhne.Base.Tests.{if◌then◌else◌}
use creidhne.Base.Lists.{length, is_nil}
use creidhne.Base.Equality.{◌==◌, nat_eq, list_eq, list_beq}
use creidhne.Base.Str.{Str, str, has_prefix, split_byte, join}

-- The elements of a clean path, the last one first: a directory is the tail of what it holds.
abbrev pub FilePath : Type 0
FilePath = List Str

-- One element of a slash-separated name, as `filepath.Clean` reads it.
pub data Part : Type 0 where
  skip up down : Part

unfoldable pub part : Str → Part
unfolding list_beq
part p =
    if p == str "" || p == str "." then Part.skip else if p == str ".." then Part.up else Part.down

abbrev parent_of : FilePath → FilePath
parent_of [] = []
parent_of (p ∷ path) = path

step : Part → FilePath → Str → FilePath
step Part.skip path p = path
step Part.up path p = parent_of path
step Part.down path p = p ∷ path

walk_parts : FilePath → List Str → FilePath
unfolding step
walk_parts path [] = path
walk_parts path (p ∷ ps) = walk_parts (step (part p) path p) ps

-- `filepath.Join(dir, filepath.FromSlash(name))`
unfoldable pub join_name : FilePath → Str → FilePath
unfolding walk_parts part split_byte
join_name dir name = walk_parts dir (split_byte name b'/')

-- `filepath.Dir`
unfoldable pub parent : FilePath → FilePath
parent = parent_of

-- Whether the elements never climb above the directory that they start in, `depth` levels up.
stays_inside : ℕ → List Str → Bool
stays_inside depth [] = true
stays_inside depth (p ∷ ps) = elim (part p) [
  | Part.skip ↦ stays_inside depth ps
  | Part.up ↦ elim depth [ zero ↦ false | suc d ↦ stays_inside d ps ]
  | Part.down ↦ stays_inside (suc depth) ps
]

-- `filepath.IsLocal`
unfoldable pub is_local : Str → Bool
unfolding stays_inside part split_byte has_prefix
is_local name =
    not (is_nil name) && (not (has_prefix name (str "/")) && stays_inside 0 (split_byte name b'/'))

-- The elements of `path` below `dir`, the last one first.
unfoldable pub below : FilePath → FilePath → Option FilePath
unfolding list_beq
below dir [] = if list_beq [] dir then some [] else none
below dir (p ∷ path) =
    let rest = below dir path in
    if list_beq (p ∷ path) dir then some [] else Option.map (λ r. p ∷ r) rest

-- `filepath.ToSlash` of a relative path
unfoldable pub to_slash : FilePath → Str
unfolding join
to_slash path = go path []
  where
    go : FilePath → List Str → Str
    go [] done = join done (str "/")
    go (p ∷ ps) done = go ps (p ∷ done)

Part-cases : (k : Part) → (k ≡ Part.skip) ⊎ ((k ≡ Part.up) ⊎ (k ≡ Part.down))
Part-cases Part.skip = inl refl
Part-cases Part.up = inr (inl refl)
Part-cases Part.down = inr (inr refl)

walk_parts-below :
    (dir : FilePath) (ps : List Str) (rest : FilePath)
    → stays_inside (length rest) ps ≡ true
    → (below : FilePath) × (walk_parts (rest ++ dir) ps ≡ below ++ dir)
unfolding walk_parts stays_inside
walk_parts-below dir [] rest h = (rest, refl)
walk_parts-below dir (p ∷ ps) [] h = elim (Part-cases (part p)) [
  | inl e ↦ rw e (walk_parts-below dir ps [] (ground arith))
  | inr (inl e) ↦ absurd (ground arith)
  | inr (inr e) ↦ rw e (walk_parts-below dir ps (p ∷ []) (ground arith))
]
walk_parts-below dir (p ∷ ps) (r ∷ rest) h = elim (Part-cases (part p)) [
  | inl e ↦ rw e (walk_parts-below dir ps (r ∷ rest) (ground arith))
  | inr (inl e) ↦ rw e (walk_parts-below dir ps rest (ground arith))
  | inr (inr e) ↦ rw e (walk_parts-below dir ps (p ∷ r ∷ rest) (ground arith))
]

-- A local name leads to a path inside the directory that it is joined to.
pub join_name-inside :
    (dir : FilePath) (name : Str)
    → is_local name ≡ true
    → (rest : FilePath) × (join_name dir name ≡ rest ++ dir)
unfolding join_name is_local
join_name-inside dir name h = walk_parts-below dir (split_byte name b'/') [] (ground arith)
