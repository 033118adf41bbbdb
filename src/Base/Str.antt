-- ===== src/Base/Str.antt =====
-- Go's strings: sequences of bytes, with the functions of package `strings` that the code calls.
use Prim.Native.Nat.{ℕ}
use Prim.Native.Char.{code}
use Prim.Native.String.{String}
use mathlib.Core.Path.{◌≡◌, refl}
use mathlib.Core.Logic.{inl, inr}
use mathlib.Core.Bool.{Bool, true, false, ◌&&◌, ◌||◌}
use mathlib.Core.Option.{Option, none, some}
use mathlib.Core.List.{List, [], ◌∷◌, ◌++◌}
use native.Mathlib.Omega.{arith}
use creidhne.Base.Tests.{if◌then◌else◌, leb, Bool-cases}
use creidhne.Base.Equality.{◌==◌, nat_eq, list_eq, list_beq, contains}

abbrev pub Str : Type 0
Str = List ℕ

-- A literal of the source. All of them are ASCII, so their bytes are their code points.
abbrev pub str : String → Str
str String.[] = []
str (String.◌∷◌ c s) = code c ∷ str s

-- `strings.CutPrefix(s, prefix)`
unfoldable pub cut_prefix : Str → Str → Option Str
cut_prefix s [] = some s
cut_prefix [] (p ∷ prefix) = none
cut_prefix (c ∷ s) (p ∷ prefix) = if c == p then cut_prefix s prefix else none

unfoldable pub has_prefix : Str → Str → Bool
unfolding cut_prefix
has_prefix s prefix = elim (cut_prefix s prefix) [ none ↦ false | some rest ↦ true ]

unfoldable pub trim_prefix : Str → Str → Str
unfolding cut_prefix
trim_prefix s prefix = elim (cut_prefix s prefix) [ none ↦ s | some rest ↦ rest ]

unfoldable pub has_suffix : Str → Str → Bool
unfolding list_beq
has_suffix [] suffix = list_beq [] suffix
has_suffix (c ∷ s) suffix = list_beq (c ∷ s) suffix || has_suffix s suffix

abbrev pub cons_before : ℕ → Option (Str × Str) → Option (Str × Str)
cons_before c none = none
cons_before c (some (a, b)) = some (c ∷ a, b)

-- `strings.Cut(s, sep)` at a separator of one byte: the text before and after the first one.
unfoldable pub cut_byte : Str → ℕ → Option (Str × Str)
cut_byte [] sep = none
cut_byte (c ∷ s) sep =
    let rest = cons_before c (cut_byte s sep) in if c == sep then some ([], s) else rest

abbrev pub cons_or_cut : ℕ → ℕ → Str → Option (Str × Str) → Option (Str × Str)
cons_or_cut c sep s none = if c == sep then some ([], s) else none
cons_or_cut c sep s (some (a, b)) = some (c ∷ a, b)

-- The same at the last separator: `s[:i]` and `s[i+1:]` for `i = strings.LastIndex(s, sep)`.
unfoldable pub cut_last : Str → ℕ → Option (Str × Str)
cut_last [] sep = none
cut_last (c ∷ s) sep = cons_or_cut c sep s (cut_last s sep)

-- `strings.Split(s, sep)` at a separator of one byte: never the empty list.
abbrev cons_first : ℕ → List Str → List Str
cons_first c [] = (c ∷ []) ∷ []
cons_first c (part ∷ parts) = (c ∷ part) ∷ parts

unfoldable pub split_byte : Str → ℕ → List Str
split_byte [] sep = [] ∷ []
split_byte (c ∷ s) sep =
    let rest = split_byte s sep in if c == sep then [] ∷ rest else cons_first c rest

-- `strings.Join(parts, sep)`
unfoldable pub join : List Str → Str → Str
join [] sep = []
join (part ∷ []) sep = part
join (part ∷ next ∷ parts) sep = part ++ (sep ++ join (next ∷ parts) sep)

-- `filepath.Base` of a path that has no trailing slash
abbrev base_or : Str → Option (Str × Str) → Str
base_or s none = s
base_or s (some (dir, last)) = last

abbrev dot_ext : Option (Str × Str) → Str
dot_ext none = []
dot_ext (some (stem, e)) = b'.' ∷ e

-- `filepath.Ext`: from the last dot of the last element on.
unfoldable pub ext : Str → Str
unfolding cut_last
ext s = dot_ext (cut_last (base_or s (cut_last s b'/')) b'.')

abbrev pub is_digit : ℕ → Bool
is_digit c = leb b'0' c && leb c b'9'

-- What a cut at the first separator promises.
abbrev pub CutsFirst : Str → ℕ → Option (Str × Str) → Type 0
CutsFirst s sep none = contains s sep ≡ false
CutsFirst s sep (some (a, b)) = (s ≡ a ++ sep ∷ b) × (contains a sep ≡ false)

abbrev pub CutsLast : Str → ℕ → Option (Str × Str) → Type 0
CutsLast s sep none = contains s sep ≡ false
CutsLast s sep (some (a, b)) = (s ≡ a ++ sep ∷ b) × (contains b sep ≡ false)

cons_before-CutsFirst :
    (c : ℕ) (s : Str) (sep : ℕ) (r : Option (Str × Str))
    → (c == sep) ≡ false
    → CutsFirst s sep r
    → CutsFirst (c ∷ s) sep (cons_before c r)
unfolding contains
cons_before-CutsFirst c s sep none h k = ground arith
cons_before-CutsFirst c s sep (some (a, b)) h k = ground arith

pub cut_byte-CutsFirst : (s : Str) (sep : ℕ) → CutsFirst s sep (cut_byte s sep)
unfolding cut_byte contains
cut_byte-CutsFirst [] sep = refl
cut_byte-CutsFirst (c ∷ s) sep = elim (Bool-cases (c == sep)) [
  | inl h ↦ rw h (ground arith, refl)
  | inr h ↦ rw h (cons_before-CutsFirst c s sep (cut_byte s sep) h (cut_byte-CutsFirst s sep))
]

cons_or_cut-CutsLast :
    (c : ℕ) (s : Str) (sep : ℕ) (r : Option (Str × Str))
    → CutsLast s sep r
    → CutsLast (c ∷ s) sep (cons_or_cut c sep s r)
unfolding contains
cons_or_cut-CutsLast c s sep none k = elim (Bool-cases (c == sep)) [
  | inl h ↦ rw h (ground arith, k)
  | inr h ↦ rw h (ground arith)
]
cons_or_cut-CutsLast c s sep (some (a, b)) k = ground arith

pub cut_last-CutsLast : (s : Str) (sep : ℕ) → CutsLast s sep (cut_last s sep)
unfolding cut_last contains
cut_last-CutsLast [] sep = refl
cut_last-CutsLast (c ∷ s) sep =
    cons_or_cut-CutsLast c s sep (cut_last s sep) (cut_last-CutsLast s sep)

cut_last-none : (s : Str) (sep : ℕ) → contains s sep ≡ false → cut_last s sep ≡ none
unfolding cut_last contains
cut_last-none [] sep h = refl
cut_last-none (c ∷ s) sep h = ground (arith, cut_last-none s sep)

-- A text that is put together from two parts is cut where they meet.
pub cut_last-append :
    (a b : Str) (sep : ℕ) → contains b sep ≡ false → cut_last (a ++ sep ∷ b) sep ≡ some (a, b)
unfolding cut_last
cut_last-append [] b sep h = rw (cut_last-none b sep h) (ground arith)
cut_last-append (c ∷ a) b sep h = rw (cut_last-append a b sep h)
