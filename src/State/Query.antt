-- ===== src/State/Query.antt =====
-- `InEffectAt`, `FileOwner` and `FileRecord`.
use mathlib.Core.List.{reverse}
use creidhne.Base.{
  ◌≡◌, All, beq→eq, Bool-cases, inl, inr, not, Option, none, some, List, [], ◌∷◌, ◌==◌, list_eq,
  nat_eq, ltb, is_nil, if◌then◌else◌,
}
use creidhne.Base.Str.{Str}
use creidhne.Base.Dict
use creidhne.Base.Dict.{Dict}
use creidhne.State.Types.{Time, Revision, File, QuadletRecord, State}

-- `content, content != ""`, `none` for a false `ok`
unfoldable pub recorded : Str → Option Str
recorded content = if is_nil content then none else some content

-- The loop over the history from its end, on the reversed list.
unfoldable pub latest : Time → List Revision → Option Str
latest t [] = none
latest t (r ∷ rs) =
    let rest = latest t rs in if not (ltb t r.applied_at) then recorded r.content else rest

unfoldable pub in_effect_at : File → Time → Option Str
in_effect_at f t =
    if not (ltb t f.applied_at) then recorded f.content else latest t (reverse f.history)

own_files : Str → List File → Dict Str Str → Dict Str Str
own_files name [] owner = owner
own_files name (f ∷ fs) owner = own_files name fs (Dict.insert f.path name owner)

own_all : Dict Str QuadletRecord → Dict Str Str → Dict Str Str
own_all [] owner = owner
own_all ((name, q) ∷ qs) owner = own_all qs (own_files name q.files owner)

-- The method on a nil state returns a nil map.
unfoldable pub file_owner : Option State → Dict Str Str
unfolding own_all own_files
file_owner none = []
file_owner (some s) = own_all s.quadlets []

find_file : Str → List File → Option File
find_file path [] = none
find_file path (f ∷ fs) = if f.path == path then some f else find_file path fs

find_in : Str → Dict Str QuadletRecord → Option File
find_in path [] = none
find_in path ((name, q) ∷ qs) =
    let rest = find_in path qs in elim (find_file path q.files) [ none ↦ rest | some f ↦ some f ]

unfoldable pub file_record : Option State → Str → Option File
unfolding find_in find_file
file_record none path = none
file_record (some s) path = find_in path s.quadlets

-- All recorded files have the property.
abbrev pub EachFile : (File → Type 0) → Dict Str QuadletRecord → Type 0
EachFile P [] = Unit
EachFile P ((name, q) ∷ qs) = All P q.files × EachFile P qs

abbrev pub Recorded : (File → Type 0) → Str → Option File → Type 0
Recorded P path none = Unit
Recorded P path (some f) = (f.path ≡ path) × P f

find_file-Recorded :
    (P : File → Type 0) (path : Str) (fs : List File)
    → All P fs
    → Recorded P path (find_file path fs)
unfolding find_file
find_file-Recorded P path [] h = tt
find_file-Recorded P path (f ∷ fs) (h, hs) = elim (Bool-cases (f.path == path)) [
  | inl same ↦ rw same (beq→eq {a = f.path} {b = path} same, h)
  | inr other ↦ rw other (find_file-Recorded P path fs hs)
]

first-Recorded :
    (P : File → Type 0) (path : Str) (o next : Option File)
    → Recorded P path o
    → Recorded P path next
    → Recorded P path (elim o [ none ↦ next | some f ↦ some f ])
first-Recorded P path none next h k = k
first-Recorded P path (some f) next h k = h

find_in-Recorded :
    (P : File → Type 0) (path : Str) (qs : Dict Str QuadletRecord)
    → EachFile P qs
    → Recorded P path (find_in path qs)
unfolding find_in
find_in-Recorded P path [] h = tt
find_in-Recorded P path ((name, q) ∷ qs) (h, hs) =
    first-Recorded P path (find_file path q.files) (find_in path qs)
      (find_file-Recorded P path q.files h) (find_in-Recorded P path qs hs)

-- What is found has the properties that all recorded files have.
pub file_record-Recorded :
    (P : File → Type 0) (path : Str) (s : State)
    → EachFile P s.quadlets
    → Recorded P path (file_record (some s) path)
unfolding file_record
file_record-Recorded P path s h = find_in-Recorded P path s.quadlets h
