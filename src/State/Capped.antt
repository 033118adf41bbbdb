-- ===== src/State/Capped.antt =====
-- The bound on the versions that a state retains.
use mathlib.Core.Path.{subst}
use creidhne.Base.{
  ◌-◌, ◌≤◌, ◌≡◌, refl, Option, none, some, List, [], ◌∷◌, map, ◌==◌, list_eq, nat_eq, length,
  length-drop, All, Option-cases, Bool-cases, inl, inr, arith,
}
use creidhne.Base.Str.{Str}
use creidhne.Base.Order.{sort, str_order}
use creidhne.Base.Dict
use creidhne.Base.Dict.{Dict}
use creidhne.Eval.Data.{Quadlet}
use creidhne.State.Types.{Time, Revision, File, QuadletRecord, State, FileInput, history_cap}
use creidhne.State.Build.{
  cap_history, superseded, carry, carry_from, new_file, build_file, input_at, build_files,
  index_files, prev_files, inputs_of, build_quadlet, build_loop, build,
}

abbrev pub FitsCap : File → Type 0
FitsCap f = length f.history ≤ history_cap

-- Every file of every quadlet fits.
pub record IsCapped (s : State) : Type 0 where
  pub at :
      (name : Str) (q : QuadletRecord) → Dict.lookup name s.quadlets ≡ some q → All FitsCap q.files

cap_history_bound : (history : List Revision) → length (cap_history history) ≤ history_cap
unfolding cap_history
cap_history_bound history = omega (arith, length-drop (length history - history_cap) history)

carry-FitsCap : (pf f : File) → FitsCap pf → FitsCap (carry pf f)
unfolding carry
carry-FitsCap pf f h = ground (arith, cap_history_bound (superseded pf))

abbrev AllAt : Dict Str File → Type 0
AllAt m = (path : Str) (f : File) → Dict.lookup path m ≡ some f → FitsCap f

insert-AllAt : (f : File) (m : Dict Str File) → FitsCap f → AllAt m → AllAt (Dict.insert f.path f m)
insert-AllAt f m h k path g e = ground (arith, k path g, Dict.lookup-insert path f.path f m)

index_files-AllAt :
    (m : Dict Str File) (fs : List File) → All FitsCap fs → AllAt m → AllAt (index_files m fs)
unfolding index_files
index_files-AllAt m [] h k = k
index_files-AllAt m (f ∷ fs) h k =
    index_files-AllAt (Dict.insert f.path f m) fs h.1 (insert-AllAt f m h.0 k)

empty-AllAt : AllAt []
unfolding Dict.lookup
empty-AllAt path f e = absurd (ground arith)

carry_from-FitsCap :
    (o : Option File) (f : File)
    → FitsCap f
    → ((pf : File) → o ≡ some pf → FitsCap pf)
    → FitsCap (carry_from o f)
unfolding carry_from
carry_from-FitsCap none f h k = h
carry_from-FitsCap (some pf) f h k = carry-FitsCap pf f (k pf refl)

-- The invariant of what a build starts from: no state, or one that fits.
abbrev pub StartsCapped : Option State → Type 0
StartsCapped none = Unit
StartsCapped (some s) = IsCapped s

prev_files-AllAt :
    (prev : Option State) (name : Str) → StartsCapped prev → AllAt (prev_files prev name)
unfolding prev_files
prev_files-AllAt none name h = empty-AllAt
prev_files-AllAt (some s) name h = elim (Option-cases (Dict.lookup name s.quadlets)) [
  | inl absent ↦ rw (absent, prev_files) empty-AllAt
  | inr (q, present) ↦
      rw (present, prev_files) (index_files-AllAt [] q.files (h.at name q present) empty-AllAt)
]

module _ (sha256 : Str → Str) (now : Time) where
  build_file-FitsCap :
      (m : Dict Str File) (path : Str) (file_in : FileInput)
      → AllAt m
      → FitsCap (build_file sha256 now m path file_in)
  unfolding build_file new_file
  build_file-FitsCap m path file_in h =
      carry_from-FitsCap (Dict.lookup path m) _ (omega arith) (h path)

  map-FitsCap :
      (m : Dict Str File) (files : Dict Str FileInput) (paths : List Str)
      → AllAt m
      → All FitsCap (map (λ path. build_file sha256 now m path (input_at files path)) paths)
  map-FitsCap m files [] h = tt
  map-FitsCap m files (path ∷ paths) h =
      (build_file-FitsCap m path (input_at files path) h, map-FitsCap m files paths h)

  build_quadlet-FitsCap :
      (prev : Option State) (files : Dict Str (Dict Str FileInput)) (q : Quadlet)
      → StartsCapped prev
      → All FitsCap (build_quadlet sha256 now prev files q).files
  unfolding build_quadlet build_files
  build_quadlet-FitsCap prev files q h =
      map-FitsCap (prev_files prev q.name) (inputs_of files q.name)
        (sort (Dict.keys (inputs_of files q.name))) (prev_files-AllAt prev q.name h)

  abbrev EachFits : Dict Str QuadletRecord → Type 0
  EachFits m = (name : Str) (q : QuadletRecord) → Dict.lookup name m ≡ some q → All FitsCap q.files

  insert-EachFits :
      (name : Str) (q : QuadletRecord) (m : Dict Str QuadletRecord)
      → All FitsCap q.files
      → EachFits m
      → EachFits (Dict.insert name q m)
  insert-EachFits name q m h k other r e = elim (Bool-cases (other == name)) [
    | inl same ↦
        let e' : q ≡ r = ground (arith, Dict.lookup-insert other name q m) in
        subst (λ (x : QuadletRecord). All FitsCap x.files) e' h
    | inr differs ↦ k other r (ground (arith, Dict.lookup-insert other name q m))
  ]

  build_loop-EachFits :
      (prev : Option State) (files : Dict Str (Dict Str FileInput)) (m : Dict Str QuadletRecord)
      (qs : List Quadlet)
      → StartsCapped prev
      → EachFits m
      → EachFits (build_loop sha256 now prev files m qs)
  unfolding build_loop
  build_loop-EachFits prev files m [] h k = k
  build_loop-EachFits prev files m (q ∷ qs) h k =
      let rec = build_quadlet sha256 now prev files q in
      build_loop-EachFits prev files (Dict.insert q.name rec m) qs h
        (insert-EachFits q.name rec m (build_quadlet-FitsCap prev files q h) k)

  -- No file of a built state retains more than `historyCap` versions, if no file of the last
  -- state did.
  pub build-IsCapped :
      (crei_version : Str) (prev : Option State) (quads : List Quadlet)
      (files : Dict Str (Dict Str FileInput))
      → StartsCapped prev
      → IsCapped (build sha256 now crei_version prev quads files)
  unfolding build Dict.lookup
  build-IsCapped crei_version prev quads files h = record {
    at = build_loop-EachFits prev files [] quads h (λ name q e. absurd (ground arith));
  }
