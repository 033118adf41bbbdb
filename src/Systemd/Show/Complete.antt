-- ===== src/Systemd/Show/Complete.antt =====
-- A response that is accepted is complete, and its statuses stand under their own names.
use creidhne.Base.{
  ℕ, ◌≡◌, refl, sym, ap, ◌∙◌, Bool, true, not, ◌==◌, Option, none, some, List, [], ◌∷◌, Result, ok,
  ok-injective, Result-cases, list_eq, nat_eq, is_nil, select, All, inl, inr, beq→eq, Bool-cases,
}
use mathlib.Core.Path.{subst}
use mathlib.Core.Option.{some-injective}
use creidhne.Base.Str.{Str, cut_byte}
use creidhne.Base.Dict
use creidhne.Base.Dict.{Dict}
use creidhne.Systemd.Show.{
  UnitStatus, Scan, status_of, block_name, flush_as, flush, add_cut, scan_line, scan_all,
  parse_show, complete, show_args, show,
}

abbrev pub AllPresent : List Str → Dict Str UnitStatus → Type 0
AllPresent units m = All (λ u. Dict.has u m ≡ true) units

select-AllPresent :
    (m : Dict Str UnitStatus) (units : List Str)
    → is_nil (select (λ u. not (Dict.has u m)) units) ≡ true
    → AllPresent units m
unfolding select
select-AllPresent m [] h = tt
select-AllPresent m (u ∷ us) h = elim (Bool-cases (Dict.has u m)) [
  | inl e ↦ (e, select-AllPresent m us (rw e at h))
  | inr e ↦ absurd (cc (rw e at h))
]

-- Each status stands under the name of its unit.
abbrev pub IsNamed : Dict Str UnitStatus → Type 0
IsNamed m = (n : Str) (st : UnitStatus) → Dict.lookup n m ≡ some st → st.name ≡ n

insert-IsNamed :
    (name : Str) (st : UnitStatus) (m : Dict Str UnitStatus)
    → st.name ≡ name
    → IsNamed m
    → IsNamed (Dict.insert name st m)
insert-IsNamed name st m e h n st' k = elim (Bool-cases (n == name)) [
  | inl same ↦
      sym
        (ap (λ x. x.name) (some-injective st st' (rw (Dict.lookup-insert n name st m, same) at k)))
      ∙ (e ∙ sym (beq→eq {a = n} {b = name} same))
  | inr other ↦ h n st' (rw (Dict.lookup-insert n name st m, other) at k)
]

module _ (parse_time : Str → Option ℕ) where
  flush_as-IsNamed :
      (name : Str) (s : Scan) → IsNamed s.statuses → IsNamed (flush_as parse_time name s).statuses
  unfolding flush_as status_of
  flush_as-IsNamed [] s h = h
  flush_as-IsNamed (c ∷ name) s h =
      insert-IsNamed (c ∷ name) (status_of parse_time (c ∷ name) s.block) s.statuses refl h

  flush-IsNamed :
      (requested : List Str) (s : Scan)
      → IsNamed s.statuses
      → IsNamed (flush parse_time requested s).statuses
  unfolding flush
  flush-IsNamed requested s h = elim (Bool-cases (is_nil s.block)) [
    | inl e ↦ rw e h
    | inr e ↦ rw e (flush_as-IsNamed (block_name requested s) s h)
  ]

  add_cut-IsNamed :
      (o : Option (Str × Str)) (s : Scan) → IsNamed s.statuses → IsNamed (add_cut o s).statuses
  add_cut-IsNamed none s h = h
  add_cut-IsNamed (some (k, v)) s h = h

  scan_line-IsNamed :
      (requested : List Str) (line : Str) (s : Scan)
      → IsNamed s.statuses
      → IsNamed (scan_line parse_time requested line s).statuses
  unfolding scan_line
  scan_line-IsNamed requested [] s h = flush-IsNamed requested s h
  scan_line-IsNamed requested (c ∷ line) s h = add_cut-IsNamed (cut_byte (c ∷ line) b'=') s h

  scan_all-IsNamed :
      (requested lines : List Str) (s : Scan)
      → IsNamed s.statuses
      → IsNamed (scan_all parse_time requested lines s).statuses
  unfolding scan_all
  scan_all-IsNamed requested [] s h = flush-IsNamed requested s h
  scan_all-IsNamed requested (line ∷ lines) s h =
      scan_all-IsNamed requested lines (scan_line parse_time requested line s)
        (scan_line-IsNamed requested line s h)

  module _ (scan_lines : Str → List Str) where
    parse_show-IsNamed :
        (out : Str) (requested : List Str)
        → IsNamed (parse_show parse_time scan_lines out requested)
    unfolding parse_show Dict.lookup
    parse_show-IsNamed out requested =
        scan_all-IsNamed requested (scan_lines out) _ (λ n st k. absurd (cc k))

    complete-AllPresent :
        (units : List Str) (parsed m : Dict Str UnitStatus)
        → complete units parsed ≡ ok m
        → (parsed ≡ m) × AllPresent units m
    unfolding complete
    complete-AllPresent units parsed m h = elim (Bool-cases (is_nil parsed)) [
      | inl none_parsed ↦ absurd (cc (rw none_parsed at h))
      | inr some_parsed ↦ elim (Bool-cases (is_nil (select (λ u. not (Dict.has u parsed)) units))) [
        | inl e ↦
            (let same = ok-injective (rw (some_parsed, e) at h) in
              (same, subst (AllPresent units) same (select-AllPresent parsed units e)))
        | inr e ↦ absurd (cc (rw (some_parsed, e) at h))
      ]
    ]

    -- If the state of some units is shown without an error, every requested unit has a status, and
    -- each status stands under the name of its unit.
    pub show-AllPresent :
        (run : List Str → Result Str Str) (user_scope : Bool) (units : List Str)
        (m : Dict Str UnitStatus)
        → show parse_time scan_lines run user_scope units ≡ ok m
        → AllPresent units m × IsNamed m
    unfolding show Dict.lookup
    show-AllPresent run user_scope [] m h =
        (tt, subst IsNamed (ok-injective h) (λ n st k. absurd (cc k)))
    show-AllPresent run user_scope (u ∷ us) m h =
        elim (Result-cases (run (show_args user_scope (u ∷ us)))) [
          | inl (out, e) ↦
              (let (same, present) = complete-AllPresent (u ∷ us) _ m (rw e at h) in
                (present, subst IsNamed same (parse_show-IsNamed out (u ∷ us))))
          | inr (why, e) ↦ absurd (cc (rw e at h))
        ]
