-- ===== src/Status/Blocked/Cause.antt =====
-- What the note "blocked" of a row says.
use mathlib.Core.Path.{fun_ext, subst}
use creidhne.Base.{
  ◌≡◌, refl, ◌∙◌, sym, ap, Bool, true, false, not, ◌&&◌, ◌||◌, Option, some, List, [], ◌∷◌, ◌++◌,
  ◌==◌, list_eq, nat_eq, contains, contains-append, beq→eq, any, All, map, is_nil, ◌⊎◌, inl, inr,
  arith, Bool-cases, if◌then◌else◌,
}
use creidhne.Base.Str.{Str}
use creidhne.Base.Dict
use creidhne.Base.Dict.{Dict}
use creidhne.Eval.Data.{UnitRecord, Quadlet}
use creidhne.Graph.Types.{GraphEdge}
use creidhne.Graph.Build.{build_graph}
use creidhne.Graph.Edges.{sorted_edges}
use creidhne.Systemd.Show.{UnitStatus}
use creidhne.Status.Types.{StatusRow}
use creidhne.Status.Input.{StatusInput}
use creidhne.Status.Rows.{unblocked_rows}
use creidhne.Status.Rows.Each.{unblocked_rows-All, row_at-unblocked}
use creidhne.Status.Blocked.{
  hard_dep_rels, adj_at, or_nil, hard_edges, is_failed, failed_in, failed_units, or_empty, is_down,
  first_failed_dep, block_row, whole_project, annotate_with, annotate_blocked, classify_rows,
}
use creidhne.Status.Blocked.Walk.{Chain, next, Found, first_failed_dep-Found}

-- A hard edge of the graph leads from one unit to the other.
unfoldable pub requires : List GraphEdge → Str → Str → Bool
requires [] m n = false
requires (e ∷ es) m n =
    (contains hard_dep_rels e.rel && (m == e.from && n == e.to)) || requires es m n

-- The service of some unit with this file has failed.
abbrev pub unit_failed : Dict Str UnitStatus → List Quadlet → Str → Bool
unit_failed runtime quads n =
    any
      (λ q.
        any
          (λ u.
            n == u.filename
            && (not (is_nil u.service) && is_failed (Dict.lookup u.service runtime)))
          q.units)
      quads

or_nil-if :
    (b : Bool) (ns : List Str) (o : Option (List Str))
    → or_nil (if b then some ns else o) ≡ (if b then ns else or_nil o)
or_nil-if true ns o = refl
or_nil-if false ns o = refl

abbrev with_blocked : StatusRow → Str → StatusRow
with_blocked r v = record r { blocked = v }

nil-has : (m : Dict Str Bool) (n : Str) → is_nil m ≡ true → Dict.has n m ≡ false
unfolding Dict.has Dict.lookup
nil-has [] n e = refl
nil-has (p ∷ m) n e = absurd (cc e)

adj_at-insert :
    (adj : Dict Str (List Str)) (k : Str) (ns : List Str) (m : Str)
    → adj_at (Dict.insert k ns adj) m ≡ (if m == k then ns else adj_at adj m)
unfolding adj_at
adj_at-insert adj k ns m =
    ap or_nil (Dict.lookup-insert m k ns adj) ∙ or_nil-if (m == k) ns (Dict.lookup m adj)

-- One more edge from `k` to `l`.
next-insert :
    (adj : Dict Str (List Str)) (k l m n : Str)
    → next (Dict.insert k (adj_at adj k ++ l ∷ []) adj) m n ≡ ((m == k && n == l) || next adj m n)
unfolding contains
next-insert adj k l m n =
    let same = (λ (e : (m == k) ≡ true). ap (λ x. next adj x n) (beq→eq {a = m} {b = k} e)) in
    ap (λ xs. contains xs n) (adj_at-insert adj k (adj_at adj k ++ l ∷ []) m)
    ∙ elim (Bool-cases (m == k)) [
      | inl e ↦ rw (e, contains-append n (adj_at adj k) (l ∷ [])) (ground (arith, same e))
      | inr e ↦ rw e refl
    ]

next-hard_edges :
    (es : List GraphEdge) (adj : Dict Str (List Str)) (m n : Str)
    → next (hard_edges es adj) m n ≡ (requires es m n || next adj m n)
unfolding hard_edges requires
next-hard_edges [] adj m n = refl
next-hard_edges (e ∷ es) adj m n = elim (Bool-cases (contains hard_dep_rels e.rel)) [
  | inl hard ↦
      rw
        (
          hard,
          next-hard_edges es (Dict.insert e.from (adj_at adj e.from ++ e.to ∷ []) adj) m n,
          next-insert adj e.from e.to m n,
        )
        (ground arith)
  | inr soft ↦ rw (soft, next-hard_edges es adj m n) refl
]

module _ (runtime : Dict Str UnitStatus) (n : Str) where
  abbrev has_failed : UnitRecord → Bool
  has_failed u =
      n == u.filename && (not (is_nil u.service) && is_failed (Dict.lookup u.service runtime))

  failed_in-any :
      (us : List UnitRecord) (failed : Dict Str Bool)
      → Dict.has n (failed_in runtime us failed) ≡ (any has_failed us || Dict.has n failed)
  unfolding failed_in any
  failed_in-any [] failed = refl
  failed_in-any (u ∷ us) failed =
      elim (Bool-cases (not (is_nil u.service) && is_failed (Dict.lookup u.service runtime))) [
        | inl bad ↦
            rw
              (
                bad,
                failed_in-any us (Dict.insert u.filename true failed),
                Dict.has-insert n u.filename true failed,
              )
              (ground arith)
        | inr fine ↦ rw (fine, failed_in-any us failed) (ground arith)
      ]

  failed_units-any :
      (qs : List Quadlet) (failed : Dict Str Bool)
      → Dict.has n (failed_units runtime qs failed)
        ≡ (unit_failed runtime qs n || Dict.has n failed)
  unfolding failed_units any
  failed_units-any [] failed = refl
  failed_units-any (q ∷ qs) failed =
      rw (failed_units-any qs (failed_in runtime q.units failed), failed_in-any q.units failed)
        (ground arith)

module _ (s : StatusInput) where
  -- The hard dependencies of the whole project.
  abbrev pub project_requires : Str → Str → Bool
  project_requires = requires (sorted_edges (build_graph (whole_project s) (whole_project s)))

  -- What a row says of the runtime states: a unit that is down names a failed unit that it
  -- requires, directly or not, or there is none but itself.
  pub data Explained (runtime : Dict Str UnitStatus) (r : StatusRow) : Type 0 where
    up : is_down r ≡ false → r.blocked ≡ [] → Explained runtime r
    blamed :
        is_down r ≡ true
        → Chain project_requires r.path r.blocked
        → unit_failed runtime (whole_project s) r.blocked ≡ true
        → Explained runtime r
    clear :
        is_down r ≡ true
        → r.blocked ≡ []
        → ((n : Str)
            → Chain project_requires r.path n
            → (n ≡ r.path) ⊎ (unit_failed runtime (whole_project s) n ≡ false))
        → Explained runtime r

  abbrev adj : Dict Str (List Str)
  adj = hard_edges (sorted_edges (build_graph (whole_project s) (whole_project s))) []

  next_none : (m n : Str) → (project_requires m n || next [] m n) ≡ project_requires m n
  unfolding adj_at Dict.lookup contains
  next_none m n = ground arith

  next-project_requires : next adj ≡ project_requires
  next-project_requires = fun_ext (λ m. fun_ext (λ n.
      next-hard_edges (sorted_edges (build_graph (whole_project s) (whole_project s))) [] m n
      ∙ next_none m n))

  module _ (runtime : Dict Str UnitStatus) where
    abbrev failed : Dict Str Bool
    failed = failed_units runtime (whole_project s) []

    has-failed : (n : Str) → Dict.has n failed ≡ unit_failed runtime (whole_project s) n
    unfolding Dict.has Dict.lookup
    has-failed n = failed_units-any runtime n (whole_project s) [] ∙ ground arith

    explain :
        (r : StatusRow) (v : Str)
        → is_down r ≡ true
        → Found adj failed r.path v
        → Explained runtime (record r { blocked = v })
    unfolding is_down
    explain r v down (Found.culprit c bad) =
        blamed down (subst (λ step. Chain step r.path v) next-project_requires c)
          (sym (has-failed v) ∙ bad)
    explain r v down (Found.nothing all_fine) = clear down refl (λ n c.
        subst (λ b. (n ≡ r.path) ⊎ (b ≡ false)) (has-failed n)
          (all_fine n (subst (λ step. Chain step r.path n) (sym next-project_requires) c)))

    block_row-down :
        (r : StatusRow) (v : Str)
        → is_down r ≡ true
        → first_failed_dep r.path adj failed ≡ some v
        → block_row adj failed r ≡ record r { blocked = v }
    unfolding block_row
    block_row-down r v down e = rw down (ap (λ o. with_blocked r (or_empty o)) e)

    block_row-Explained :
        (r : StatusRow) → r.blocked ≡ [] → Explained runtime (block_row adj failed r)
    unfolding block_row
    block_row-Explained r free = elim (Bool-cases (is_down r)) [
      | inl down ↦
          let (v, e, found) = first_failed_dep-Found r.path adj failed in
          subst (Explained runtime) (sym (block_row-down r v down e)) (explain r v down found)
      | inr running ↦ rw running (up running free)
    ]

    block_rows-Explained :
        (rows : List StatusRow)
        → All (λ r. r.blocked ≡ []) rows
        → All (Explained runtime) (map (block_row adj failed) rows)
    block_rows-Explained [] free = tt
    block_rows-Explained (r ∷ rows) (f, free) =
        (block_row-Explained r f, block_rows-Explained rows free)

    none_failed-Explained :
        (rows : List StatusRow)
        → is_nil failed ≡ true
        → All (λ r. r.blocked ≡ []) rows
        → All (Explained runtime) rows
    none_failed-Explained [] none_bad free = tt
    none_failed-Explained (r ∷ rows) none_bad (f, free) = (
      elim (Bool-cases (is_down r)) [
        | inl down ↦ clear down f (λ n c. inr (sym (has-failed n) ∙ nil-has failed n none_bad))
        | inr running ↦ up running f
      ],
      none_failed-Explained rows none_bad free,
    )

annotate_with-Explained :
    (s : StatusInput) (runtime : Dict Str UnitStatus) (rows : List StatusRow)
    → is_nil s.desired_units ≡ false
    → All (λ r. r.blocked ≡ []) rows
    → All (Explained s runtime) (annotate_with (some runtime) s rows)
annotate_with-Explained s runtime rows units free =
    elim (Bool-cases (is_nil (failed_units runtime (whole_project s) []))) [
      | inl fine ↦ rw (units, fine) (none_failed-Explained s runtime rows fine free)
      | inr bad ↦ rw (units, bad) (block_rows-Explained s runtime rows free)
    ]

-- Where the units were evaluated and systemd answered, each row of the status is explained: a row
-- is marked as blocked only if its unit is down, and then by a unit whose service has failed and
-- that the hard dependencies of the whole project lead to; a unit that is down and has no mark
-- depends on no failed unit other than itself.
pub classify_rows-Explained :
    (hash_bytes : Str → Str) (s : StatusInput) (runtime : Dict Str UnitStatus)
    → s.runtime ≡ some runtime
    → is_nil s.desired_units ≡ false
    → All (Explained s runtime) (classify_rows hash_bytes s)
unfolding classify_rows annotate_blocked
classify_rows-Explained hash_bytes s runtime known units =
    let free =
      unblocked_rows-All hash_bytes s (λ r. r.blocked ≡ [])
        (λ p h. row_at-unblocked hash_bytes s p) in
    subst (λ o. All (Explained s runtime) (annotate_with o s (unblocked_rows hash_bytes s)))
      (sym known) (annotate_with-Explained s runtime (unblocked_rows hash_bytes s) units free)
