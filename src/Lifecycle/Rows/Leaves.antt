-- ===== src/Lifecycle/Rows/Leaves.antt =====
-- Which rows are selected.
use mathlib.Core.Path.{fun_ext}
use creidhne.Base.{
  ◌≡◌, refl, ap, ◌∙◌, Bool, true, not, ◌&&◌, ◌||◌, ◌==◌, List, [], ◌∷◌, list_eq, nat_eq, any,
  select, inl, inr, arith, Bool-cases,
}
use creidhne.Base.Str.{Str}
use creidhne.Base.Dict
use creidhne.Base.Dict.{Dict}
use creidhne.Status.Types.{StatusRow}
use creidhne.Lifecycle.Rows.{is_runnable, leaves_by_quad, keep_rows, runnable_rows}

-- Some unit of the quadlet is a leaf that runs.
abbrev pub has_leaf : List StatusRow → Str → Bool
has_leaf rows quadlet = any (λ r. quadlet == r.quadlet && is_runnable r) rows

leaves_by_quad-has_leaf :
    (q : Str) (rows : List StatusRow) (m : Dict Str Bool)
    → Dict.has q (leaves_by_quad rows m) ≡ (Dict.has q m || has_leaf rows q)
unfolding leaves_by_quad any
leaves_by_quad-has_leaf q [] m = ground arith
leaves_by_quad-has_leaf q (r ∷ rows) m = elim (Bool-cases (is_runnable r)) [
  | inl h ↦
      rw
        (
          h,
          leaves_by_quad-has_leaf q rows (Dict.insert r.quadlet true m),
          Dict.has-insert q r.quadlet true m,
        )
        (ground arith)
  | inr h ↦ rw (h, leaves_by_quad-has_leaf q rows m) (ground arith)
]

keep_rows-select :
    (leaves : Dict Str Bool) (rows : List StatusRow)
    → keep_rows leaves rows ≡ select (λ r. is_runnable r || not (Dict.has r.quadlet leaves)) rows
unfolding keep_rows select
keep_rows-select leaves [] = refl
keep_rows-select leaves (r ∷ rows) = rw (keep_rows-select leaves rows) refl

has_leaves :
    (q : Str) (rows : List StatusRow) → Dict.has q (leaves_by_quad rows []) ≡ has_leaf rows q
unfolding Dict.has Dict.lookup
has_leaves q rows = leaves_by_quad-has_leaf q rows []

-- The rows that start and stop act on are, in their order, those of units that run, and all rows
-- of the quadlets that have no such unit.
pub runnable_rows-select :
    (rows : List StatusRow)
    → runnable_rows rows ≡ select (λ r. is_runnable r || not (has_leaf rows r.quadlet)) rows
unfolding runnable_rows
runnable_rows-select rows =
    keep_rows-select (leaves_by_quad rows []) rows
    ∙ ap (λ f. select (λ r. is_runnable r || not (f r)) rows)
        (fun_ext (λ r. has_leaves r.quadlet rows))
