-- ===== src/Lint/Wiring/Owners.antt =====
-- Which quadlet the scan of the project has as the owner of a unit.
use creidhne.Base.{
  ◌≡◌, refl, ◌∙◌, ap, Bool, not, ◌||◌, ◌==◌, List, [], ◌∷◌, list_eq, nat_eq, contains, any,
  Bool-cases, inl, inr, arith, if◌then◌else◌,
}
use creidhne.Base.Str.{Str, str, has_suffix}
use creidhne.Base.Dict
use creidhne.Base.Dict.{Dict}
use creidhne.Eval.Data.{UnitRecord, Quadlet}
use creidhne.Eval.Access.{nested_list}
use creidhne.Graph.Build.{each, each_unit, first_field, resource_strings}
use creidhne.Lint.Wiring.{
  Wiring, attach, attach_all, attach_key, is_attachable, owner_of, same_owner, scan_unit, unwired,
  wiring,
}

abbrev pub has_unit : Str → List UnitRecord → Bool
has_unit unit units = any (λ u. unit == u.filename) units

-- The name of the last quadlet that has a unit with the filename, or `found` if none has.
abbrev pub owner_from : Str → List Quadlet → Str → Str
owner_from unit [] found = found
owner_from unit (q ∷ quads) found =
    owner_from unit quads (if has_unit unit q.units then q.name else found)

-- Both are units of one quadlet of the project.
abbrev pub is_shared : List Quadlet → Str → Str → Bool
is_shared quads a b = owner_from a quads [] == owner_from b quads []

attach-owner : (unit ref : Str) (w : Wiring) → (attach unit ref w).owner ≡ w.owner
unfolding attach
attach-owner unit ref w =
    elim (Bool-cases
      (not (has_suffix ref (str ".network")) || contains w.attached (attach_key ref unit))) [
        | inl skip ↦ rw skip refl
        | inr new ↦ rw new refl
      ]

attach_all-owner :
    (unit : Str) (refs : List Str) (w : Wiring) → (attach_all unit refs w).owner ≡ w.owner
unfolding attach_all each
attach_all-owner unit [] w = refl
attach_all-owner unit (ref ∷ refs) w =
    attach_all-owner unit refs (attach unit (first_field ref) w)
    ∙ attach-owner unit (first_field ref) w

scan_unit-owner :
    (q : Quadlet) (x : UnitRecord) (w : Wiring)
    → (scan_unit q x w).owner ≡ Dict.insert x.filename q.name w.owner
unfolding scan_unit
scan_unit-owner q x w = elim (Bool-cases (x.kind == str "network")) [
  | inl k ↦ rw k refl
  | inr k ↦ elim (Bool-cases (is_attachable x.kind)) [
    | inl k1 ↦
        rw (k, k1) (attach_all-owner x.filename (resource_strings x (str "networkStrings")) _)
    | inr k1 ↦ elim (Bool-cases (x.kind == str "kube")) [
      | inl k2 ↦
          rw (k, k1, k2)
            (attach_all-owner x.filename (nested_list x.unit_data (str "Kube") (str "Network")) _)
      | inr k2 ↦ rw (k, k1, k2) refl
    ]
  ]
]

-- The owner of a unit in the map.
abbrev owner_at : Str → Wiring → Str
owner_at unit w = owner_of (Dict.lookup unit w.owner)

scan_unit-owner_at :
    (unit : Str) (q : Quadlet) (x : UnitRecord) (w : Wiring)
    → owner_at unit (scan_unit q x w) ≡ (if unit == x.filename then q.name else owner_at unit w)
scan_unit-owner_at unit q x w =
    ap (λ m. owner_of (Dict.lookup unit m)) (scan_unit-owner q x w)
    ∙ ap owner_of (Dict.lookup-insert unit x.filename q.name w.owner)
    ∙ ground arith

scan_units-owner_at :
    (unit : Str) (q : Quadlet) (units : List UnitRecord) (w : Wiring)
    → owner_at unit (each (scan_unit q) units w)
      ≡ (if has_unit unit units then q.name else owner_at unit w)
unfolding each any
scan_units-owner_at unit q [] w = refl
scan_units-owner_at unit q (x ∷ units) w =
    ground
      (arith, scan_units-owner_at unit q units (scan_unit q x w), scan_unit-owner_at unit q x w)

scan_all-owner_at :
    (unit : Str) (quads : List Quadlet) (w : Wiring)
    → owner_at unit (each_unit scan_unit quads w) ≡ owner_from unit quads (owner_at unit w)
unfolding each each_unit
scan_all-owner_at unit [] w = refl
scan_all-owner_at unit (q ∷ quads) w =
    scan_all-owner_at unit quads (each (scan_unit q) q.units w)
    ∙ ap (owner_from unit quads) (scan_units-owner_at unit q q.units w)

wiring-owner_at :
    (unit : Str) (quads : List Quadlet) → owner_at unit (wiring quads) ≡ owner_from unit quads []
unfolding wiring Dict.lookup
wiring-owner_at unit quads = scan_all-owner_at unit quads unwired

pub same_owner-wiring :
    (quads : List Quadlet) (a b : Str) → same_owner (wiring quads) a b ≡ is_shared quads a b
unfolding same_owner
same_owner-wiring quads a b = rw (wiring-owner_at a quads, wiring-owner_at b quads) refl
