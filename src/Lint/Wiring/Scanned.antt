-- ===== src/Lint/Wiring/Scanned.antt =====
-- Which units the scan of the project has as the attachers of a network.
use creidhne.Base.{
  ◌≡◌, refl, ◌∙◌, ap, Bool, true, ◌&&◌, List, [], ◌∷◌, map, ◌==◌, list_eq, nat_eq, contains,
  is_distinct, Bool-cases, inl, inr, any, all, arith, if◌then◌else◌,
}
use creidhne.Base.Str.{Str, str, has_suffix}
use creidhne.Base.Dict
use creidhne.Base.Dict.{Dict}
use creidhne.Eval.Data.{UnitRecord, Quadlet}
use creidhne.Eval.Access.{nested_list}
use creidhne.Graph.Build.{each, each_unit, first_field, resource_strings}
use creidhne.Lint.Wiring.Attachers.{is_plain, IsLinked, Gains, attach-Gains}
use creidhne.Lint.Wiring.{
  Wiring, attachers_at, attach, attach_all, is_attachable, scan_unit, unwired, wiring,
}

-- The networks that a unit names.
unfoldable pub refs_of : UnitRecord → List Str
refs_of u =
    if u.kind == str "network"
    then []
    else if is_attachable u.kind
    then map first_field (resource_strings u (str "networkStrings"))
    else if u.kind == str "kube"
    then map first_field (nested_list u.unit_data (str "Kube") (str "Network"))
    else []

-- Whether some unit of the project with the filename `unit` names the network `ref`.
unfoldable pub names_network : Str → Str → UnitRecord → Bool
names_network ref unit u = contains (refs_of u) ref && unit == u.filename

unfoldable pub is_used_by : List Quadlet → Str → Str → Bool
is_used_by quads ref unit = any (λ q. any (names_network ref unit) q.units) quads

unfoldable pub has_plain_refs : List Quadlet → Bool
has_plain_refs quads = all (λ q. all (λ u. all is_plain (refs_of u)) q.units) quads

attach_all-Gains :
    (unit : Str) (refs : List Str) (w : Wiring)
    → all is_plain (map first_field refs) ≡ true
    → IsLinked w
    → Gains (λ r u. contains (map first_field refs) r && u == unit) w (attach_all unit refs w)
      × IsLinked (attach_all unit refs w)
unfolding attach_all each all contains
attach_all-Gains unit [] w plain h = (λ r u k s. ground arith, h)
attach_all-Gains unit (ref ∷ refs) w plain h =
    let (gains, linked) = attach-Gains unit (first_field ref) w (ground arith) h in
    let (gains', linked') =
      attach_all-Gains unit refs (attach unit (first_field ref) w) (ground arith) linked in
    (λ r u k s. ground (arith, gains r u k s, gains' r u k s), linked')

scan_unit-Gains :
    (q : Quadlet) (x : UnitRecord) (w : Wiring)
    → all is_plain (refs_of x) ≡ true
    → IsLinked w
    → Gains (λ r u. names_network r u x) w (scan_unit q x w) × IsLinked (scan_unit q x w)
unfolding scan_unit names_network refs_of attachers_at contains
scan_unit-Gains q x w plain h = elim (Bool-cases (x.kind == str "network")) [
  | inl k ↦ rw k (λ r u p s. ground arith, h)
  | inr k ↦ elim (Bool-cases (is_attachable x.kind)) [
    | inl k1 ↦
        let e : map first_field (resource_strings x (str "networkStrings")) ≡ refs_of x =
          rw (k, k1) refl in
        rw (k, k1)
          (attach_all-Gains x.filename (resource_strings x (str "networkStrings")) _
            (ap (all is_plain) e ∙ plain) h)
    | inr k1 ↦ elim (Bool-cases (x.kind == str "kube")) [
      | inl k2 ↦
          let e : map first_field (nested_list x.unit_data (str "Kube") (str "Network"))
              ≡ refs_of x =
            rw (k, k1, k2) refl in
          rw (k, k1, k2)
            (attach_all-Gains x.filename (nested_list x.unit_data (str "Kube") (str "Network")) _
              (ap (all is_plain) e ∙ plain) h)
      | inr k2 ↦ rw (k, k1, k2) (λ r u p s. ground arith, h)
    ]
  ]
]

scan_units-Gains :
    (q : Quadlet) (units : List UnitRecord) (w : Wiring)
    → all (λ u. all is_plain (refs_of u)) units ≡ true
    → IsLinked w
    → Gains (λ r u. any (names_network r u) units) w (each (scan_unit q) units w)
      × IsLinked (each (scan_unit q) units w)
unfolding each all any
scan_units-Gains q [] w plain h = (λ r u k s. ground arith, h)
scan_units-Gains q (x ∷ units) w plain h =
    let (gains, linked) = scan_unit-Gains q x w (ground arith) h in
    let (gains', linked') = scan_units-Gains q units (scan_unit q x w) (ground arith) linked in
    (λ r u k s. ground (arith, gains r u k s, gains' r u k s), linked')

scan_all-Gains :
    (quads : List Quadlet) (w : Wiring)
    → has_plain_refs quads ≡ true
    → IsLinked w
    → Gains (is_used_by quads) w (each_unit scan_unit quads w)
      × IsLinked (each_unit scan_unit quads w)
unfolding each each_unit all any has_plain_refs is_used_by
scan_all-Gains [] w plain h = (λ r u k s. ground arith, h)
scan_all-Gains (q ∷ quads) w plain h =
    let (gains, linked) = scan_units-Gains q q.units w (ground arith) h in
    let (gains', linked') =
      scan_all-Gains quads (each (scan_unit q) q.units w) (ground arith) linked in
    (λ r u k s. ground (arith, gains r u k s, gains' r u k s), linked')

scanned :
    (quads : List Quadlet)
    → has_plain_refs quads ≡ true
    → Gains (is_used_by quads) unwired (wiring quads) × IsLinked (wiring quads)
unfolding wiring attachers_at contains Dict.lookup
scanned quads plain = scan_all-Gains quads unwired plain (λ r u h. (refl, refl))

pub is_distinct-attachers_at :
    (quads : List Quadlet) (ref : Str)
    → has_plain_refs quads ≡ true
    → is_plain ref ≡ true
    → is_distinct (attachers_at ref (wiring quads)) ≡ true
is_distinct-attachers_at quads ref plain k = ((scanned quads plain).1 ref [] k).1

-- The attachers of a network are exactly the filenames of the containers, pods and kube units of the
-- project that name it, if no reference has the byte that joins the keys of the set of attachments,
-- and the network is named as a network unit.
pub attachers_at-wiring :
    (quads : List Quadlet) (ref unit : Str)
    → has_plain_refs quads ≡ true
    → is_plain ref ≡ true
    → has_suffix ref (str ".network") ≡ true
    → contains (attachers_at ref (wiring quads)) unit ≡ is_used_by quads ref unit
unfolding attachers_at contains Dict.lookup
attachers_at-wiring quads ref unit plain k s = (scanned quads plain).0 ref unit k s
