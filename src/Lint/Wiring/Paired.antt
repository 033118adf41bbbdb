-- ===== src/Lint/Wiring/Paired.antt =====
-- Which pair networks the rules on networks report.
use creidhne.Base.{
  select, contains-select, ◌≡◌, refl, sym, ◌∙◌, ap, ◌⊎◌, inl, inr, ◌↔◌, Bool, true, false, not,
  ◌||◌, ◌&&◌, List, [], ◌∷◌, ◌==◌, list_eq, nat_eq, contains, is_distinct, is_nil, beq_refl, beq→eq,
  Bool-cases, arith, if◌then◌else◌,
}
use creidhne.Base.Str.{Str, str, has_suffix}
use creidhne.Eval.Data.{UnitRecord, Quadlet}
use creidhne.Lint.Levels.{RuleFinding}
use creidhne.Lint.Wiring.{
  attachers_at, wiring, internal_of, external_of, pair_of, pair_findings_of, pair_findings,
}
use creidhne.Lint.Wiring.Attachers.{is_plain}
use creidhne.Lint.Wiring.Scanned.{
  is_used_by, has_plain_refs, is_distinct-attachers_at, attachers_at-wiring,
}
use creidhne.Lint.Wiring.Owners.{is_shared, same_owner-wiring}
use creidhne.Lint.Wiring.Markers.{is_marked, pair_of-is_marked}
use creidhne.Eval.Access.{top_list}
use creidhne.Lint.Wiring.Reported.{head_in, in_not_nil}

select-is_distinct :
    (p : Str → Bool) (xs : List Str) → is_distinct xs ≡ true → is_distinct (select p xs) ≡ true
unfolding select
select-is_distinct p [] h = refl
select-is_distinct p (x ∷ xs) h = ground (arith, select-is_distinct p xs, contains-select p x xs)

-- What `pair_findings_of` accepts.
pair_findings_of-none :
    (pair unit : Str) (external internal : List Str)
    → pair_findings_of pair unit external internal ≡ []
    → ((proxy : Str) × (external ≡ proxy ∷ [])) × (is_nil internal ≡ false)
unfolding pair_findings_of
pair_findings_of-none pair unit [] internal h = cc
pair_findings_of-none pair unit (a ∷ []) [] h = cc
pair_findings_of-none pair unit (a ∷ []) (b ∷ bs) h = ((a, refl), refl)
pair_findings_of-none pair unit (a ∷ b ∷ bs) internal h = absurd (ground arith)

pair_findings_of-quiet :
    (pair unit proxy : Str) (internal : List Str)
    → is_nil internal ≡ false
    → pair_findings_of pair unit (proxy ∷ []) internal ≡ []
unfolding pair_findings_of
pair_findings_of-quiet pair unit proxy internal h = rw h refl

if_false : (b : Bool) (fs : List RuleFinding) → b ≡ false → (if b then [] else fs) ≡ fs
if_false b fs h = rw h refl

only_one :
    (xs : List Str) (a : Str)
    → is_distinct xs ≡ true
    → contains xs a ≡ true
    → ((u : Str) → contains xs u ≡ true → u ≡ a)
    → xs ≡ a ∷ []
unfolding contains
only_one [] a d h same = cc
only_one (x ∷ []) a d h same = ap (λ v. v ∷ []) (same x (rw (beq_refl x) refl))
only_one (x ∷ y ∷ xs) a d h same =
    let e : y ≡ x =
      same y (ground (arith, beq_refl y)) ∙ sym (same x (ground (arith, beq_refl x))) in
    let t : (x == y) ≡ true = ap (λ v. x == v) e ∙ beq_refl x in absurd (ground arith)

-- Exactly one unit of another quadlet, and some unit of the one that owns the network, name it.
pub record IsWired (quads : List Quadlet) (net : Str) : Type 0 where
  pub proxy : Str
  pub proxy_uses : is_used_by quads net proxy ≡ true
  pub outside : is_shared quads proxy net ≡ false
  pub only : (u : Str) → is_used_by quads net u ≡ true → is_shared quads u net ≡ false → u ≡ proxy
  pub service : Str
  pub service_uses : is_used_by quads net service ≡ true
  pub inside : is_shared quads service net ≡ true

module _ (quads : List Quadlet) (n : UnitRecord) (plain : has_plain_refs quads ≡ true)
    (k : is_plain n.filename ≡ true) (s : has_suffix n.filename (str ".network") ≡ true) where
  external-contains :
      (u : Str)
      → contains (external_of (wiring quads) n.filename) u
        ≡ (is_used_by quads n.filename u && not (is_shared quads u n.filename))
  unfolding external_of
  external-contains u =
      contains-select _ u (attachers_at n.filename (wiring quads))
      ∙ ap (λ b. contains (attachers_at n.filename (wiring quads)) u && not b)
          (same_owner-wiring quads u n.filename)
      ∙ ap (λ b. b && not (is_shared quads u n.filename))
          (attachers_at-wiring quads n.filename u plain k s)

  internal-contains :
      (u : Str)
      → contains (internal_of (wiring quads) n.filename) u
        ≡ (is_used_by quads n.filename u && is_shared quads u n.filename)
  unfolding internal_of
  internal-contains u =
      contains-select _ u (attachers_at n.filename (wiring quads))
      ∙ ap (λ b. contains (attachers_at n.filename (wiring quads)) u && b)
          (same_owner-wiring quads u n.filename)
      ∙ ap (λ b. b && is_shared quads u n.filename)
          (attachers_at-wiring quads n.filename u plain k s)

  external-is_distinct : is_distinct (external_of (wiring quads) n.filename) ≡ true
  unfolding external_of
  external-is_distinct =
      select-is_distinct _ (attachers_at n.filename (wiring quads))
        (is_distinct-attachers_at quads n.filename plain k)

  one_external :
      (proxy : Str)
      → external_of (wiring quads) n.filename ≡ proxy ∷ []
      → (u : Str)
      → (u == proxy || false)
        ≡ (is_used_by quads n.filename u && not (is_shared quads u n.filename))
  unfolding contains
  one_external proxy one u = sym (ap (λ xs. contains xs u) one) ∙ external-contains u

  quiet-IsWired :
      (proxy : Str)
      → external_of (wiring quads) n.filename ≡ proxy ∷ []
      → is_nil (internal_of (wiring quads) n.filename) ≡ false
      → IsWired quads n.filename
  quiet-IsWired proxy one some_inside =
      let (service, serves) = head_in (internal_of (wiring quads) n.filename) some_inside in
      let uses = sym serves ∙ internal-contains service in
      let there = one_external proxy one proxy in
      record {
        proxy = proxy;
        proxy_uses = ground (arith, beq_refl proxy);
        outside = ground (arith, beq_refl proxy);
        only = λ u used out. beq→eq (ground (arith, one_external proxy one u));
        service = service;
        service_uses = ground arith;
        inside = ground arith;
      }

  IsWired-quiet :
      IsWired quads n.filename
      → pair_findings_of
          (pair_of n)
          n.filename
          (external_of (wiring quads) n.filename)
          (internal_of (wiring quads) n.filename)
        ≡ []
  IsWired-quiet v =
      let one : external_of (wiring quads) n.filename ≡ v.proxy ∷ [] =
        only_one (external_of (wiring quads) n.filename) v.proxy external-is_distinct
          (external-contains v.proxy ∙ (rw (v.proxy_uses, v.outside) refl))
          (λ u has.
            v.only u (ground (arith, external-contains u)) (ground (arith, external-contains u))) in
      let some_inside : is_nil (internal_of (wiring quads) n.filename) ≡ false =
        in_not_nil _ v.service
          (internal-contains v.service ∙ (rw (v.service_uses, v.inside) refl)) in
      rw one (
        pair_findings_of-quiet (pair_of n) n.filename v.proxy
          (internal_of (wiring quads) n.filename) some_inside)

  -- A network unit gets no finding of the pair rules exactly if the last of its labels that start
  -- with `creidhne.pair=` has no more than that, or it has no such label, or if exactly one unit of
  -- other quadlets names it, the proxy, and some unit of its own quadlet does. A unit belongs to the
  -- last quadlet of the project that has its filename. No reference in the project has the byte that
  -- joins the keys of the set of attachments, and the unit is named as a network.
  pub pair_findings-wiring :
      (pair_findings (wiring quads) n ≡ [])
      ↔ ((is_marked (top_list n.unit_data (str "labelStrings")) ≡ false) ⊎ IsWired quads n.filename)
  unfolding pair_findings
  pair_findings-wiring = (
    λ h. elim (Bool-cases (is_nil (pair_of n))) [
      | inl unmarked ↦ inl (ground (arith, pair_of-is_marked n, unmarked))
      | inr marked ↦
          let ((proxy, one), some_inside) =
            pair_findings_of-none (pair_of n) n.filename _ _
              (sym (if_false (is_nil (pair_of n)) _ marked) ∙ h) in
          inr (quiet-IsWired proxy one some_inside)
    ],
    λ c. elim c [
      | inl unmarked ↦
          let none : is_nil (pair_of n) ≡ true = pair_of-is_marked n ∙ rw unmarked refl in
          rw none refl
      | inr v ↦ elim (Bool-cases (is_nil (pair_of n))) [
        | inl unmarked ↦ rw unmarked refl
        | inr marked ↦ rw marked (IsWired-quiet v)
      ]
    ],
  )
