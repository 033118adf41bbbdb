-- ===== src/Registry/Pick/Best.antt =====
-- What `PickVersion` picks: the highest candidate of the tag list, if there is one.
use mathlib.Core.Option.{some-injective}
use mathlib.Core.Path.{subst}
use creidhne.Base.{
  list_eq, nat_eq, is_nil, ◌≡◌, refl, ◌∙◌, sym, ap, true, false, Option, none, some, List, [], ◌∷◌,
  ok, >>=-eq-ok, ok-injective, ◌⊎◌, inl, inr, In, arith, Bool-cases, Option-cases,
}
use creidhne.Base.Str.{Str}
use creidhne.Registry.Version.{Version, parse_version, compare_versions, is_gt}
use creidhne.Registry.Version.Above.{is_above, compare_versions-is_above}
use creidhne.Registry.Version.Raw.{parse_version-nil, parse_version-raw}
use creidhne.Registry.Version.Order.{AtMost, AtMost-refl, AtMost-of_gt, AtMost-trans}
use creidhne.Registry.Pick.Newer.{is_newer, is_candidate-is_newer, IsRange, constraint_of-IsRange}
use creidhne.Registry.Pick.{
  Constraint, is_candidate, better, consider, pick_loop, raw_or_empty, constraint_of, pick_version,
}

none≢some : {v : Version} → ◌≡◌ {A = Option Version} none (some v) → ⊥
none≢some h = cc

module _ (current : Version) (c : Option Constraint) where
  -- A tag of the list that is an upgrade.
  pub record IsUpgrade (tags : List Str) (v : Version) : Type 0 where
    pub tag : Str
    pub listed : In tag tags
    pub parsed : parse_version tag ≡ some v
    pub candidate : is_newer current c v ≡ true

  -- What the loop has found: the highest upgrade of the tags that it has seen.
  abbrev pub IsBest : List Str → Option Version → Type 0
  IsBest tags none = (v : Version) → ¬ IsUpgrade tags v
  IsBest tags (some best) =
      IsUpgrade tags best × ((v : Version) → IsUpgrade tags v → is_above v.parts best.parts ≡ false)

  -- What is returned: a tag of the list that is not empty and parses to the best version, or nothing.
  abbrev pub IsPicked : List Str → Str → Option Version → Type 0
  IsPicked tags picked none = picked ≡ []
  IsPicked tags picked (some best) =
      In picked tags × (is_nil picked ≡ false) × (parse_version picked ≡ some best)

  IsUpgrade-nil : (v : Version) → ¬ IsUpgrade [] v
  IsUpgrade-nil v u = u.listed

  -- A tag that parses to an upgrade.
  record Counts (t : Str) (v : Version) : Type 0 where
    parsed : parse_version t ≡ some v
    candidate : is_newer current c v ≡ true

  IsUpgrade-cons :
      (t : Str) (tags : List Str) (v : Version)
      → IsUpgrade (t ∷ tags) v
      → Counts t v ⊎ IsUpgrade tags v
  IsUpgrade-cons t tags v u = elim u.listed [
    | inl e ↦ inl (record {
      parsed = subst (λ s. parse_version s ≡ some v) e u.parsed;
      candidate = u.candidate;
    })
    | inr m ↦ inr (record { tag = u.tag; listed = m; parsed = u.parsed; candidate = u.candidate })
  ]

  IsUpgrade-later :
      (t : Str) (tags : List Str) (v : Version) → IsUpgrade tags v → IsUpgrade (t ∷ tags) v
  IsUpgrade-later t tags v u = record {
    tag = u.tag;
    listed = inr u.listed;
    parsed = u.parsed;
    candidate = u.candidate;
  }

  IsUpgrade-here : (t : Str) (tags : List Str) (v : Version) → Counts t v → IsUpgrade (t ∷ tags) v
  IsUpgrade-here t tags v h = record {
    tag = t;
    listed = inl refl;
    parsed = h.parsed;
    candidate = h.candidate;
  }

  -- Some kept version is at least `v`.
  abbrev Covers : Option Version → Version → Type 0
  Covers best v = (b : Version) × (best ≡ some b) × AtMost v b

  -- One round: what is kept was kept or counts, and nothing that was kept or counts exceeds it.
  record Absorbs (best : Option Version) (t : Str) (best' : Option Version) : Type 0 where
    origin : (v : Version) → best' ≡ some v → (best ≡ some v) ⊎ Counts t v
    covers_new : (v : Version) → Counts t v → Covers best' v
    covers_old : (v : Version) → best ≡ some v → Covers best' v

  better-Covers :
      (best : Option Version) (v : Version)
      → Covers (better best v) v × ((w : Version) → best ≡ some w → Covers (better best v) w)
  unfolding better
  better-Covers none v = ((v, refl, AtMost-refl v), λ w e. cc)
  better-Covers (some b) v = elim (Bool-cases (is_gt (compare_versions v b))) [
    | inl higher ↦ rw higher (
      (v, refl, AtMost-refl v),
      λ w e. (v, refl, rw (← some-injective b w e) (AtMost-of_gt v b higher)),
    )
    | inr lower ↦
        rw lower ((b, refl, lower), λ w e. (b, refl, rw (← some-injective b w e) (AtMost-refl b)))
  ]

  better-origin :
      (best : Option Version) (v w : Version) → better best v ≡ some w → (best ≡ some w) ⊎ (v ≡ w)
  unfolding better
  better-origin none v w h = ground arith
  better-origin (some b) v w h = ground arith

  -- A round that keeps what it had, as no version counts.
  unchanged-Absorbs :
      (best : Option Version) (t : Str) → ((v : Version) → ¬ Counts t v) → Absorbs best t best
  unchanged-Absorbs best t never = record {
    origin = λ v e. inl e;
    covers_new = λ v h. absurd (never v h);
    covers_old = λ v e. (v, e, AtMost-refl v);
  }

  better-Absorbs :
      (best : Option Version) (t : Str) (v : Version) → Counts t v → Absorbs best t (better best v)
  better-Absorbs best t v h = record {
    origin = λ w e. elim (better-origin best v w e) [
      | inl kept ↦ inl kept
      | inr new ↦ inr (subst (Counts t) new h)
    ];
    covers_new = λ w k.
        subst (Covers (better best v)) (some-injective v w (sym h.parsed ∙ k.parsed))
          (better-Covers best v).0;
    covers_old = (better-Covers best v).1;
  }

  consider-Absorbs :
      (best : Option Version) (t : Str) (o : Option Version)
      → parse_version t ≡ o
      → Absorbs best t (consider current c best o)
  unfolding consider
  consider-Absorbs best t none e = unchanged-Absorbs best t (λ v h. cc (sym e ∙ h.parsed))
  consider-Absorbs best t (some v) e = elim (Bool-cases (is_candidate current c v)) [
    | inl yes_ ↦ rw yes_ (
        better-Absorbs best t v
          (record { parsed = e; candidate = sym (is_candidate-is_newer current c v) ∙ yes_ }))
    | inr no_ ↦ rw no_ (unchanged-Absorbs best t (λ w h. refused v w e no_ h))
  ]
    where
      refused :
          (v w : Version)
          → parse_version t ≡ some v
          → is_candidate current c v ≡ false
          → ¬ Counts t w
      refused v w e no_ h =
          let same = some-injective v w (sym e ∙ h.parsed) in
          cc (
            sym no_
            ∙ (is_candidate-is_newer current c v ∙ ap (is_newer current c) same ∙ h.candidate))

  -- What the loop returns, from the best version before it.
  Outcome : Option Version → List Str → Option Version → Type 0
  Outcome best tags none = (best ≡ none) × ((v : Version) → ¬ IsUpgrade tags v)
  Outcome best tags (some v) =
      ((best ≡ some v) ⊎ IsUpgrade tags v)
      × ((w : Version) → IsUpgrade tags w → AtMost w v)
      × ((w : Version) → best ≡ some w → AtMost w v)

  Outcome-cons :
      (best best' : Option Version) (t : Str) (tags : List Str) (r : Option Version)
      → Absorbs best t best'
      → Outcome best' tags r
      → Outcome best (t ∷ tags) r
  unfolding Outcome
  Outcome-cons best best' t tags none a (nothing, never) = (
    elim (Option-cases best) [
      | inl e ↦ e
      | inr (v, e) ↦ (let (b, e', _) = a.covers_old v e in absurd (none≢some (sym nothing ∙ e')))
    ],
    λ v u. elim (IsUpgrade-cons t tags v u) [
      | inl h ↦ (let (b, e, _) = a.covers_new v h in absurd (none≢some (sym nothing ∙ e)))
      | inr later ↦ absurd (never v later)
    ],
  )
  Outcome-cons best best' t tags (some v) a (origin, above, kept) = (
    elim origin [
      | inl e ↦ elim (a.origin v e) [ inl e' ↦ inl e' | inr h ↦ inr (IsUpgrade-here t tags v h) ]
      | inr u ↦ inr (IsUpgrade-later t tags v u)
    ],
    λ w u. elim (IsUpgrade-cons t tags w u) [
      | inl h ↦ (let (b, e, le) = a.covers_new w h in AtMost-trans w b v le (kept b e))
      | inr later ↦ above w later
    ],
    λ w e. (let (b, e', le) = a.covers_old w e in AtMost-trans w b v le (kept b e')),
  )

  pick_loop-Outcome :
      (best : Option Version) (tags : List Str) → Outcome best tags (pick_loop current c best tags)
  unfolding pick_loop Outcome
  pick_loop-Outcome none [] = (refl, IsUpgrade-nil)
  pick_loop-Outcome (some v) [] = (
    inl refl,
    λ w u. absurd (IsUpgrade-nil w u),
    λ w e. subst (λ x. AtMost x v) (some-injective v w e) (AtMost-refl v),
  )
  pick_loop-Outcome best (t ∷ tags) =
      Outcome-cons best (consider current c best (parse_version t)) t tags _
        (consider-Absorbs best t (parse_version t) refl)
        (pick_loop-Outcome (consider current c best (parse_version t)) tags)

  Outcome-IsBest : (tags : List Str) (r : Option Version) → Outcome none tags r → IsBest tags r
  unfolding Outcome
  Outcome-IsBest tags none (_, never) = never
  Outcome-IsBest tags (some v) (origin, above, _) = elim origin [
    | inl e ↦ absurd (none≢some e)
    | inr u ↦ (u, λ w k. sym (compare_versions-is_above w v) ∙ above w k)
  ]

  parsed_not_nil : (tag : Str) (v : Version) → parse_version tag ≡ some v → is_nil tag ≡ false
  parsed_not_nil [] v h = absurd (none≢some (sym parse_version-nil ∙ h))
  parsed_not_nil (x ∷ tag) v h = refl

  IsUpgrade-IsPicked :
      (tags : List Str) (v : Version) → IsUpgrade tags v → IsPicked tags v.raw (some v)
  IsUpgrade-IsPicked tags v u =
      subst (λ t. IsPicked tags t (some v)) (sym (parse_version-raw u.tag v u.parsed))
        (u.listed, parsed_not_nil u.tag v u.parsed, u.parsed)

  IsBest-IsPicked :
      (tags : List Str) (best : Option Version)
      → IsBest tags best
      → IsPicked tags (raw_or_empty best) best
  unfolding raw_or_empty
  IsBest-IsPicked tags none h = refl
  IsBest-IsPicked tags (some v) h = IsUpgrade-IsPicked tags v h.0

-- What `PickVersion` returns without an error: a tag of the list, not the empty text, that parses to
-- the highest upgrade among the tags, or the empty text where no tag is an upgrade. An upgrade is a
-- tag that parses to a version with the suffix of the current one and at least its precision, with no
-- leap from below 1000 to 10000 or more in the first component, above the current version at that
-- precision, and in the range, if there is one.
pub pick_version-IsBest :
    (new_constraint : Str → Option Constraint) (tags : List Str) (current : Version)
    (range picked : Str)
    → pick_version new_constraint tags current range ≡ ok picked
    → (c : Option Constraint) × (best : Option Version) × IsRange new_constraint range c
      × IsPicked current c tags picked best
      × IsBest current c tags best
unfolding pick_version
pick_version-IsBest new_constraint tags current range picked h =
    let (c, e, k) = >>=-eq-ok (constraint_of new_constraint range) _ h in
    let best = Outcome-IsBest current c tags _ (pick_loop-Outcome current c none tags) in
    (
      c,
      pick_loop current c none tags,
      constraint_of-IsRange new_constraint range c e,
      subst (λ t. IsPicked current c tags t (pick_loop current c none tags)) (ok-injective k)
          (IsBest-IsPicked current c tags (pick_loop current c none tags) best),
      best,
    )
