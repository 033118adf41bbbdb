-- ===== src/Render/Written.antt =====
-- What is in the rendered files when rendering succeeds.
use creidhne.Base.{
  ◌≡◌, Bool, true, false, ◌==◌, some, List, [], ◌∷◌, Result, ok, >>=-eq-ok, ok-injective, list_eq,
  nat_eq, All, if◌then◌else◌,
}
use mathlib.Core.Path.{subst}
use creidhne.Base.Str.{Str, str}
use creidhne.Base.Order.{str_order}
use creidhne.Base.Paths.{is_local}
use creidhne.Base.Dict
use creidhne.Base.Dict.{Dict, is_some}
use creidhne.Eval.Data.{Fields, UnitRecord, Quadlet}
use creidhne.Render.{
  FileContent, RenderError, Output, claim, put, add_build_artifacts, render_unit, emit_unit,
  emit_units, emit_quadlets, build_file_set,
}
use creidhne.Render.Filled.{
  IsFilled, Keeps, Grows, Grows-refl, Grows-trans, put-Grows, add_build_artifacts-Grows,
}

if-Grows :
    (b : Bool) (x y : Result RenderError Output) {o r : Output}
    → (x ≡ ok r → Grows o r)
    → (y ≡ ok r → Grows o r)
    → (if b then x else y) ≡ ok r
    → Grows o r
if-Grows true x y g k h = g h
if-Grows false x y g k h = k h

abbrev plain_file : Str → FileContent
plain_file content = record { content = content; mode = [] }

abbrev nothing_yet : Output
nothing_yet = record { files = []; owners = [] }

empty-IsFilled : IsFilled nothing_yet
unfolding Dict.has Dict.lookup
empty-IsFilled = record { owned = λ p h. h; inside = λ p h. absurd (cc h) }

All-map :
    (P Q : UnitRecord → Type 0)
    → ((u : UnitRecord) → P u → Q u)
    → (us : List UnitRecord) → All P us
    → All Q us
All-map P Q f [] h = tt
All-map P Q f (u ∷ us) (h, hs) = (f u h, All-map P Q f us hs)

-- The file of the unit holds what its template gave.
pub record IsWritten (render : UnitRecord → Result RenderError Str) (files : Dict Str FileContent)
    (u : UnitRecord) : Type 0 where
  pub content : Str
  pub rendered : render u ≡ ok content
  pub written : Dict.lookup u.filename files ≡ some (record { content = content; mode = [] })

module _ (has_template : Str → Bool) (execute : Str → Fields → Result Str Str) where
  abbrev Written : Dict Str FileContent → UnitRecord → Type 0
  Written = IsWritten (render_unit has_template execute)

  emit_rest :
      (owner : Str) (u : UnitRecord) (o r : Output)
      → (if u.kind == str "build" then add_build_artifacts owner u o else ok o) ≡ ok r
      → Grows o r
  emit_rest owner u o r =
      if-Grows (u.kind == str "build") (add_build_artifacts owner u o) (ok o)
        (add_build_artifacts-Grows owner u o r)
        (λ h. subst (Grows o) (ok-injective h) (Grows-refl o))

  emit_unit-Written :
      (owner : Str) (u : UnitRecord) (o r : Output)
      → emit_unit has_template execute owner u o ≡ ok r
      → Grows o r × (IsFilled o → Written r.files u)
  unfolding emit_unit Keeps
  emit_unit-Written owner u o r h =
      let (o', e, k) = >>=-eq-ok (claim u.filename owner o) _ h in
      let (content, e', k') = >>=-eq-ok (render_unit has_template execute u) _ k in
      let fc = plain_file content in
      let (g, there) = put-Grows u.filename owner fc o o' e in
      let rest = emit_rest owner u (put u.filename fc o') r k' in
      (
        Grows-trans g rest,
        λ i. record {
          content = content;
          rendered = e';
          written = (rest (g i).0).1 u.filename fc there;
        },
      )

  Written-Keeps :
      (o o' : Output) (u : UnitRecord) → Keeps o o' → Written o.files u → Written o'.files u
  unfolding Keeps
  Written-Keeps o o' u keep w = record {
    content = w.content;
    rendered = w.rendered;
    written = keep u.filename _ w.written;
  }

  emit_units-Written :
      (owner : Str) (us : List UnitRecord) (o r : Output)
      → emit_units has_template execute owner us o ≡ ok r
      → IsFilled o
      → IsFilled r × Keeps o r × All (Written r.files) us
  unfolding emit_units Keeps
  emit_units-Written owner [] o r h i =
      subst (λ x. IsFilled x × Keeps o x × Unit) (ok-injective h) (i, λ p fc e. e, tt)
  emit_units-Written owner (u ∷ us) o r h i =
      let (o', e, k) = >>=-eq-ok (emit_unit has_template execute owner u o) _ h in
      let (g, here) = emit_unit-Written owner u o o' e in
      let (j, keep) = g i in
      let (j', keep', there) = emit_units-Written owner us o' r k j in
      (j', λ p fc x. keep' p fc (keep p fc x), (Written-Keeps o' r u keep' (here i), there))

  emit_quadlets-Written :
      (qs : List Quadlet) (o r : Output)
      → emit_quadlets has_template execute qs o ≡ ok r
      → IsFilled o
      → IsFilled r × Keeps o r × All (λ q. All (Written r.files) q.units) qs
  unfolding emit_quadlets Keeps
  emit_quadlets-Written [] o r h i =
      subst (λ x. IsFilled x × Keeps o x × Unit) (ok-injective h) (i, λ p fc e. e, tt)
  emit_quadlets-Written (q ∷ qs) o r h i =
      let (o', e, k) = >>=-eq-ok (emit_units has_template execute q.name q.units o) _ h in
      let (j, keep, here) = emit_units-Written q.name q.units o o' e i in
      let (j', keep', there) = emit_quadlets-Written qs o' r k j in
      (
        j',
        λ p fc x. keep' p fc (keep p fc x),
        (
          All-map (Written o'.files) (Written r.files) (λ u w. Written-Keeps o' r u keep' w) q.units
              here,
          there,
        ),
      )

  -- If the files of all quadlets are rendered, every path among them stays inside the quadlet
  -- directory, and the file of every unit holds what the template gave for that unit: no other
  -- unit and no build artifact has taken its place.
  pub build_file_set-IsWritten :
      (quadlets : List Quadlet) (files : Dict Str FileContent)
      → build_file_set has_template execute quadlets ≡ ok files
      → ((p : Str) → Dict.has p files ≡ true → is_local p ≡ true)
        × All (λ q. All (IsWritten (render_unit has_template execute) files) q.units) quadlets
  unfolding build_file_set
  build_file_set-IsWritten quadlets files h =
      let start = nothing_yet in
      let (o, e, k) = >>=-eq-ok (emit_quadlets has_template execute quadlets start) _ h in
      let (j, keep, all_units) = emit_quadlets-Written quadlets start o e empty-IsFilled in
      subst
        (λ m.
          ((p : Str) → Dict.has p m ≡ true → is_local p ≡ true)
          × All (λ q. All (Written m) q.units) quadlets)
        (ok-injective k) (j.inside, all_units)
