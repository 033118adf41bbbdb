-- ===== src/Render/Filled.antt =====
-- How the two maps of `BuildFileSet` grow.
use creidhne.Base.{
  ◌≡◌, refl, ◌∙◌, sym, ap, Bool, true, false, ◌==◌, Option, none, some, List, [], ◌∷◌, ◌++◌, Result,
  ok, err, >>=-eq-ok, ok-injective, list_eq, nat_eq, beq_refl, beq→eq, inl, inr, arith, Bool-cases,
  if◌then◌else◌,
}
use mathlib.Core.Path.{subst}
use creidhne.Base.Str.{Str, str, has_prefix}
use creidhne.Base.Order.{str_order}
use creidhne.Base.Paths.{is_local}
use creidhne.Base.Clean.{path_join}
use creidhne.Base.Dict
use creidhne.Base.Dict.{Dict, is_some}
use creidhne.Eval.Data.{Value, Fields, get_field, UnitRecord}
use creidhne.Render.{
  FileContent, RenderError, Output, ensure_local, claim_from, claim, put, add_file, context_entry,
  add_below, add_entry, add_entries, add_containerfile, add_context, add_build_artifacts,
}

-- Every file so far has an owner, and a path that stays inside the directory.
pub record IsFilled (o : Output) : Type 0 where
  pub owned : (p : Str) → Dict.has p o.files ≡ true → Dict.has p o.owners ≡ true
  pub inside : (p : Str) → Dict.has p o.files ≡ true → is_local p ≡ true

-- Nothing that was written is written again.
unfoldable pub Keeps : Output → Output → Type 0
Keeps o o' =
    (p : Str) (fc : FileContent)
    → Dict.lookup p o.files ≡ some fc
    → Dict.lookup p o'.files ≡ some fc

abbrev pub Grows : Output → Output → Type 0
Grows o o' = IsFilled o → IsFilled o' × Keeps o o'

pub Grows-refl : (o : Output) → Grows o o
unfolding Keeps
Grows-refl o i = (i, λ p fc e. e)

pub Grows-trans : {o o' o'' : Output} → Grows o o' → Grows o' o'' → Grows o o''
unfolding Keeps
Grows-trans g h i =
    let (j, keep) = g i in let (k, keep') = h j in (k, λ p fc e. keep' p fc (keep p fc e))

record IsClaimed (path owner : Str) (o o' : Output) : Type 0 where
  safe : is_local path ≡ true
  fresh : Dict.lookup path o.owners ≡ none
  result : o' ≡ record o { owners = Dict.insert path owner o.owners }

ensure_local-ok : (path : Str) → ensure_local path ≡ ok tt → is_local path ≡ true
unfolding ensure_local
ensure_local-ok path h = elim (Bool-cases (is_local path)) [
  | inl safe ↦ safe
  | inr unsafe ↦ absurd (cc (h, unsafe))
]

claim_from-IsClaimed :
    (path owner : Str) (o o' : Output) (prev : Option Str)
    → is_local path ≡ true
    → Dict.lookup path o.owners ≡ prev
    → claim_from path owner o prev ≡ ok o'
    → IsClaimed path owner o o'
claim_from-IsClaimed path owner o o' none safe e h = record {
  safe = safe;
  fresh = e;
  result = sym (ok-injective h);
}
claim_from-IsClaimed path owner o o' (some prev) safe e h = absurd (cc h)

claim-IsClaimed :
    (path owner : Str) (o o' : Output) → claim path owner o ≡ ok o' → IsClaimed path owner o o'
unfolding claim
claim-IsClaimed path owner o o' h =
    let (u, e, k) = >>=-eq-ok (ensure_local path) _ h in
    claim_from-IsClaimed path owner o o' (Dict.lookup path o.owners) (ensure_local-ok path e) refl k

has-lookup :
    {V : Type 0} (p : Str) (m : Dict Str V) (v : V) → Dict.lookup p m ≡ some v → Dict.has p m ≡ true
unfolding Dict.has
has-lookup p m v e = ap is_some e

module _ (path owner : Str) (fc : FileContent) (o : Output) where
  abbrev filled : Output
  filled = record { files = Dict.insert path fc o.files; owners = Dict.insert path owner o.owners }

  filled-Keeps : Dict.lookup path o.owners ≡ none → IsFilled o → Keeps o filled
  unfolding Keeps Dict.has
  filled-Keeps fresh i p c e = elim (Bool-cases (p == path)) [
    | inl same ↦
        (let old = i.owned p (has-lookup p o.files c e) in
          let gone = ap (λ x. is_some (Dict.lookup x o.owners)) (beq→eq {a = p} {b = path} same) in
          absurd (cc (old, gone, ap is_some fresh)))
    | inr other ↦ Dict.lookup-insert p path fc o.files ∙ rw other e
  ]

  filled-IsFilled : is_local path ≡ true → IsFilled o → IsFilled filled
  filled-IsFilled safe i = record {
    owned = λ p h.
        (let files = Dict.has-insert p path fc o.files in
          let owners = Dict.has-insert p path owner o.owners in
          ground (arith, files, owners, h, i.owned p));
    inside = λ p h.
        (let files = Dict.has-insert p path fc o.files in
          let same = (λ (e : (p == path) ≡ true). ap is_local (beq→eq {a = p} {b = path} e)) in
          ground (arith, files, h, i.inside p, same, safe));
  }

-- A file is put under a path that was just claimed.
pub put-Grows :
    (path owner : Str) (fc : FileContent) (o o' : Output)
    → claim path owner o ≡ ok o'
    → Grows o (put path fc o') × (Dict.lookup path (put path fc o').files ≡ some fc)
unfolding put
put-Grows path owner fc o o' h =
    let c = claim-IsClaimed path owner o o' h in
    subst (λ x. Grows o (put path fc x) × (Dict.lookup path (put path fc x).files ≡ some fc))
      (sym c.result)
      (
        λ i. (filled-IsFilled path owner fc o c.safe i, filled-Keeps path owner fc o c.fresh i),
        Dict.lookup-insert path path fc o.files ∙ rw (beq_refl path) refl,
      )

add_file-Grows :
    (path owner : Str) (fc : FileContent) (o r : Output)
    → add_file path fc owner o ≡ ok r
    → Grows o r
unfolding add_file
add_file-Grows path owner fc o r h =
    let (o', e, k) = >>=-eq-ok (claim path owner o) _ h in
    subst (Grows o) (ok-injective k) (put-Grows path owner fc o o' e).0

if-ok :
    (b : Bool) (x : Result RenderError Output) (e : RenderError) {r : Output}
    → (if b then x else err e) ≡ ok r
    → x ≡ ok r
if-ok true x e h = h
if-ok false x e h = absurd (cc h)

add_below-Grows :
    (dir p owner : Str) (fc : FileContent) (o r : Output)
    → add_below dir p fc owner o ≡ ok r
    → Grows o r
unfolding add_below
add_below-Grows dir p owner fc o r h =
    add_file-Grows (path_join dir p) owner fc o r
      (if-ok (has_prefix (path_join dir p) (dir ++ str "/")) _ _ h)

add_entries-Grows :
    (dir owner : Str) (ctx : Fields) (ps : List Str) (o r : Output)
    → add_entries dir ctx owner ps o ≡ ok r
    → Grows o r
unfolding add_entries add_entry
add_entries-Grows dir owner ctx [] o r h = subst (Grows o) (ok-injective h) (Grows-refl o)
add_entries-Grows dir owner ctx (p ∷ ps) o r h =
    let (o', e, k) = >>=-eq-ok (add_entry dir ctx owner p o) _ h in
    let (fc, e', k') = >>=-eq-ok (context_entry p (get_field ctx p)) _ e in
    Grows-trans (add_below-Grows dir p owner fc o o' k') (add_entries-Grows dir owner ctx ps o' r k)

add_containerfile-Grows :
    (stem owner : Str) (v : Option Value) (o r : Output)
    → add_containerfile stem owner v o ≡ ok r
    → Grows o r
add_containerfile-Grows stem owner none o r h = subst (Grows o) (ok-injective h) (Grows-refl o)
add_containerfile-Grows stem owner (some (Value.text cf)) o r h = add_file-Grows _ owner _ o r h
add_containerfile-Grows stem owner (some v) o r h = absurd (cc h)

add_context-Grows :
    (stem owner : Str) (v : Option Value) (o r : Output)
    → add_context stem owner v o ≡ ok r
    → Grows o r
add_context-Grows stem owner none o r h = subst (Grows o) (ok-injective h) (Grows-refl o)
add_context-Grows stem owner (some (Value.dict ctx)) o r h = add_entries-Grows _ owner ctx _ o r h
add_context-Grows stem owner (some v) o r h = absurd (cc h)

pub add_build_artifacts-Grows :
    (owner : Str) (u : UnitRecord) (o r : Output) → add_build_artifacts owner u o ≡ ok r → Grows o r
unfolding add_build_artifacts
add_build_artifacts-Grows owner u o r h =
    let cf = get_field u.unit_data (str "ContainerFile") in
    let ctx = get_field u.unit_data (str "Context") in
    let (o', e, k) =
      >>=-eq-ok (add_containerfile u.stem owner cf o) (add_context u.stem owner ctx) h in
    Grows-trans (add_containerfile-Grows u.stem owner cf o o' e)
      (add_context-Grows u.stem owner ctx o' r k)
