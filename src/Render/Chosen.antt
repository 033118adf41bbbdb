-- ===== src/Render/Chosen.antt =====
-- Which quadlets are chosen by name.
use creidhne.Base.{
  ◌≡◌, refl, ◌∙◌, sym, ap, Bool, true, false, ◌==◌, Option, none, some, List, [], ◌∷◌, Result, ok,
  err, ◌>>=◌, ok-injective, list_eq, nat_eq, beq→eq, contains, In, All, map, inl, inr,
  if◌then◌else◌,
}
use mathlib.Core.Path.{subst}
use creidhne.Base.Str.{Str}
use creidhne.Base.Order.{sort, str_order}
use creidhne.Base.Dict
use creidhne.Base.Dict.{Dict}
use creidhne.Eval.Data.{Quadlet}
use creidhne.Render.Project.{
  by_name, UnknownQuadlet, no_quadlet, quadlet_or, name_of, pick_quadlets, filter_quadlets,
}

-- The names in the order in which they come first.
unfoldable pub firsts : List Str → List Str → List Str
firsts seen [] = []
firsts seen (n ∷ ns) = let rest = firsts (n ∷ seen) ns in if contains seen n then rest else n ∷ rest

-- The quadlet of a name is one of the project that has the name.
abbrev Named : List Quadlet → Str → Quadlet → Type 0
Named quads n q = In q quads × (q.name ≡ n)

some_Quadlet : {a b : Quadlet} → ◌≡◌ {A = Option Quadlet} (some a) (some b) → a ≡ b
some_Quadlet h = cc

if-Named :
    (quads : List Quadlet) (n : Str) (b : Bool) (r x : Quadlet) (o : Option Quadlet)
    → (b ≡ true → Named quads n r)
    → (o ≡ some x → Named quads n x)
    → (if b then some r else o) ≡ some x
    → Named quads n x
if-Named quads n true r x o new old k = subst (Named quads n) (some_Quadlet k) (new refl)
if-Named quads n false r x o new old k = old k

by_name-Named :
    (quads qs : List Quadlet) (m : Dict Str Quadlet) (n : Str) (q : Quadlet)
    → ((x : Quadlet) → In x qs → In x quads)
    → ((x : Quadlet) → Dict.lookup n m ≡ some x → Named quads n x)
    → Dict.lookup n (by_name qs m) ≡ some q
    → Named quads n q
unfolding by_name
by_name-Named quads [] m n q sub old e = old q e
by_name-Named quads (r ∷ qs) m n q sub old e =
    by_name-Named quads qs (Dict.insert r.name r m) n q (λ x i. sub x (inr i))
      (λ x k.
        if-Named quads n (n == r.name) r x (Dict.lookup n m)
          (λ same. (sub r (inl refl), sym (beq→eq {a = n} {b = r.name} same))) (old x)
          (sym (Dict.lookup-insert n r.name r m) ∙ k))
      e

quadlet_or-ok :
    (e : UnknownQuadlet) (o : Option Quadlet) (q : Quadlet) → quadlet_or e o ≡ ok q → o ≡ some q
quadlet_or-ok e none q h = absurd (cc h)
quadlet_or-ok e (some r) q h = ap some (ok-injective h)

-- Each wanted quadlet once, in the order of the first mention, and all of the project.
pub record IsChosen (quads : List Quadlet) (names : List Str) (out : List Quadlet) : Type 0 where
  pub in_order : map name_of out ≡ names
  pub of_project : All (λ q. In q quads) out

found-Named :
    (quads : List Quadlet) (n : Str) (e : UnknownQuadlet) (q : Quadlet)
    → quadlet_or e (Dict.lookup n (by_name quads [])) ≡ ok q
    → Named quads n q
unfolding Dict.lookup
found-Named quads n e q h =
    by_name-Named quads quads [] n q (λ x i. i) (λ x k. absurd (cc k))
      (quadlet_or-ok e (Dict.lookup n (by_name quads [])) q h)

if-chosen :
    (b : Bool) (x y : Result UnknownQuadlet (List Quadlet)) (out : List Quadlet) (P : Bool → Type 0)
    → (x ≡ ok out → P true)
    → (y ≡ ok out → P false)
    → (if b then x else y) ≡ ok out
    → P b
if-chosen true x y out P f g h = f h
if-chosen false x y out P f g h = g h

module _ (quads : List Quadlet) where
  pair-IsChosen :
      (found : Result UnknownQuadlet Quadlet) (rest : Result UnknownQuadlet (List Quadlet))
      (n : Str) (later : List Str) (out : List Quadlet)
      → ((q : Quadlet) → found ≡ ok q → Named quads n q)
      → ((qs : List Quadlet) → rest ≡ ok qs → IsChosen quads later qs)
      → (found >>= λ q. rest >>= λ qs. ok (q ∷ qs)) ≡ ok out
      → IsChosen quads (n ∷ later) out
  pair-IsChosen (err e) rest n later out one more h = absurd (cc h)
  pair-IsChosen (ok q) (err e) n later out one more h = absurd (cc h)
  pair-IsChosen (ok q) (ok qs) n later out one more h =
      let (there, name) = one q refl in
      let c = more qs refl in
      subst (IsChosen quads (n ∷ later)) (ok-injective h) (record {
        in_order = ap (λ x. x ∷ map name_of qs) name ∙ ap (λ xs. n ∷ xs) c.in_order;
        of_project = (there, c.of_project);
      })

  pick_quadlets-IsChosen :
      (wanted seen : List Str) (marks : Dict Str Bool) (out : List Quadlet)
      → ((n : Str) → Dict.has n marks ≡ contains seen n)
      → pick_quadlets quads wanted marks ≡ ok out
      → IsChosen quads (firsts seen wanted) out
  unfolding pick_quadlets firsts contains
  pick_quadlets-IsChosen [] seen marks out same h =
      subst (IsChosen quads []) (ok-injective h) (record { in_order = refl; of_project = tt })
  pick_quadlets-IsChosen (n ∷ wanted) seen marks out same h =
      let found =
        quadlet_or (no_quadlet n (sort (map name_of quads))) (Dict.lookup n (by_name quads [])) in
      let rest = pick_quadlets quads wanted (Dict.insert n true marks) in
      let later = firsts (n ∷ seen) wanted in
      let marked = (λ (k : Str). Dict.has-insert k n true marks ∙ rw (same k) refl) in
      subst (λ b. IsChosen quads (if b then later else n ∷ later) out) (same n)
        (if-chosen (Dict.has n marks) rest (found >>= λ q. rest >>= λ qs. ok (q ∷ qs)) out
          (λ b. IsChosen quads (if b then later else n ∷ later) out)
          (λ k. pick_quadlets-IsChosen wanted (n ∷ seen) (Dict.insert n true marks) out marked k)
          (pair-IsChosen found rest n later out (λ q k. found-Named quads n _ q k)
            (λ qs k.
              pick_quadlets-IsChosen wanted (n ∷ seen) (Dict.insert n true marks) qs marked k))
          h)

-- If the quadlets that are wanted are filtered, the result has each of them once, in the order in
-- which their names come first, and all are quadlets of the project.
pub filter_quadlets-IsChosen :
    (quads : List Quadlet) (wanted : List Str) (out : List Quadlet)
    → filter_quadlets quads wanted ≡ ok out
    → IsChosen quads (firsts [] wanted) out
unfolding filter_quadlets Dict.has Dict.lookup contains
filter_quadlets-IsChosen quads wanted out h =
    pick_quadlets-IsChosen quads wanted [] [] out (λ n. refl) h
