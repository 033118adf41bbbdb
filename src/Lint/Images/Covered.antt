-- ===== src/Lint/Images/Covered.antt =====
-- When the image rules find nothing.
use creidhne.Base.{
  ◌≡◌, refl, ◌↔◌, Bool, false, not, ◌||◌, ◌&&◌, List, [], ◌∷◌, ◌++◌, ok, ◌==◌, list_eq, nat_eq,
  is_nil, any,
}
use creidhne.Base.Str.{Str, str}
use creidhne.Eval.Data.{UnitRecord, Quadlet, ImageEntry}
use creidhne.Eval.Access.{top_str}
use creidhne.Registry.Reference.{Ref, Names, parse}
use creidhne.Lint.Levels.{RuleFinding}

-- The entry is a reference without a tag, or it has a digest.
abbrev pub IsPinned : Names → ImageEntry → Type 0
IsPinned names e =
    (r : Ref) × (parse names e.image ≡ ok r) × ((not (is_nil r.tag) && is_nil e.digest) ≡ false)

-- The image is the file name of a build or image unit of the project.
abbrev pub is_sibling : List Quadlet → Str → Bool
is_sibling quads img =
    any
      (λ q.
        any (λ u. (u.kind == str "build" || u.kind == str "image") && img == u.filename) q.units)
      quads

-- The image is that of the entry, bare while the entry has no digest, and with the digest once it
-- has one.
abbrev pub is_rendered : Str → ImageEntry → Bool
is_rendered img e =
    (is_nil e.digest && img == e.image)
    || (not (is_nil e.digest) && img == e.image ++ str "@" ++ e.digest)

-- A unit that is no container, has no image, or has one of a sibling unit or of the registry.
abbrev pub is_covered : List Quadlet → List ImageEntry → UnitRecord → Bool
is_covered quads entries u =
    let img = top_str u.unit_data (str "imageString") in
    not (u.kind == str "container")
    || (is_nil img || (is_sibling quads img || any (is_rendered img) entries))

pub append-none : (xs ys : List RuleFinding) → (xs ++ ys ≡ []) ↔ ((xs ≡ []) × (ys ≡ []))
append-none [] ys = (λ h. (refl, h), λ h. h.1)
append-none (x ∷ xs) ys = (λ h. cc, λ h. cc)
