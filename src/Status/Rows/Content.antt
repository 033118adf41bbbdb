-- ===== src/Status/Rows/Content.antt =====
-- What is rendered at a path, and the hash that the status compares with.
use creidhne.Base.{
  ◌≡◌, refl, ◌∙◌, ap, Bool, true, false, Option, none, some, [], ◌∷◌, list_eq, nat_eq, is_distinct,
  inl, inr, arith, Option-cases, if◌then◌else◌,
}
use creidhne.Base.Str.{Str}
use creidhne.Base.Dict
use creidhne.Base.Dict.{Dict, is_some}
use creidhne.State.Types.{FileInput}
use creidhne.State.Build.{input_at}
use creidhne.Status.Rows.{hash_files, desired_hashes}
use creidhne.Status.Rows.Rendered.{rendered, one_owner, hash_files-lookup, first-lookup}

abbrev first_content : Option FileInput → Option Str → Option Str
first_content none later = later
first_content (some f) later = some f.content

-- The content that the first quadlet renders at the path that renders it at all.
abbrev pub content_in : Str → Dict Str (Dict Str FileInput) → Option Str
content_in p [] = none
content_in p ((name, files) ∷ qs) = first_content (Dict.lookup p files) (content_in p qs)

abbrev pub hashed : (Str → Str) → Option Str → Option Str
hashed sha256 none = none
hashed sha256 (some text) = some (sha256 text)

pub content_in-rendered :
    (sha256 : Str → Str) (p : Str) (qs : Dict Str (Dict Str FileInput))
    → is_some (hashed sha256 (content_in p qs)) ≡ rendered p qs
unfolding Dict.has
content_in-rendered sha256 p [] = refl
content_in-rendered sha256 p ((name, files) ∷ qs) = elim (Option-cases (Dict.lookup p files)) [
  | inl out ↦ rw (out, content_in-rendered sha256 p qs) refl
  | inr (f, found) ↦ rw found refl
]

input_at-found :
    (files : Dict Str FileInput) (p : Str) (f : FileInput)
    → Dict.lookup p files ≡ some f
    → input_at files p ≡ f
unfolding input_at
input_at-found files p f h = rw (input_at, h) refl

module _ (sha256 : Str → Str) (p : Str) where
  first-hashed :
      (name : Str) (files : Dict Str FileInput) (qs : Dict Str (Dict Str FileInput))
      (m : Dict Str Str) (f : FileInput)
      → one_owner ((name, files) ∷ qs) ≡ true
      → Dict.lookup p files ≡ some f
      → Dict.lookup p (desired_hashes sha256 qs (hash_files sha256 files m))
        ≡ some (sha256 f.content)
  unfolding Dict.has
  first-hashed name files qs m f h found =
      first-lookup sha256 p name files qs m h (ap is_some found)
      ∙ ap (λ x. some (sha256 x.content)) (input_at-found files p f found)

  other-hashed :
      (files : Dict Str FileInput) (m : Dict Str Str)
      → is_distinct (Dict.keys files) ≡ true
      → Dict.lookup p files ≡ none
      → Dict.lookup p (hash_files sha256 files m) ≡ Dict.lookup p m
  unfolding Dict.has
  other-hashed files m h out = hash_files-lookup sha256 p files m h ∙ rw (ap is_some out) refl

  desired_hashes-content :
      (qs : Dict Str (Dict Str FileInput)) (m : Dict Str Str)
      → one_owner qs ≡ true
      → Dict.lookup p (desired_hashes sha256 qs m)
        ≡ (if rendered p qs then hashed sha256 (content_in p qs) else Dict.lookup p m)
  unfolding desired_hashes
  desired_hashes-content [] m h = refl
  desired_hashes-content ((name, files) ∷ qs) m h = elim (Option-cases (Dict.lookup p files)) [
    | inr (f, found) ↦
        let has : Dict.has p files ≡ true = (unfold Dict.has in ap is_some found) in
        first-hashed name files qs m f h found ∙ rw (found, has) refl
    | inl out ↦
        let has : Dict.has p files ≡ false = (unfold Dict.has in ap is_some out) in
        desired_hashes-content qs (hash_files sha256 files m) (ground (arith, h))
        ∙ rw (out, has, other-hashed files m (ground (arith, h)) out) refl
  ]

  if_rendered : (b : Bool) (o : Option Str) → is_some o ≡ b → (if b then o else none) ≡ o
  if_rendered true o h = refl
  if_rendered false none h = refl
  if_rendered false (some text) h = absurd (cc h)

  -- The hash of a desired path is that of the content rendered there.
  pub desired_hashes-hashed :
      (qs : Dict Str (Dict Str FileInput))
      → one_owner qs ≡ true
      → Dict.lookup p (desired_hashes sha256 qs []) ≡ hashed sha256 (content_in p qs)
  unfolding Dict.lookup
  desired_hashes-hashed qs h =
      desired_hashes-content qs [] h
      ∙ if_rendered (rendered p qs) (hashed sha256 (content_in p qs))
          (content_in-rendered sha256 p qs)
