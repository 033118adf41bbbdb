-- ===== src/Registry/Reference.antt =====
-- `Ref`, `Parse`, `Classify` and `TaggedRef`. The validation of go-containerregistry is a parameter.
pub mod Parts
use creidhne.Base.{
  ℕ, ◌≡◌, refl, Bool, true, false, not, ◌&&◌, Option, none, some, List, [], ◌∷◌, ◌++◌, Result, ok,
  err, contains, nat_eq, is_nil, arith, if◌then◌else◌,
}
use creidhne.Base.Str.{Str, str, cut_last}

pub data Status : Type 0 where
  managed unpinned unmanaged : Status

pub record Ref : Type 0 where
  pub repo : Str
  pub tag : Str
  pub digest : Str

pub data RefError : Type 0 where
  invalid_repository invalid_tag invalid_digest : Str → RefError

-- `name.NewRepository`, `name.NewTag` and `name.NewDigest`: whether they accept a text.
pub record Names : Type 0 where
  pub is_repository : Str → Bool
  pub is_tag : Str → Bool
  pub is_digest : Str → Bool

unfoldable pub classify : Bool → Bool → Status
classify has_tag has_digest =
    if has_tag && has_digest then managed else if has_tag then unpinned else unmanaged

unfoldable pub tagged_ref : Ref → Str
tagged_ref r = r.repo ++ b':' ∷ r.tag

abbrev pub digest_from : Str → Option (Str × Str) → Str × Str
digest_from ref none = (ref, [])
digest_from ref (some (s, digest)) = (s, digest)

-- The reference before its last `@`, and the digest behind it.
unfoldable pub cut_digest : Str → Str × Str
cut_digest ref = digest_from ref (cut_last ref b'@')

abbrev pub tag_from : Str → Option (Str × Str) → Str × Str
tag_from s none = (s, [])
tag_from s (some (repo, tag)) = if contains tag b'/' then (s, []) else (repo, tag)

-- A tag is what follows the last colon, if that stands behind the last slash.
unfoldable pub cut_tag : Str → Str × Str
cut_tag s = tag_from s (cut_last s b':')

module _ (names : Names) where
  unfoldable pub validate : Str → Str → Str → Result RefError Ref
  validate repo tag digest =
      if not (names.is_repository repo)
      then err (RefError.invalid_repository repo)
      else if not (is_nil tag) && not (names.is_tag (repo ++ b':' ∷ tag))
      then err (RefError.invalid_tag tag)
      else if not (is_nil digest) && not (names.is_digest (repo ++ b'@' ∷ digest))
      then err (RefError.invalid_digest digest)
      else ok (record { repo = repo; tag = tag; digest = digest })

  unfoldable pub parse : Str → Result RefError Ref
  parse ref =
      let (s, digest) = cut_digest ref in let (repo, tag) = cut_tag s in validate repo tag digest
