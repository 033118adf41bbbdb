-- ===== src/Registry/Reference/Parts.antt =====
-- What `Parse` reads, and that the text of a reference is read back.
use mathlib.Core.Path.{subst}
use mathlib.Core.List.{append-nil, append_assoc}
use creidhne.Base.{
  ℕ, ◌≡◌, refl, ◌∙◌, sym, ap, true, false, Option, none, some, [], ◌∷◌, ◌++◌, ok, contains, list_eq,
  nat_eq, is_nil, arith, ◌⊎◌, inl, inr, Bool-cases,
}
use creidhne.Base.Str.{Str, cut_last, CutsLast, cut_last-CutsLast, cut_last-append}
use creidhne.Registry.Reference.{
  Ref, Names, tagged_ref, cut_digest, cut_tag, digest_from, tag_from, validate, parse,
}

-- A part behind its mark, or no part and no mark.
abbrev pub IsPart : ℕ → Str → Str → Type 0
IsPart mark part text = (text ≡ mark ∷ part) ⊎ ((text ≡ []) × (part ≡ []))

-- The text is the repository, then the tag, then the digest, each behind its mark.
pub record IsReading (ref : Str) (r : Ref) : Type 0 where
  pub tag_text : Str
  pub digest_text : Str
  pub whole : ref ≡ r.repo ++ (tag_text ++ digest_text)
  pub tag_part : IsPart b':' r.tag tag_text
  pub digest_part : IsPart b'@' r.digest digest_text
  pub no_slash : contains r.tag b'/' ≡ false
  pub no_colon : contains r.tag b':' ≡ false
  pub no_at : contains r.digest b'@' ≡ false

-- The three validations that a reference has passed.
pub record IsAccepted (names : Names) (r : Ref) : Type 0 where
  pub repository : names.is_repository r.repo ≡ true
  pub tag : (is_nil r.tag ≡ true) ⊎ (names.is_tag (r.repo ++ b':' ∷ r.tag) ≡ true)
  pub digest : (is_nil r.digest ≡ true) ⊎ (names.is_digest (r.repo ++ b'@' ∷ r.digest) ≡ true)

validate-IsAccepted :
    (names : Names) (repo tag digest : Str) (r : Ref)
    → validate names repo tag digest ≡ ok r
    → (r ≡ record { repo = repo; tag = tag; digest = digest }) × IsAccepted names r
unfolding validate
validate-IsAccepted names repo tag digest r h =
    (ground arith, record { repository = ground arith; tag = ground arith; digest = ground arith })

validate-ok :
    (names : Names) (r : Ref) → IsAccepted names r → validate names r.repo r.tag r.digest ≡ ok r
unfolding validate
validate-ok names r a = ground (arith, a.repository, a.tag, a.digest)

abbrev Front : Str → Str × Str → Type 0
Front ref (s, digest) =
    (text : Str) × (ref ≡ s ++ text) × IsPart b'@' digest text × (contains digest b'@' ≡ false)

digest_from-Front :
    (ref : Str) (o : Option (Str × Str)) → CutsLast ref b'@' o → Front ref (digest_from ref o)
unfolding contains
digest_from-Front ref none h = ([], sym (append-nil ref), inr (refl, refl), refl)
digest_from-Front ref (some (s, digest)) (e, no_at) = (b'@' ∷ digest, e, inl refl, no_at)

cut_digest-Front : (ref : Str) → Front ref (cut_digest ref)
unfolding cut_digest
cut_digest-Front ref = digest_from-Front ref (cut_last ref b'@') (cut_last-CutsLast ref b'@')

abbrev Tagged : Str → Str × Str → Type 0
Tagged s (repo, tag) =
    (text : Str) × (s ≡ repo ++ text)
    × IsPart b':' tag text
    × (contains tag b'/' ≡ false)
    × (contains tag b':' ≡ false)

untagged : (s : Str) → Tagged s (s, [])
unfolding contains
untagged s = ([], sym (append-nil s), inr (refl, refl), refl, refl)

tag_from-Tagged : (s : Str) (o : Option (Str × Str)) → CutsLast s b':' o → Tagged s (tag_from s o)
tag_from-Tagged s none h = untagged s
tag_from-Tagged s (some (repo, tag)) (e, no_colon) = elim (Bool-cases (contains tag b'/')) [
  | inl slash ↦ rw slash (untagged s)
  | inr no_slash ↦ rw no_slash (b':' ∷ tag, e, inl refl, no_slash, no_colon)
]

cut_tag-Tagged : (s : Str) → Tagged s (cut_tag s)
unfolding cut_tag
cut_tag-Tagged s = tag_from-Tagged s (cut_last s b':') (cut_last-CutsLast s b':')

-- A reference that parses is its repository, then a tag behind a colon and a digest behind an at
-- sign, where either may be missing, mark and all, or empty behind its mark. The tag has no colon
-- and no slash, so a port is never read as a tag, the digest has no at sign, and the library has
-- accepted the repository and each part that is not empty.
pub parse-IsReading :
    (names : Names) (ref : Str) (r : Ref)
    → parse names ref ≡ ok r
    → IsReading ref r × IsAccepted names r
unfolding parse
parse-IsReading names ref r h =
    let (s, digest) = cut_digest ref in
    let (repo, tag) = cut_tag s in
    let (digest_text, e, digest_part, no_at) = cut_digest-Front ref in
    let (tag_text, e', tag_part, no_slash, no_colon) = cut_tag-Tagged s in
    let (same, accepted) = validate-IsAccepted names repo tag digest r h in
    (
      subst (IsReading ref) (sym same) (record {
        tag_text = tag_text;
        digest_text = digest_text;
        whole = e ∙ ap (λ x. x ++ digest_text) e' ∙ append_assoc repo tag_text digest_text;
        tag_part = tag_part;
        digest_part = digest_part;
        no_slash = no_slash;
        no_colon = no_colon;
        no_at = no_at;
      }),
      accepted,
    )

-- The text of a repository, a tag and a digest that the library accepts is read back as these
-- three, if the tag has no slash and no colon and the digest has no at sign.
pub parse-tagged_ref :
    (names : Names) (r : Ref)
    → IsAccepted names r
    → contains r.tag b'/' ≡ false
    → contains r.tag b':' ≡ false
    → contains r.digest b'@' ≡ false
    → parse names (tagged_ref r ++ b'@' ∷ r.digest) ≡ ok r
unfolding parse cut_digest cut_tag tagged_ref
parse-tagged_ref names r a no_slash no_colon no_at =
    rw
      (
        cut_last-append (r.repo ++ b':' ∷ r.tag) r.digest b'@' no_at,
        cut_last-append r.repo r.tag b':' no_colon,
        no_slash,
      )
      (validate-ok names r a)
