-- ===== src/Tests/RegistryRuns.antt =====
-- Ages, references and upgrades on concrete inputs.
use creidhne.Base.{
  all, ◌≡◌, refl, true, false, Option, none, some, List, [], ◌∷◌, ok, list_eq, nat_eq, list_beq,
  contains, inr,
}
use creidhne.Base.Str.{Str, str, cut_last, cut_byte, split_byte}
use creidhne.Registry.Numbers.{atoi}
use creidhne.Registry.Reference.{Ref, Names, parse, validate, cut_digest, cut_tag}
use creidhne.Registry.Reference.Parts.{IsReading, IsAccepted, parse-IsReading}
use creidhne.Registry.Version.{Version, parse_version, compare_versions, compare_from, truncated}
use creidhne.Registry.Pick.{
  Constraint, pick_version, pick_loop, consider, better, is_candidate, constraint_of, raw_or_empty,
}
use creidhne.Registry.Pick.Best.{IsBest, IsPicked, pick_version-IsBest}
use creidhne.Registry.Pick.Newer.{IsRange}

two_weeks : atoi (str "2") ≡ some (record { negative = false; size = 2 })
unfolding atoi
two_weeks = refl

names : Names
names = record { is_repository = λ s. true; is_tag = λ s. true; is_digest = λ s. true }

image : Ref
image = record { repo = str "host:5000/app"; tag = str "1.2"; digest = str "sha256:ab" }

image_text : Str
image_text = str "host:5000/app:1.2@sha256:ab"

image_parsed : parse names image_text ≡ ok image
unfolding parse validate cut_digest cut_tag cut_last contains names image image_text
image_parsed = refl

parse-IsReading_example : IsReading image_text image × IsAccepted names image
parse-IsReading_example = parse-IsReading names image_text image image_parsed

image-IsAccepted : IsAccepted names image
unfolding names
image-IsAccepted = record { repository = refl; tag = inr refl; digest = inr refl }

no_byte :
    (contains image.tag b'/' ≡ false)
    × (contains image.tag b':' ≡ false)
    × (contains image.digest b'@' ≡ false)
unfolding contains image
no_byte = (refl, refl, refl)

current : Version
current = record { raw = str "1.2"; parts = 1 ∷ 2 ∷ []; suffix = [] }

tags : List Str
tags = str "latest" ∷ str "1.3" ∷ str "v1.10.4" ∷ str "1.9-alpine" ∷ str "20240101" ∷ str "1.4" ∷ []

no_constraints : Str → Option Constraint
no_constraints s = none

picked_tag : pick_version no_constraints tags current [] ≡ ok (str "v1.10.4")
unfolding all pick_version pick_loop consider better is_candidate constraint_of raw_or_empty
    parse_version compare_versions compare_from truncated atoi cut_byte split_byte list_beq tags
    current no_constraints
picked_tag = refl

pick_version-IsBest_example :
    (c : Option Constraint) × (best : Option Version) × IsRange no_constraints [] c
    × IsPicked current c tags (str "v1.10.4") best
    × IsBest current c tags best
pick_version-IsBest_example =
    pick_version-IsBest no_constraints tags current [] (str "v1.10.4") picked_tag
