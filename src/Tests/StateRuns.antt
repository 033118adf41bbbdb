-- ===== src/Tests/StateRuns.antt =====
-- A unit file that is applied three times, the second time unchanged.
use mathlib.Core.Path.{subst}
use creidhne.Base.{String, All}
use creidhne.Base.{
  ◌≡◌, refl, true, false, Option, some, List, [], ◌∷◌, list_eq, nat_eq, list_beq, contains, arith,
}
use creidhne.Base.Str.{Str, str}
use creidhne.Base.Order.{sort, str_order, str_le}
use creidhne.Base.Dict
use creidhne.Base.Dict.{Dict}
use creidhne.Eval.Data.{Quadlet, Fields}
use creidhne.State.Types.{Time, File, FileInput, State, QuadletRecord}
use creidhne.State.Build.{
  superseded, cap_history, carry, new_file, build_file, build, build_loop, build_quadlet,
  build_files, prev_files, index_files, input_at, inputs_of, unit_state,
}
use creidhne.State.Query.{recorded, latest, in_effect_at, file_record}
use creidhne.State.History.{IsRecorded, current_at, in_effect_at-IsRecorded}
use creidhne.State.Capped.{IsCapped, FitsCap, build-IsCapped}
use creidhne.State.Equal.{equal, restamp, equal-restamp}

abbrev hash : Str → Str
hash s = s

abbrev unit : Str
unit = str "app.container"

abbrev input : String → FileInput
input text = record { content = str text; mode = [] }

file_at : Time → Dict Str File → FileInput → File
unfolding build_file carry new_file superseded cap_history Dict.lookup list_beq contains
file_at now prev file_in = build_file hash now prev unit file_in

abbrev once : File
once = record {
  path = unit;
  sha256 = str "one";
  mode = [];
  applied_at = 10;
  content = str "one";
  history = [];
}

abbrev twice : File
twice = once

abbrev thrice : File
thrice = record {
  path = unit;
  sha256 = str "two";
  mode = [];
  applied_at = 30;
  content = str "two";
  history = record { sha256 = str "one"; applied_at = 10; content = str "one" } ∷ [];
}

first_run : file_at 10 [] (input "one") ≡ once
unfolding file_at
first_run = refl

third_run : file_at 30 ((unit, twice) ∷ []) (input "two") ≡ thrice
unfolding file_at
third_run = refl

IsRecorded-once : IsRecorded hash unit ((10, str "one") ∷ []) once
unfolding file_at
IsRecorded-once = IsRecorded.first [] 10 (input "one") refl refl refl

IsRecorded-twice : IsRecorded hash unit ((20, str "one") ∷ (10, str "one") ∷ []) twice
unfolding file_at
IsRecorded-twice =
    IsRecorded.later ((unit, once) ∷ []) once 10 20 (str "one") [] (input "one") IsRecorded-once
      (omega arith) refl refl refl

IsRecorded-thrice :
    IsRecorded hash unit ((30, str "two") ∷ (20, str "one") ∷ (10, str "one") ∷ []) thrice
unfolding file_at
IsRecorded-thrice =
    IsRecorded.later ((unit, twice) ∷ []) twice 20 30 (str "one") ((10, str "one") ∷ [])
      (input "two") IsRecorded-twice (omega arith) refl refl refl

shown_at_25 : in_effect_at thrice 25 ≡ some (str "one")
unfolding in_effect_at latest recorded
shown_at_25 = refl

unit_is_flat : contains unit b'/' ≡ false
unfolding contains
unit_is_flat = refl

in_effect_at-IsRecorded_example :
    current_at 25 ((30, str "two") ∷ (20, str "one") ∷ (10, str "one") ∷ []) ≡ some (str "one")
in_effect_at-IsRecorded_example =
    in_effect_at-IsRecorded hash unit unit_is_flat 30 (str "two")
      ((20, str "one") ∷ (10, str "one") ∷ []) 25 (str "one") IsRecorded-thrice
      (refl, (refl, (refl, tt))) ((λ h. h), ((λ h. h), tt)) shown_at_25

abbrev quads : List Quadlet
quads =
    record {
      name = str "app";
      units =
          record {
            kind = str "container";
            stem = str "app";
            filename = unit;
            service = str "app.service";
            unit_data = Fields.end;
          }
          ∷ [];
    }
    ∷ []

abbrev rendered : Dict Str (Dict Str FileInput)
rendered = (str "app", (unit, input "two") ∷ []) ∷ []

abbrev before : State
before = record {
  version = 1;
  crei_version = str "2.9.0";
  quadlets = (str "app", record { applied_at = 10; units = []; files = once ∷ [] }) ∷ [];
}

built : Time → Option State → State
unfolding build build_loop build_quadlet build_files build_file carry new_file superseded
    cap_history prev_files index_files input_at inputs_of unit_state sort str_le Dict.lookup
    Dict.insert Dict.keys list_beq contains
built now prev = build hash now (str "2.10.0") prev quads rendered

built_file : file_record (some (built 30 (some before))) unit ≡ some thrice
unfolding built file_record
built_file = refl

before-IsCapped : IsCapped before
unfolding Dict.lookup
before-IsCapped = record {
  at = λ name q e.
      let known : QuadletRecord = record { applied_at = 10; units = []; files = once ∷ [] } in
      let same : known ≡ q = ground arith in
      let fits : All FitsCap known.files = (omega arith, tt) in
      subst (λ (x : QuadletRecord). All FitsCap x.files) same fits;
}

build-IsCapped_example : IsCapped (build hash 30 (str "2.10.0") (some before) quads rendered)
build-IsCapped_example =
    build-IsCapped hash 30 (str "2.10.0") (some before) quads rendered before-IsCapped

equal-restamp_example :
    equal
      (λ s. s.crei_version)
      (some before)
      (some (restamp (str "3") (λ name. 7) (λ path. 8) before))
    ≡ true
equal-restamp_example = equal-restamp (str "3") (λ name. 7) (λ path. 8) (λ s. s.crei_version) before
