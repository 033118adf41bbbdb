-- ===== src/State/Equal.antt =====
-- `Equal`: whether two states record the same content. `marshal` is `json.Marshal`.
use creidhne.Base.{
  ◌≡◌, refl, beq_refl, Bool, true, false, Option, none, some, List, [], ◌∷◌, map, ◌==◌, list_eq,
  nat_eq,
}
use creidhne.Base.Str.{Str}
use creidhne.Base.Dict.{Dict}
use creidhne.State.Types.{Time, File, QuadletRecord, State}

normalized_file : File → File
normalized_file f = record f { applied_at = 0 }

normalized_quadlet : QuadletRecord → QuadletRecord
unfolding normalized_file
normalized_quadlet q = record {
  applied_at = 0;
  units = q.units;
  files = map normalized_file q.files;
}

unfoldable pub normalized_quadlets : Dict Str QuadletRecord → Dict Str QuadletRecord
unfolding normalized_quadlet
normalized_quadlets [] = []
normalized_quadlets ((name, q) ∷ m) = (name, normalized_quadlet q) ∷ normalized_quadlets m

unfoldable pub normalized : State → State
normalized s = record {
  version = s.version;
  crei_version = [];
  quadlets = normalized_quadlets s.quadlets;
}

module _ (marshal : State → Str) where
  unfoldable pub equal : Option State → Option State → Bool
  equal none none = true
  equal none (some b) = false
  equal (some a) none = false
  equal (some a) (some b) = marshal (normalized a) == marshal (normalized b)

-- The state with another version of the program, and with other times of application.
module _ (crei_version : Str) (quadlet_time : Str → Time) (file_time : Str → Time) where
  abbrev restamp_file : File → File
  restamp_file f = record f { applied_at = file_time f.path }

  abbrev restamp_quadlet : Str → QuadletRecord → QuadletRecord
  restamp_quadlet name q = record q {
    applied_at = quadlet_time name;
    files = map restamp_file q.files;
  }

  abbrev pub restamp : State → State
  restamp s = record s {
    crei_version = crei_version;
    quadlets = map (λ (name, q). (name, restamp_quadlet name q)) s.quadlets;
  }

  normalized_files-restamp :
      (fs : List File) → map normalized_file (map restamp_file fs) ≡ map normalized_file fs
  unfolding normalized_file
  normalized_files-restamp [] = refl
  normalized_files-restamp (f ∷ fs) = rw (normalized_files-restamp fs)

  normalized_quadlets-restamp :
      (m : Dict Str QuadletRecord)
      → normalized_quadlets (map (λ (name, q). (name, restamp_quadlet name q)) m)
        ≡ normalized_quadlets m
  unfolding normalized_quadlets normalized_quadlet
  normalized_quadlets-restamp [] = refl
  normalized_quadlets-restamp ((name, q) ∷ m) =
      rw (normalized_files-restamp q.files, normalized_quadlets-restamp m)

  -- A state and the same state with other apply times of its files and quadlets and another
  -- program version are equal to the comparison, whatever the serialisation.
  pub equal-restamp :
      (marshal : State → Str) (s : State) → equal marshal (some s) (some (restamp s)) ≡ true
  unfolding equal normalized
  equal-restamp marshal s =
      rw (normalized_quadlets-restamp s.quadlets) (beq_refl (marshal (normalized s)))
