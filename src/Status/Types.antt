-- ===== src/Status/Types.antt =====
-- `statusRow`.
use creidhne.Base.{ℕ, Bool, true, false, ◌-◌, ltb, if◌then◌else◌}
use creidhne.Base.Str.{Str}

-- A `time.Duration`: whether it is negative, and its size.
abbrev pub Duration : Type 0
Duration = Bool × ℕ

-- `now.Sub(from)`
abbrev pub sub : ℕ → ℕ → Duration
sub now from = if ltb now from then (true, from - now) else (false, now - from)

pub record StatusRow : Type 0 where
  pub quadlet : Str
  pub path : Str
  pub service : Str
  pub disk : Str
  pub loaded : Str
  pub runtime : Str
  pub since : Duration
  pub stale : Bool
  pub stale_note : Str
  pub blocked : Str
  pub artifact : Bool
