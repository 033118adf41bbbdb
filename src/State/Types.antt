-- ===== src/State/Types.antt =====
-- The state document. A time is a number, and the zero time is 0.
use creidhne.Base.{ℕ, List}
use creidhne.Base.Str.{Str}
use creidhne.Base.Dict.{Dict}
use creidhne.Eval.Data.{Fields}

abbrev pub Time : Type 0
Time = ℕ

pub record UnitState : Type 0 where
  pub kind : Str
  pub stem : Str
  pub filename : Str
  pub service : Str
  pub unit_data : Fields

pub record Revision : Type 0 where
  pub sha256 : Str
  pub applied_at : Time
  pub content : Str

pub record File : Type 0 where
  pub path : Str
  pub sha256 : Str
  pub mode : Str
  pub applied_at : Time
  pub content : Str
  pub history : List Revision

abbrev pub history_cap : ℕ
history_cap = 10

pub record QuadletRecord : Type 0 where
  pub applied_at : Time
  pub units : List UnitState
  pub files : List File

pub record State : Type 0 where
  pub version : ℕ
  pub crei_version : Str
  pub quadlets : Dict Str QuadletRecord

pub record FileInput : Type 0 where
  pub content : Str
  pub mode : Str

-- `Version`
abbrev pub schema_version : ℕ
schema_version = 1
