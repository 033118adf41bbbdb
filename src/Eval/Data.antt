-- ===== src/Eval/Data.antt =====
-- The decoded unit data (`map[string]any`), `UnitRecord`, `Quadlet` and `ImageEntry`.
use creidhne.Base.{ℕ, Bool, Option, none, some, List, ◌==◌, list_eq, nat_eq, if◌then◌else◌}
use creidhne.Base.Str.{Str}

-- The values that `decodeJSONNumbers` leaves. An `int64` is its sign and its size; a float is
-- kept as its text.
mutual
  pub data Value : Type 0 where
    null : Value
    bool : Bool → Value
    int : Bool → ℕ → Value
    float : Str → Value
    text : Str → Value
    list : Items → Value
    dict : Fields → Value

  pub data Fields : Type 0 where
    end : Fields
    field : Str → Value → Fields → Fields

  pub data Items : Type 0 where
    nil : Items
    cons : Value → Items → Items

-- `v, ok := m[key]`
unfoldable pub get_field : Fields → Str → Option Value
get_field Fields.end key = none
get_field (Fields.field k v m) key = if key == k then some v else get_field m key

pub record UnitRecord : Type 0 where
  pub kind : Str
  pub stem : Str
  pub filename : Str
  pub service : Str
  pub unit_data : Fields

pub record Quadlet : Type 0 where
  pub name : Str
  pub units : List UnitRecord

pub record ImageLock : Type 0 where
  pub reason : Str
  pub since : Str

pub record ImageEntry : Type 0 where
  pub key : Str
  pub image : Str
  pub digest : Str
  pub min_age : Str
  pub range : Str
  pub lock : Option ImageLock
