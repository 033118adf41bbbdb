-- ===== src/Graph/Types.antt =====
-- `graphNode`, `graphEdge` and `depGraph`.
use creidhne.Base.{Bool, List}
use creidhne.Base.Str.{Str}
use creidhne.Base.Dict.{Dict}

pub record GraphNode : Type 0 where
  pub id : Str
  pub kind : Str
  pub quadlet : Str
  pub external : Bool

pub record GraphEdge : Type 0 where
  pub from : Str
  pub to : Str
  pub rel : Str

pub record DepGraph : Type 0 where
  pub nodes : Dict Str GraphNode
  pub edges : List GraphEdge
