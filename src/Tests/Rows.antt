-- ===== src/Tests/Rows.antt =====
-- The selection of rows, in a quadlet with a container and one without.
use creidhne.Base.{false, List, [], ◌∷◌}
use creidhne.Base.Str.{Str, str}
use creidhne.Status.Types.{StatusRow}

row : Str → Str → StatusRow
row quadlet path = record {
  quadlet = quadlet;
  path = path;
  service = [];
  disk = [];
  loaded = [];
  runtime = [];
  since = (false, 0);
  stale = false;
  stale_note = [];
  blocked = [];
  artifact = false;
}

abbrev rows : List StatusRow
rows =
    row (str "web") (str "app.container")
    ∷ row (str "web") (str "web.network")
    ∷ row (str "data") (str "data.volume")
    ∷ []
