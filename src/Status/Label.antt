-- ===== src/Status/Label.antt =====
-- The labels of the column DISK (internal/cli/status.go).
use creidhne.Base.Str.{Str, str}

abbrev pub synced : Str
synced = str "synced"

abbrev pub pending : Str
pending = str "pending"

abbrev pub tampered : Str
tampered = str "tampered"

abbrev pub missing : Str
missing = str "missing"

abbrev pub orphan : Str
orphan = str "orphan"

abbrev pub foreign : Str
foreign = str "foreign"

abbrev pub applied : Str
applied = str "applied"

abbrev pub unknown : Str
unknown = str "unknown"
