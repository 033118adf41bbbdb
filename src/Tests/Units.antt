-- ===== src/Tests/Units.antt =====
-- The output of systemctl for two units.
use creidhne.Base.{
  ℕ, ◌≡◌, refl, true, false, Option, none, List, [], ◌∷◌, Result, ok, list_eq, nat_eq, list_beq,
  select,
}
use creidhne.Base.Str.{Str, str, cut_byte}
use creidhne.Base.Dict
use creidhne.Base.Dict.{Dict}
use creidhne.Systemd.Show.{
  UnitStatus, show, show_args, parse_show, complete, scan_all, scan_line, flush, flush_as,
  block_name, status_of, parse_timestamp, prop, requested_at,
}
use creidhne.Systemd.Show.Complete.{AllPresent, IsNamed, show-AllPresent}

no_time : Str → Option ℕ
no_time s = none

lines_of : Str → List Str
lines_of s =
    str "Id=app.service"
    ∷ str "ActiveState=active"
    ∷ str "SubState=running"
    ∷ []
    ∷ str "LoadState=not-found"
    ∷ []

silent : List Str → Result Str Str
silent args = ok []

abbrev units : List Str
units = str "app.service" ∷ str "db.service" ∷ []

status : Str → Str → Str → Str → UnitStatus
status name load active sub = record {
  name = name;
  load_state = load;
  active_state = active;
  sub_state = sub;
  need_daemon_reload = false;
  active_enter = 0;
  inactive_exit = 0;
  result = [];
}

statuses : Dict Str UnitStatus
statuses =
    (str "app.service", status (str "app.service") [] (str "active") (str "running"))
    ∷ (str "db.service", status (str "db.service") (str "not-found") [] [])
    ∷ []

shown : show no_time lines_of silent true units ≡ ok statuses
unfolding show show_args parse_show complete scan_all scan_line flush flush_as block_name status_of
    parse_timestamp prop requested_at Dict.insert Dict.lookup Dict.has list_beq select cut_byte
    statuses status silent lines_of no_time
shown = refl

show-AllPresent_example : AllPresent units statuses × IsNamed statuses
show-AllPresent_example = show-AllPresent no_time lines_of silent true units statuses shown
