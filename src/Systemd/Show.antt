-- ===== src/Systemd/Show.antt =====
-- `UnitStatus`, `parseShow` and `Show`. The line scanner, the time parser and systemctl itself are
-- parameters; an instant is a number, zero for the zero time.
pub mod Complete
use creidhne.Base.{
  ℕ, zero, suc, ◌+◌, Bool, true, false, not, ◌&&◌, ◌==◌, Option, none, some, List, [], ◌∷◌, ◌++◌,
  Result, ok, err, ◌>>=◌, list_eq, nat_eq, is_nil, select, if◌then◌else◌,
}
use creidhne.Base.Str.{Str, str, cut_byte}
use creidhne.Base.Dict
use creidhne.Base.Dict.{Dict}

pub record UnitStatus : Type 0 where
  pub name : Str
  pub load_state : Str
  pub active_state : Str
  pub sub_state : Str
  pub need_daemon_reload : Bool
  pub active_enter : ℕ
  pub inactive_exit : ℕ
  pub result : Str

pub data ShowError : Type 0 where
  run_failed : Str → ShowError
  no_properties : ShowError
  missing_properties : List Str → ShowError

-- `block[key]`
abbrev or_empty : Option Str → Str
or_empty none = []
or_empty (some s) = s

unfoldable pub prop : Dict Str Str → Str → Str
prop block key = or_empty (Dict.lookup key block)

-- `requested[i]` where `i < len(requested)`, and the empty text otherwise
unfoldable pub requested_at : List Str → ℕ → Str
requested_at [] i = []
requested_at (u ∷ us) zero = u
requested_at (u ∷ us) (suc i) = requested_at us i

-- `Running`
unfoldable pub is_running : UnitStatus → Bool
is_running u = u.active_state == str "active" && u.sub_state == str "running"

abbrev pub properties : Str
properties =
    str
      "Id,LoadState,ActiveState,SubState,NeedDaemonReload,ActiveEnterTimestamp,InactiveExitTimestamp,Result"

pub record Scan : Type 0 where
  pub block : Dict Str Str
  pub idx : ℕ
  pub statuses : Dict Str UnitStatus

unfoldable pub block_name : List Str → Scan → Str
block_name requested s =
    let id = prop s.block (str "Id") in if is_nil id then requested_at requested s.idx else id

abbrev pub add_cut : Option (Str × Str) → Scan → Scan
add_cut none s = s
add_cut (some (k, v)) s = record s { block = Dict.insert k v s.block }

-- The checks of a response.
unfoldable pub complete : List Str → Dict Str UnitStatus → Result ShowError (Dict Str UnitStatus)
complete units parsed =
    let missing = select (λ u. not (Dict.has u parsed)) units in
    if is_nil parsed
    then err no_properties
    else if is_nil missing
    then ok parsed
    else err (missing_properties missing)

unfoldable pub show_args : Bool → List Str → List Str
show_args user_scope units =
    (if user_scope then str "--user" ∷ [] else [])
    ++ (str "show" ∷ (str "--property=" ++ properties) ∷ units)

module _ (parse_time : Str → Option ℕ) where
  unfoldable pub parse_timestamp : Str → ℕ
  parse_timestamp v =
      if is_nil v
      then 0
      else if v == str "n/a"
      then 0
      else elim (parse_time v) [ none ↦ 0 | some t ↦ t ]

  unfoldable pub status_of : Str → Dict Str Str → UnitStatus
  status_of name block = record {
    name = name;
    load_state = prop block (str "LoadState");
    active_state = prop block (str "ActiveState");
    sub_state = prop block (str "SubState");
    need_daemon_reload = prop block (str "NeedDaemonReload") == str "yes";
    active_enter = parse_timestamp (prop block (str "ActiveEnterTimestamp"));
    inactive_exit = parse_timestamp (prop block (str "InactiveExitTimestamp"));
    result = prop block (str "Result");
  }

  -- The closure `flush`, with the name of the block.
  unfoldable pub flush_as : Str → Scan → Scan
  flush_as name s =
      if is_nil name
      then record { block = []; idx = s.idx + 1; statuses = s.statuses }
      else record {
        block = [];
        idx = s.idx + 1;
        statuses = Dict.insert name (status_of name s.block) s.statuses;
      }

  unfoldable pub flush : List Str → Scan → Scan
  flush requested s = if is_nil s.block then s else flush_as (block_name requested s) s

  unfoldable pub scan_line : List Str → Str → Scan → Scan
  scan_line requested line s =
      if is_nil line then flush requested s else add_cut (cut_byte line b'=') s

  unfoldable pub scan_all : List Str → List Str → Scan → Scan
  scan_all requested [] s = flush requested s
  scan_all requested (line ∷ lines) s = scan_all requested lines (scan_line requested line s)

  module _ (scan_lines : Str → List Str) where
    unfoldable pub parse_show : Str → List Str → Dict Str UnitStatus
    parse_show out requested =
        (scan_all requested (scan_lines out)
          (record { block = []; idx = 0; statuses = [] })).statuses

    module _ (run : List Str → Result Str Str) where
      abbrev read_output : List Str → Result Str Str → Result ShowError (Dict Str UnitStatus)
      read_output units (err e) = err (run_failed e)
      read_output units (ok out) = complete units (parse_show out units)

      unfoldable pub show : Bool → List Str → Result ShowError (Dict Str UnitStatus)
      show user_scope units =
          if is_nil units then ok [] else read_output units (run (show_args user_scope units))
