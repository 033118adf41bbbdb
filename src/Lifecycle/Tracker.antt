-- ===== src/Lifecycle/Tracker.antt =====
-- `restartTracker`, `poll`, `allDone`, `failures` and `failedError` (internal/cli/lifecycle.go).
-- Instants are numbers of the monotonic clock. What a poll asks of systemd is its `Answers`.
pub mod Settle
pub mod Live
pub mod Ends
pub mod Verified
pub mod Phases
pub mod Paused
use creidhne.Base.{
  ℕ, ◌+◌, ◌-◌, Bool, true, false, not, ◌&&◌, ◌||◌, ◌==◌, Option, none, some, List, [], ◌∷◌, Result,
  ok, err, list_eq, nat_eq, leb, ltb, is_nil, select, all, contains, if◌then◌else◌,
}
use creidhne.Base.Str.{Str, str}
use creidhne.Base.Dict
use creidhne.Base.Dict.{Dict}
use creidhne.Systemd.Show.{UnitStatus}

unfoldable pub transitional : Str → Bool
transitional s =
    contains
      (str "activating"
        ∷ str "deactivating"
        ∷ str "reloading"
        ∷ str "refreshing"
        ∷ str "maintenance"
        ∷ [])
      s

-- The transition of a tracker: what counts as a failed unit once the job queue drains.
pub data Verb : Type 0 where
  restart start stop : Verb

unfoldable pub verb_failed : Verb → UnitStatus → Bool
verb_failed Verb.stop st = st.active_state == str "active" || st.active_state == str "activating"
verb_failed _ st = st.active_state == str "failed" || transitional st.active_state

-- A `map[string]bool` that only ever holds `true`; `accrued` and `from` are the settle clocks.
-- What only serves the output is left out: the writer, the rows, the notes and the width.
pub record Tracker : Type 0 where
  pub units : List Str
  pub enqueue : List Str
  pub verb : Verb
  pub done : Dict Str Bool
  pub settle_wait : ℕ
  pub stalled : Dict Str Bool
  pub settle_from : Dict Str ℕ
  pub settle_accrued : Dict Str ℕ

-- `trackedTransition` up to the flow: the units that are in the target state already are done, and
-- the others are enqueued.
unfoldable pub done_of : Dict Str Str → List Str → Dict Str Bool
done_of pre_done [] = []
done_of pre_done (u ∷ us) =
    let rest = done_of pre_done us in if Dict.has u pre_done then Dict.insert u true rest else rest

unfoldable pub new_tracker : List Str → Verb → Dict Str Str → ℕ → Tracker
new_tracker units verb pre_done settle_wait = record {
  units = units;
  enqueue = select (λ u. not (Dict.has u pre_done)) units;
  verb = verb;
  done = done_of pre_done units;
  settle_wait = settle_wait;
  stalled = [];
  settle_from = [];
  settle_accrued = [];
}

-- `t.settleAccrued[unit]`
abbrev pub or_zero : Option ℕ → ℕ
or_zero none = 0
or_zero (some n) = n

unfoldable pub accrued : Tracker → Str → ℕ
accrued t u = or_zero (Dict.lookup u t.settle_accrued)

abbrev pub bank_from : Str → ℕ → Option ℕ → Tracker → Tracker
bank_from u now none t = t
bank_from u now (some from) t = record t {
  settle_accrued = Dict.insert u (accrued t u + (now - from)) t.settle_accrued;
  settle_from = Dict.erase u t.settle_from;
}

unfoldable pub bank_settle : Str → ℕ → Tracker → Tracker
bank_settle u now t = bank_from u now (Dict.lookup u t.settle_from) t

unfoldable pub is_moving : Tracker → Str → Bool
is_moving t u = not (Dict.has u t.done) && not (Dict.has u t.stalled)

-- The first loop: the tracker, and the units whose job has cleared.
unfoldable pub scan_jobs : Dict Str Str → ℕ → List Str → Tracker → Tracker × List Str
scan_jobs pending now [] t = (t, [])
scan_jobs pending now (u ∷ us) t =
    let queued = Dict.has u pending in
    let (t', cleared) =
      scan_jobs pending now us (if is_moving t u && queued then bank_settle u now t else t) in
    (t', if is_moving t u && not queued then u ∷ cleared else cleared)

unfoldable pub settled : Str → Tracker → Tracker
settled u t = record t {
  done = Dict.insert u true t.done;
  settle_from = Dict.erase u t.settle_from;
}

-- The clock of a unit that is still in transition, and the check of its budget.
abbrev pub clock_from : Str → ℕ → Option ℕ → Tracker → Tracker
clock_from u now none t = record t { settle_from = Dict.insert u now t.settle_from }
clock_from u now (some from) t = t

unfoldable pub start_clock : Str → ℕ → Tracker → Tracker
start_clock u now t = clock_from u now (Dict.lookup u t.settle_from) t

unfoldable pub is_over : Str → ℕ → Tracker → Bool
is_over u now t =
    ltb 0 t.settle_wait
    && leb t.settle_wait (accrued t u + (now - or_zero (Dict.lookup u t.settle_from)))

unfoldable pub check_budget : Str → ℕ → Tracker → Tracker
check_budget u now t =
    if is_over u now t then record t { stalled = Dict.insert u true t.stalled } else t

abbrev pub is_settled : Option UnitStatus → Bool
is_settled none = true
is_settled (some st) = not (transitional st.active_state)

-- The body of the second loop.
unfoldable pub settle_unit : Str → ℕ → Option UnitStatus → Tracker → Tracker
settle_unit u now status t =
    if is_settled status then settled u t else check_budget u now (start_clock u now t)

unfoldable pub settle_all : Dict Str UnitStatus → ℕ → List Str → Tracker → Tracker
settle_all statuses now [] t = t
settle_all statuses now (u ∷ us) t =
    settle_all statuses now us (settle_unit u now (Dict.lookup u statuses) t)

-- What systemd and the clock answer to one poll.
pub record Answers : Type 0 where
  pub now : ℕ
  pub pending : Result Str (Dict Str Str)
  pub statuses : List Str → Result Str (Dict Str UnitStatus)

abbrev pub settle_answer :
    ℕ → List Str → Result Str (Dict Str UnitStatus) → Tracker → Tracker × Result Str (Unit {0})
settle_answer now cleared (err e) t = (t, err e)
settle_answer now cleared (ok statuses) t = (settle_all statuses now cleared t, ok tt)

unfoldable pub settle_cleared : Answers → Tracker → List Str → Tracker × Result Str (Unit {0})
settle_cleared a t cleared =
    if is_nil cleared then (t, ok tt) else settle_answer a.now cleared (a.statuses cleared) t

abbrev pub poll_answer :
    Answers → Result Str (Dict Str Str) → Tracker → Tracker × Result Str (Unit {0})
poll_answer a (err e) t = (t, err e)
poll_answer a (ok pending) t =
    let (t', cleared) = scan_jobs pending a.now t.enqueue t in settle_cleared a t' cleared

-- `poll`: the tracker is changed in place, also where the poll ends in an error.
unfoldable pub poll : Answers → Tracker → Tracker × Result Str (Unit {0})
poll a t = poll_answer a a.pending t

unfoldable pub all_done : Tracker → Bool
all_done t = all (λ u. not (is_moving t u)) t.units

pub data FinishError : Type 0 where
  verifying_failed : Str → FinishError
  no_state : List Str → FinishError
  failed_units : List Str → FinishError

-- A unit that systemd returned nothing for is collected apart, by `missing_in`.
abbrev pub fails_with : Verb → Option UnitStatus → Bool
fails_with verb none = false
fails_with verb (some st) = verb_failed verb st

-- The loop of `failures`: the failed units, and those that systemd returned nothing for.
unfoldable pub failures_in : Verb → Dict Str UnitStatus → List Str → Dict Str Bool → Dict Str Bool
failures_in verb statuses [] failed = failed
failures_in verb statuses (u ∷ us) failed =
    failures_in verb statuses us
      (if fails_with verb (Dict.lookup u statuses) then Dict.insert u true failed else failed)

unfoldable pub missing_in : Dict Str UnitStatus → List Str → List Str
missing_in statuses us = select (λ u. not (Dict.has u statuses)) us

unfoldable pub failed_error : Tracker → Dict Str Bool → Result FinishError (Unit {0})
failed_error t failed =
    let names = select (λ u. Dict.has u failed) t.units in
    if is_nil names then ok tt else err (failed_units names)

abbrev pub finish_with : Tracker → Result Str (Dict Str UnitStatus) → Result FinishError (Unit {0})
finish_with t (err e) = err (verifying_failed e)
finish_with t (ok statuses) =
    let missing = missing_in statuses t.enqueue in
    if is_nil missing
    then failed_error t (failures_in t.verb statuses t.enqueue t.stalled)
    else err (no_state missing)

-- The end of both flows: `failures`, then its error, or the failed units.
unfoldable pub finish : Answers → Tracker → Result FinishError (Unit {0})
finish a t = finish_with t (a.statuses t.enqueue)

-- The loop of `plainFlow` (the one of `animate` only polls less often) on the answers that it
-- gets: `none` while it still waits, the error of a poll, or the tracker with all units done.
abbrev pub loop_step :
    Tracker × Result Str (Unit {0}) → Option (Result Str Tracker) → Option (Result Str Tracker)
loop_step (t, err e) rest = some (err e)
loop_step (t, ok done) rest = if all_done t then some (ok t) else rest

unfoldable pub wait_loop : List Answers → Tracker → Option (Result Str Tracker)
wait_loop [] t = none
wait_loop (a ∷ answers) t = let rest = wait_loop answers (poll a t).0 in loop_step (poll a t) rest
