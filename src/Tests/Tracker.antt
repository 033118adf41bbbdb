-- ===== src/Tests/Tracker.antt =====
-- A restart of two units that flap: after the budget of 10 they are given up.
use creidhne.Base.{
  ℕ, arith, refl, false, [], ◌∷◌, ok, err, list_eq, nat_eq, list_beq, select, contains,
}
use mathlib.Core.List.{map}
use creidhne.Base.Str.{Str, str}
use creidhne.Base.Dict
use creidhne.Systemd.Show.{UnitStatus}
use creidhne.Lifecycle.Tracker.{
  Tracker, Verb, Answers, new_tracker, is_moving, poll, finish, missing_in, failed_error,
  failures_in, verb_failed, transitional,
}
use creidhne.Lifecycle.Tracker.Live.{IsClear}
use creidhne.Lifecycle.Tracker.Ends.{Ends, new_tracker-IsReady, wait_loop-Ends}
use creidhne.Lifecycle.Tracker.Paused.{IsPaused, poll-IsPaused}
use creidhne.Lifecycle.Tracker.Phases.{Advance, phase, polls, polls-Advance}
use creidhne.Lifecycle.Tracker.Verified.{IsVerified, finish-IsVerified}

shown : Str → Str → UnitStatus
shown state u = record {
  name = u;
  load_state = str "loaded";
  active_state = state;
  sub_state = [];
  need_daemon_reload = false;
  active_enter = 0;
  inactive_exit = 0;
  result = [];
}

abbrev answers : ℕ → Str → Answers
answers now state = record {
  now = now;
  pending = ok [];
  statuses = λ us. ok (map (λ u. (u, shown state u)) us);
}

abbrev flapping : Tracker
flapping = new_tracker (str "web" ∷ str "db" ∷ []) Verb.restart ((str "db", str "note") ∷ []) 10

answers-IsClear : (now : ℕ) (state : Str) → IsClear (str "web" ∷ []) (answers now state)
unfolding Dict.has Dict.lookup
answers-IsClear now state = record {
  jobs = [];
  answered = refl;
  none_queued = (refl, tt);
  shown = λ us. (map (λ u. (u, shown state u)) us, refl);
}

wait_loop-Ends_example :
    Ends
      (answers 3 (str "activating")
        ∷ answers 9 (str "activating")
        ∷ answers 13 (str "activating")
        ∷ [])
      flapping
unfolding new_tracker select Dict.has Dict.lookup list_beq
wait_loop-Ends_example =
    wait_loop-Ends (answers 3 (str "activating")) (answers 9 (str "activating") ∷ [])
      (answers 13 (str "activating")) flapping
      (new_tracker-IsReady (str "web" ∷ str "db" ∷ []) Verb.restart ((str "db", str "note") ∷ []) 10
        3)
      (answers-IsClear 3 (str "activating")) (answers-IsClear 9 (str "activating"), tt)
      (answers-IsClear 13 (str "activating")) refl (omega arith)

finish-IsVerified_example : IsVerified (answers 20 (str "active")) flapping
unfolding finish missing_in select new_tracker Dict.has list_beq failed_error failures_in
    verb_failed shown transitional contains
finish-IsVerified_example = finish-IsVerified (answers 20 (str "active")) flapping refl

polls-Advance_example : Advance (phase flapping (str "web")) (
    phase
      (polls (answers 3 (str "activating") ∷ answers 13 (str "activating") ∷ []) flapping)
      (str "web"))
polls-Advance_example =
    polls-Advance (answers 3 (str "activating") ∷ answers 13 (str "activating") ∷ []) flapping
      (str "web")

abbrev queued : Answers
queued = record {
  now = 20;
  pending = ok ((str "web", str "restart") ∷ []);
  statuses = λ us. err (str "no bus");
}

-- The clock of "web" has run since 12, after 4 that it had spent before.
abbrev running : Tracker
running = record {
  units = str "web" ∷ [];
  enqueue = str "web" ∷ [];
  verb = Verb.start;
  done = [];
  settle_wait = 90;
  stalled = [];
  settle_from = (str "web", 12) ∷ [];
  settle_accrued = (str "web", 4) ∷ [];
}

poll-IsPaused_example : IsPaused 20 (str "web") running (poll queued running).0
unfolding contains Dict.has Dict.lookup list_beq is_moving
poll-IsPaused_example =
    poll-IsPaused queued running (str "web") ((str "web", str "restart") ∷ []) refl refl refl refl
