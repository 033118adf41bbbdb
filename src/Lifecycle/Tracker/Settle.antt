-- ===== src/Lifecycle/Tracker/Settle.antt =====
-- What one round of the second loop of `poll` does to each unit.
use creidhne.Base.{
  ℕ, ◌+◌, ◌-◌, ◌≡◌, refl, ◌∙◌, ap, Bool, true, not, ◌&&◌, ◌||◌, ◌==◌, Option, none, some, list_eq,
  nat_eq, leb, ltb, beq→eq, beq_refl, inl, inr, arith, Bool-cases, if◌then◌else◌,
}
use creidhne.Base.Str.{Str}
use creidhne.Base.Dict
use creidhne.Base.Dict.{Dict}
use creidhne.Systemd.Show.{UnitStatus}
use creidhne.Lifecycle.Tracker.{
  Tracker, accrued, settled, clock_from, start_clock, is_over, check_budget, is_settled,
  settle_unit,
}

-- The start of a unit's clock, now if it does not run yet.
abbrev pub from_or : ℕ → Option ℕ → ℕ
from_or now none = now
from_or now (some from) = from

abbrev pub budget_spent : ℕ → ℕ → ℕ → Bool
budget_spent wait banked running = ltb 0 wait && leb wait (banked + running)

-- Nothing but the clocks changes.
record SameButClock (t t' : Tracker) : Type 0 where
  done : t'.done ≡ t.done
  stalled : t'.stalled ≡ t.stalled
  settle_wait : t'.settle_wait ≡ t.settle_wait
  settle_accrued : t'.settle_accrued ≡ t.settle_accrued
  enqueue : t'.enqueue ≡ t.enqueue
  units : t'.units ≡ t.units

module _ (now : ℕ) (u : Str) (t : Tracker) where
  clock_from-lookup :
      (v : Str) (o : Option ℕ)
      → Dict.lookup u t.settle_from ≡ o
      → Dict.lookup v (clock_from u now o t).settle_from
        ≡ (if v == u then some (from_or now o) else Dict.lookup v t.settle_from)
  clock_from-lookup v none e = Dict.lookup-insert v u now t.settle_from
  clock_from-lookup v (some from) e = elim (Bool-cases (v == u)) [
    | inl same ↦ rw same (ap (λ x. Dict.lookup x t.settle_from) (beq→eq {a = v} {b = u} same) ∙ e)
    | inr other ↦ rw other refl
  ]

  start_clock-from :
      (v : Str)
      → Dict.lookup v (start_clock u now t).settle_from ≡ (
          if v == u
          then some (from_or now (Dict.lookup u t.settle_from))
          else Dict.lookup v t.settle_from)
  unfolding start_clock
  start_clock-from v = clock_from-lookup v (Dict.lookup u t.settle_from) refl

  clock_from-SameButClock : (o : Option ℕ) → SameButClock t (clock_from u now o t)
  clock_from-SameButClock none = record {
    done = refl;
    stalled = refl;
    settle_wait = refl;
    settle_accrued = refl;
    enqueue = refl;
    units = refl;
  }
  clock_from-SameButClock (some from) = record {
    done = refl;
    stalled = refl;
    settle_wait = refl;
    settle_accrued = refl;
    enqueue = refl;
    units = refl;
  }

  start_clock-SameButClock : SameButClock t (start_clock u now t)
  unfolding start_clock
  start_clock-SameButClock = clock_from-SameButClock (Dict.lookup u t.settle_from)

  is_over-start_clock :
      is_over u now (start_clock u now t)
      ≡ budget_spent t.settle_wait (accrued t u) (now - from_or now (Dict.lookup u t.settle_from))
  unfolding is_over accrued
  is_over-start_clock =
      let same = start_clock-SameButClock in
      rw (same.settle_wait, same.settle_accrued, start_clock-from u, beq_refl u) refl

  check_budget-fields :
      (s : Tracker) (v : Str)
      → ((check_budget u now s).done ≡ s.done)
        × ((check_budget u now s).settle_from ≡ s.settle_from)
        × ((check_budget u now s).settle_wait ≡ s.settle_wait)
        × ((check_budget u now s).settle_accrued ≡ s.settle_accrued)
        × ((check_budget u now s).enqueue ≡ s.enqueue)
        × ((check_budget u now s).units ≡ s.units)
        × (Dict.has v (check_budget u now s).stalled
            ≡ ((v == u && is_over u now s) || Dict.has v s.stalled))
  unfolding check_budget
  check_budget-fields s v = elim (Bool-cases (is_over u now s)) [
    | inl h ↦
        rw (h, Dict.has-insert v u true s.stalled)
          (refl, refl, refl, refl, refl, refl, ground arith)
    | inr h ↦ rw h (refl, refl, refl, refl, refl, refl, ground arith)
  ]

  module _ (status : Option UnitStatus) where
    -- All that a round does to a unit `v`.
    pub record IsRound (v : Str) (t' : Tracker) : Type 0 where
      pub done : Dict.has v t'.done ≡ ((v == u && is_settled status) || Dict.has v t.done)
      pub stalled : Dict.has v t'.stalled ≡ (
          (v == u
            && (not (is_settled status)
                && budget_spent t.settle_wait
                    (accrued t u)
                    (now - from_or now (Dict.lookup u t.settle_from))))
          || Dict.has v t.stalled)
      pub from : Dict.lookup v t'.settle_from ≡ (
          if v == u
          then if is_settled status then none else some (from_or now (Dict.lookup u t.settle_from))
          else Dict.lookup v t.settle_from)
      pub settle_wait : t'.settle_wait ≡ t.settle_wait
      pub accrued : t'.settle_accrued ≡ t.settle_accrued
      pub enqueue : t'.enqueue ≡ t.enqueue
      pub units : t'.units ≡ t.units

    pub settle_unit-IsRound : (v : Str) → IsRound v (settle_unit u now status t)
    unfolding settle_unit settled
    settle_unit-IsRound v =
        let same = start_clock-SameButClock in
        let (d, f, w, a, q, us, st) = check_budget-fields (start_clock u now t) v in
        elim (Bool-cases (is_settled status)) [
          | inl h ↦ rw h (record {
            done = rw (Dict.has-insert v u true t.done) (ground arith);
            stalled = ground arith;
            from = rw (Dict.lookup-erase v u t.settle_from) (ground arith);
            settle_wait = refl;
            accrued = refl;
            enqueue = refl;
            units = refl;
          })
          | inr h ↦ rw h (record {
            done = rw (d, same.done) (ground arith);
            stalled = rw (st, is_over-start_clock, same.stalled) (ground (arith, h));
            from = rw (f, start_clock-from v) (ground (arith, h));
            settle_wait = w ∙ same.settle_wait;
            accrued = a ∙ same.settle_accrued;
            enqueue = q ∙ same.enqueue;
            units = us ∙ same.units;
          })
        ]
