-- ===== src/Lifecycle/Tracker/Paused.antt =====
-- The budget of a unit whose job is queued.
use creidhne.Base.{
  ℕ, ◌+◌, ◌-◌, ◌≡◌, refl, ◌∙◌, sym, ap, Bool, true, false, not, ◌&&◌, ◌==◌, Option, none, some,
  List, [], ◌∷◌, Result, ok, err, list_eq, nat_eq, is_nil, beq_refl, beq→eq, contains, inl, inr,
  arith, Bool-cases, if◌then◌else◌,
}
use mathlib.Core.Path.{subst}
use creidhne.Base.Str.{Str}
use creidhne.Base.Dict
use creidhne.Base.Dict.{Dict}
use creidhne.Systemd.Show.{UnitStatus}
use creidhne.Lifecycle.Tracker.{
  Tracker, Answers, or_zero, accrued, bank_from, bank_settle, is_moving, scan_jobs, settle_unit,
  settle_all, settle_answer, settle_cleared, poll, poll_answer,
}
use creidhne.Lifecycle.Tracker.Settle.{settle_unit-IsRound}
use creidhne.Lifecycle.Tracker.Phases.{
  is_moving_same, banked, banked-SameOutcome, scan_jobs-SameOutcome, settle_cleared-SameOutcome,
  or_left,
}

-- What the running clock of a unit adds by now.
abbrev pub spent : ℕ → Option ℕ → ℕ
spent now none = 0
spent now (some from) = now - from

-- What the unit owes by now.
abbrev pub charged : ℕ → Str → Tracker → ℕ
charged now v t = accrued t v + spent now (Dict.lookup v t.settle_from)

or_zero-if :
    (b : Bool) (n : ℕ) (o : Option ℕ)
    → or_zero (if b then some n else o) ≡ (if b then n else or_zero o)
or_zero-if true n o = refl
or_zero-if false n o = refl

none-if : (b : Bool) (o : Option ℕ) → o ≡ none → (if b then none else o) ≡ none
none-if true o e = refl
none-if false o e = e

module _ (now : ℕ) (v : Str) where
  bank_from-lookup :
      (u : Str) (t : Tracker) (o : Option ℕ)
      → Dict.lookup u t.settle_from ≡ o
      → Dict.lookup v (bank_from u now o t).settle_from
        ≡ (if v == u then none else Dict.lookup v t.settle_from)
  bank_from-lookup u t none e = elim (Bool-cases (v == u)) [
    | inl same ↦ rw same (ap (λ x. Dict.lookup x t.settle_from) (beq→eq {a = v} {b = u} same) ∙ e)
    | inr other ↦ rw other refl
  ]
  bank_from-lookup u t (some from) e = Dict.lookup-erase v u t.settle_from

  bank_from-charged :
      (u : Str) (t : Tracker) (o : Option ℕ)
      → Dict.lookup u t.settle_from ≡ o
      → charged now v (bank_from u now o t) ≡ charged now v t
  unfolding accrued
  bank_from-charged u t none e = refl
  bank_from-charged u t (some from) e =
      let clock = ap (spent now) (Dict.lookup-erase v u t.settle_from) in
      let bank =
        ap or_zero (Dict.lookup-insert v u (accrued t u + (now - from)) t.settle_accrued)
        ∙ or_zero-if (v == u) (accrued t u + (now - from)) (Dict.lookup v t.settle_accrued) in
      elim (Bool-cases (v == u)) [
        | inl same ↦
            (let here = ap (λ x. charged now x t) (beq→eq {a = v} {b = u} same) in
              let runs = ap (spent now) e in
              rw here (
                ap (λ x. x + spent now (Dict.lookup v (Dict.erase u t.settle_from))) bank
                ∙ (ap (λ y. (if v == u then accrued t u + (now - from) else accrued t v) + y) clock
                    ∙ rw same (omega (arith, runs)))))
        | inr other ↦
            (ap (λ x. x + spent now (Dict.lookup v (Dict.erase u t.settle_from))) bank
              ∙ (ap (λ y. (if v == u then accrued t u + (now - from) else accrued t v) + y) clock
                  ∙ rw other refl))
      ]

  bank_settle-charged :
      (u : Str) (t : Tracker) → charged now v (bank_settle u now t) ≡ charged now v t
  unfolding bank_settle
  bank_settle-charged u t = bank_from-charged u t (Dict.lookup u t.settle_from) refl

  bank_settle-lookup :
      (u : Str) (t : Tracker)
      → Dict.lookup v (bank_settle u now t).settle_from
        ≡ (if v == u then none else Dict.lookup v t.settle_from)
  unfolding bank_settle
  bank_settle-lookup u t = bank_from-lookup u t (Dict.lookup u t.settle_from) refl

  -- The clock of the unit stands still.
  abbrev Stands : Tracker → Type 0
  Stands t = Dict.lookup v t.settle_from ≡ none

  module _ (pending : Dict Str Str) where
    banked-charged :
        (u : Str) (t : Tracker) → charged now v (banked pending now v u t) ≡ charged now v t
    banked-charged u t = elim (Bool-cases (is_moving t u && Dict.has u pending)) [
      | inl h ↦ rw h (bank_settle-charged u t)
      | inr h ↦ rw h refl
    ]

    banked-Stands : (u : Str) (t : Tracker) → Stands t → Stands (banked pending now v u t)
    banked-Stands u t s = elim (Bool-cases (is_moving t u && Dict.has u pending)) [
      | inl h ↦ rw h (bank_settle-lookup u t ∙ none-if (v == u) _ s)
      | inr h ↦ rw h s
    ]

    scan_jobs-charged :
        (us : List Str) (t : Tracker)
        → charged now v (scan_jobs pending now us t).0 ≡ charged now v t
    unfolding scan_jobs
    scan_jobs-charged [] t = refl
    scan_jobs-charged (u ∷ us) t =
        scan_jobs-charged us (banked pending now v u t) ∙ banked-charged u t

    scan_jobs-Stands :
        (us : List Str) (t : Tracker) → Stands t → Stands (scan_jobs pending now us t).0
    unfolding scan_jobs
    scan_jobs-Stands [] t s = s
    scan_jobs-Stands (u ∷ us) t s =
        scan_jobs-Stands us (banked pending now v u t) (banked-Stands u t s)

    module _ (queued : Dict.has v pending ≡ true) where
      scan_jobs-stops :
          (us : List Str) (t : Tracker)
          → contains us v ≡ true
          → is_moving t v ≡ true
          → Stands (scan_jobs pending now us t).0
      unfolding scan_jobs contains
      scan_jobs-stops [] t m h = absurd (ground (arith, m))
      scan_jobs-stops (u ∷ us) t m h = elim (Bool-cases (v == u)) [
        | inl same ↦ scan_jobs-Stands us (banked pending now v u t) (
            subst (λ x. Stands (banked pending now v x t)) (beq→eq {a = v} {b = u} same)
              (rw (h, queued) (bank_settle-lookup v t ∙ rw (beq_refl v) refl)))
        | inr other ↦
            scan_jobs-stops us (banked pending now v u t) (ground (arith, m, other)) (
              is_moving_same t (banked pending now v u t) (banked-SameOutcome pending now v u t)
              ∙ h)
      ]

      scan_jobs-queued :
          (us : List Str) (t : Tracker) → contains (scan_jobs pending now us t).1 v ≡ false
      unfolding scan_jobs contains
      scan_jobs-queued [] t = refl
      scan_jobs-queued (u ∷ us) t =
          let rest = scan_jobs-queued us (banked pending now v u t) in
          let same =
            (λ (e : (v == u) ≡ true). ap (λ x. Dict.has x pending) (beq→eq {a = v} {b = u} e)) in
          elim (Bool-cases (is_moving t u && not (Dict.has u pending))) [
            | inl moves ↦ rw moves (ground (arith, rest, same, moves, queued))
            | inr stays ↦ rw stays rest
          ]

-- The clock of a unit is as it was.
record SameClock (v : Str) (t t' : Tracker) : Type 0 where
  from : Dict.lookup v t'.settle_from ≡ Dict.lookup v t.settle_from
  banked_time : accrued t' v ≡ accrued t v

settle_all-SameClock :
    (statuses : Dict Str UnitStatus) (now : ℕ) (v : Str) (us : List Str) (t : Tracker)
    → contains us v ≡ false
    → SameClock v t (settle_all statuses now us t)
unfolding settle_all contains accrued
settle_all-SameClock statuses now v [] t h = record { from = refl; banked_time = refl }
settle_all-SameClock statuses now v (u ∷ us) t h =
    let r = settle_unit-IsRound now u t (Dict.lookup u statuses) v in
    let rest =
      settle_all-SameClock statuses now v us (settle_unit u now (Dict.lookup u statuses) t)
        (ground (arith, h)) in
    record {
      from = rest.from ∙ (r.from ∙ rw (or_left (v == u) (contains us v) h) refl);
      banked_time = rest.banked_time ∙ ap (λ m. or_zero (Dict.lookup v m)) r.accrued;
    }

settle_answer-SameClock :
    (a : Answers) (v : Str) (cleared : List Str) (r : Result Str (Dict Str UnitStatus))
    (t : Tracker)
    → contains cleared v ≡ false
    → SameClock v t (settle_answer a.now cleared r t).0
settle_answer-SameClock a v cleared (ok statuses) t h =
    settle_all-SameClock statuses a.now v cleared t h
settle_answer-SameClock a v cleared (err e) t h = record { from = refl; banked_time = refl }

settle_cleared-SameClock :
    (a : Answers) (v : Str) (cleared : List Str) (t : Tracker)
    → contains cleared v ≡ false
    → SameClock v t (settle_cleared a t cleared).0
unfolding settle_cleared
settle_cleared-SameClock a v cleared t h = elim (Bool-cases (is_nil cleared)) [
  | inl nothing ↦ rw nothing (record { from = refl; banked_time = refl })
  | inr some_units ↦ rw some_units (settle_answer-SameClock a v cleared (a.statuses cleared) t h)
]

-- The unit still waits, its clock stands still, and what it owed by then is kept.
pub record IsPaused (now : ℕ) (v : Str) (t t' : Tracker) : Type 0 where
  pub moving : is_moving t' v ≡ true
  pub stands : Dict.lookup v t'.settle_from ≡ none
  pub kept : accrued t' v ≡ charged now v t

module _ (a : Answers) (t : Tracker) (v : Str) (jobs : Dict Str Str) where
  scanned_time :
      (s : Tracker)
      → Dict.lookup v s.settle_from ≡ none
      → charged a.now v s ≡ charged a.now v t
      → accrued s v ≡ charged a.now v t
  scanned_time s stands e = let clock = ap (spent a.now) stands in omega (arith, clock, e)

  queued-IsPaused :
      contains t.enqueue v ≡ true
      → Dict.has v jobs ≡ true
      → is_moving t v ≡ true
      → IsPaused a.now v t (poll_answer a (ok jobs) t).0
  queued-IsPaused m queued h =
      let s = (scan_jobs jobs a.now t.enqueue t).0 in
      let cleared = (scan_jobs jobs a.now t.enqueue t).1 in
      let gone = scan_jobs-queued a.now v jobs queued t.enqueue t in
      let stands = scan_jobs-stops a.now v jobs queued t.enqueue t m h in
      let clock = settle_cleared-SameClock a v cleared s gone in
      record {
        moving =
            is_moving_same s _ (settle_cleared-SameOutcome a v cleared s gone)
            ∙ (is_moving_same t s (scan_jobs-SameOutcome jobs a.now v t.enqueue t) ∙ h);
        stands = clock.from ∙ stands;
        kept =
            clock.banked_time ∙ scanned_time s stands (scan_jobs-charged a.now v jobs t.enqueue t);
      }

  -- A unit whose job is queued is not charged for it: a poll, whatever it learns of the other units
  -- and even if their states cannot be read, leaves it waiting, stops its clock, and keeps the
  -- time that it has spent until then.
  pub poll-IsPaused :
      a.pending ≡ ok jobs
      → contains t.enqueue v ≡ true
      → Dict.has v jobs ≡ true
      → is_moving t v ≡ true
      → IsPaused a.now v t (poll a t).0
  unfolding poll
  poll-IsPaused e m queued h =
      subst (λ p. IsPaused a.now v t (poll_answer a p t).0) (sym e) (queued-IsPaused m queued h)
