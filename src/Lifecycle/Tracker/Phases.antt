-- ===== src/Lifecycle/Tracker/Phases.antt =====
-- The tracker as a state machine of each unit.
use creidhne.Base.{
  ℕ, ◌≡◌, refl, ◌∙◌, sym, ap, Bool, true, false, not, ◌&&◌, ◌||◌, ◌==◌, Option, none, some, List,
  [], ◌∷◌, Result, ok, err, list_eq, nat_eq, is_nil, beq→eq, contains, inl, inr, arith, Bool-cases,
  if◌then◌else◌,
}
use mathlib.Core.Path.{subst}
use creidhne.Base.Str.{Str}
use creidhne.Base.Dict
use creidhne.Base.Dict.{Dict}
use creidhne.Systemd.Show.{UnitStatus}
use creidhne.Lifecycle.Tracker.{
  Tracker, Answers, bank_from, bank_settle, is_moving, scan_jobs, settle_unit, settle_all,
  settle_answer, settle_cleared, poll, poll_answer,
}
use creidhne.Lifecycle.Tracker.Settle.{settle_unit-IsRound}

-- What a unit is to the one who waits for it.
pub data Phase : Type 0 where
  waiting finished given_up : Phase

abbrev pub phase : Tracker → Str → Phase
phase t u =
    if Dict.has u t.done
    then Phase.finished
    else if Dict.has u t.stalled
    then Phase.given_up
    else Phase.waiting

-- The steps of the machine: both outcomes are final.
pub data Advance : Phase → Phase → Type 0 where
  wait : Advance Phase.waiting Phase.waiting
  finish : Advance Phase.waiting Phase.finished
  give_up : Advance Phase.waiting Phase.given_up
  keep_finished : Advance Phase.finished Phase.finished
  keep_given_up : Advance Phase.given_up Phase.given_up

Advance-trans : {p q r : Phase} → Advance p q → Advance q r → Advance p r
Advance-trans wait s = s
Advance-trans finish keep_finished = finish
Advance-trans give_up keep_given_up = give_up
Advance-trans keep_finished s = s
Advance-trans keep_given_up s = s

Advance-refl : (p : Phase) → Advance p p
Advance-refl Phase.waiting = wait
Advance-refl Phase.finished = keep_finished
Advance-refl Phase.given_up = keep_given_up

Advance-waiting : (p : Phase) → Advance Phase.waiting p
Advance-waiting Phase.waiting = wait
Advance-waiting Phase.finished = finish
Advance-waiting Phase.given_up = give_up

neither_left : (a b : Bool) → (not a && not b) ≡ true → a ≡ false
neither_left a b h = ground (arith, h)

neither_right : (a b : Bool) → (not a && not b) ≡ true → b ≡ false
neither_right a b h = ground (arith, h)

phase-waiting : (t : Tracker) (v : Str) → is_moving t v ≡ true → phase t v ≡ Phase.waiting
unfolding is_moving
phase-waiting t v h =
    rw
      (
        neither_left (Dict.has v t.done) (Dict.has v t.stalled) h,
        neither_right (Dict.has v t.done) (Dict.has v t.stalled) h,
      )
      refl

pub or_left : (a b : Bool) → (a || b) ≡ false → a ≡ false
or_left a b h = ground (arith, h)

-- The polls of a loop, whatever each answers.
unfoldable pub polls : List Answers → Tracker → Tracker
polls [] t = t
polls (a ∷ answers) t = polls answers (poll a t).0

-- Nothing about the outcome of a unit changes.
pub record SameOutcome (v : Str) (t t' : Tracker) : Type 0 where
  pub done : Dict.has v t'.done ≡ Dict.has v t.done
  pub stalled : Dict.has v t'.stalled ≡ Dict.has v t.stalled

bank_from-SameOutcome :
    (v u : Str) (now : ℕ) (t : Tracker) (o : Option ℕ) → SameOutcome v t (bank_from u now o t)
bank_from-SameOutcome v u now t none = record { done = refl; stalled = refl }
bank_from-SameOutcome v u now t (some from) = record { done = refl; stalled = refl }

bank_settle-SameOutcome :
    (v u : Str) (now : ℕ) (t : Tracker) → SameOutcome v t (bank_settle u now t)
unfolding bank_settle
bank_settle-SameOutcome v u now t = bank_from-SameOutcome v u now t (Dict.lookup u t.settle_from)

pub SameOutcome-trans :
    {v : Str} (t t' t'' : Tracker) → SameOutcome v t t' → SameOutcome v t' t'' → SameOutcome v t t''
SameOutcome-trans t t' t'' s r = record { done = r.done ∙ s.done; stalled = r.stalled ∙ s.stalled }

pub is_moving_same :
    {v : Str} (t t' : Tracker) → SameOutcome v t t' → is_moving t' v ≡ is_moving t v
unfolding is_moving
is_moving_same t t' s = rw (s.done, s.stalled) refl

phase_same : {v : Str} (t t' : Tracker) → SameOutcome v t t' → phase t' v ≡ phase t v
phase_same t t' s = rw (s.done, s.stalled) refl

module _ (pending : Dict Str Str) (now : ℕ) (v : Str) where
  abbrev pub banked : Str → Tracker → Tracker
  banked u t = if is_moving t u && Dict.has u pending then bank_settle u now t else t

  pub banked-SameOutcome : (u : Str) (t : Tracker) → SameOutcome v t (banked u t)
  banked-SameOutcome u t = elim (Bool-cases (is_moving t u && Dict.has u pending)) [
    | inl h ↦ rw h (bank_settle-SameOutcome v u now t)
    | inr h ↦ rw h (record { done = refl; stalled = refl })
  ]

  -- A unit that is decided is not looked at, and the scan decides nothing.
  pub scan_jobs-SameOutcome :
      (us : List Str) (t : Tracker) → SameOutcome v t (scan_jobs pending now us t).0
  unfolding scan_jobs
  scan_jobs-SameOutcome [] t = record { done = refl; stalled = refl }
  scan_jobs-SameOutcome (u ∷ us) t =
      SameOutcome-trans t (banked u t) _ (banked-SameOutcome u t)
        (scan_jobs-SameOutcome us (banked u t))

  scan_jobs-contains :
      (us : List Str) (t : Tracker)
      → is_moving t v ≡ false
      → contains (scan_jobs pending now us t).1 v ≡ false
  unfolding scan_jobs contains
  scan_jobs-contains [] t h = refl
  scan_jobs-contains (u ∷ us) t h =
      let rest =
        scan_jobs-contains us (banked u t)
          (is_moving_same t (banked u t) (banked-SameOutcome u t) ∙ h) in
      let same = (λ (e : (v == u) ≡ true). ap (is_moving t) (beq→eq {a = v} {b = u} e)) in
      elim (Bool-cases (is_moving t u && not (Dict.has u pending))) [
        | inl moves ↦ rw moves (ground (arith, rest, same, moves, h))
        | inr stays ↦ rw stays rest
      ]

settle_all-SameOutcome :
    (statuses : Dict Str UnitStatus) (now : ℕ) (v : Str) (us : List Str) (t : Tracker)
    → contains us v ≡ false
    → SameOutcome v t (settle_all statuses now us t)
unfolding settle_all contains
settle_all-SameOutcome statuses now v [] t h = record { done = refl; stalled = refl }
settle_all-SameOutcome statuses now v (u ∷ us) t h =
    let r = settle_unit-IsRound now u t (Dict.lookup u statuses) v in
    let other = or_left (v == u) (contains us v) h in
    SameOutcome-trans t (settle_unit u now (Dict.lookup u statuses) t) _
      (record { done = r.done ∙ rw other refl; stalled = r.stalled ∙ rw other refl })
      (settle_all-SameOutcome statuses now v us _ (ground (arith, h)))

module _ (a : Answers) (v : Str) where
  settle_answer-SameOutcome :
      (cleared : List Str) (r : Result Str (Dict Str UnitStatus)) (t : Tracker)
      → contains cleared v ≡ false
      → SameOutcome v t (settle_answer a.now cleared r t).0
  settle_answer-SameOutcome cleared (ok statuses) t h =
      settle_all-SameOutcome statuses a.now v cleared t h
  settle_answer-SameOutcome cleared (err e) t h = record { done = refl; stalled = refl }

  pub settle_cleared-SameOutcome :
      (cleared : List Str) (t : Tracker)
      → contains cleared v ≡ false
      → SameOutcome v t (settle_cleared a t cleared).0
  unfolding settle_cleared
  settle_cleared-SameOutcome cleared t h = elim (Bool-cases (is_nil cleared)) [
    | inl nothing ↦ rw nothing (record { done = refl; stalled = refl })
    | inr some_units ↦ rw some_units (settle_answer-SameOutcome cleared (a.statuses cleared) t h)
  ]

  poll_answer-SameOutcome :
      (r : Result Str (Dict Str Str)) (t : Tracker)
      → is_moving t v ≡ false
      → SameOutcome v t (poll_answer a r t).0
  poll_answer-SameOutcome (err e) t h = record { done = refl; stalled = refl }
  poll_answer-SameOutcome (ok pending) t h =
      SameOutcome-trans t (scan_jobs pending a.now t.enqueue t).0 _
        (scan_jobs-SameOutcome pending a.now v t.enqueue t)
        (settle_cleared-SameOutcome (scan_jobs pending a.now t.enqueue t).1
          (scan_jobs pending a.now t.enqueue t).0
          (scan_jobs-contains pending a.now v t.enqueue t h))

  poll-Advance : (t : Tracker) → Advance (phase t v) (phase (poll a t).0 v)
  unfolding poll is_moving
  poll-Advance t = elim (Bool-cases (is_moving t v)) [
    | inl moving ↦
        subst (λ p. Advance p (phase (poll a t).0 v)) (sym (phase-waiting t v moving))
          (Advance-waiting (phase (poll a t).0 v))
    | inr decided ↦
        let same = phase_same t (poll a t).0 (poll_answer-SameOutcome a.pending t decided) in
        subst (λ p. Advance (phase t v) p) (sym same) (Advance-refl (phase t v))
  ]

-- Whatever systemd and the clock answer to the polls, also when a poll ends in an error, a unit
-- waits until it is finished or given up, and neither is ever taken back.
pub polls-Advance :
    (answers : List Answers) (t : Tracker) (u : Str)
    → Advance (phase t u) (phase (polls answers t) u)
unfolding polls
polls-Advance [] t u = Advance-refl (phase t u)
polls-Advance (a ∷ answers) t u =
    Advance-trans (poll-Advance a u t) (polls-Advance answers (poll a t).0 u)
