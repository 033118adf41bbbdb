-- ===== src/Lifecycle/Tracker/Live.antt =====
-- What a poll without queued jobs does to the clock of each unit.
use creidhne.Base.{
  ℕ, ◌+◌, ◌≤◌, ◌≡◌, refl, ◌∙◌, sym, ap, Bool, true, false, not, ◌||◌, ◌==◌, Option, none, some,
  List, [], ◌∷◌, ok, list_eq, nat_eq, leb, ltb, beq→eq, contains, contains-select, select, All, inl,
  inr, arith, Bool-cases,
}
use mathlib.Core.Path.{subst}
use creidhne.Base.Str.{Str}
use creidhne.Base.Dict
use creidhne.Base.Dict.{Dict}
use creidhne.Systemd.Show.{UnitStatus}
use creidhne.Lifecycle.Tracker.{
  Tracker, Answers, is_moving, settle_unit, settle_all, scan_jobs, settle_cleared, poll,
  poll_answer,
}
use creidhne.Lifecycle.Tracker.Settle.{settle_unit-IsRound}

-- The clock of a unit started by the instant `n`, or does not run.
abbrev pub by : ℕ → Option ℕ → Bool
by n none = true
by n (some from) = leb from n

abbrev pub runs_by : ℕ → Option ℕ → Bool
runs_by n none = false
runs_by n (some from) = leb from n

abbrev pub clocked : ℕ → Str → Tracker → Bool
clocked n v t = by n (Dict.lookup v t.settle_from)

-- The unit is decided, or its clock has run since `n`.
abbrev pub timed : ℕ → Str → Tracker → Bool
timed n v t = not (is_moving t v) || runs_by n (Dict.lookup v t.settle_from)

module _ (now : ℕ) (u : Str) (status : Option UnitStatus) (v : Str) (t : Tracker) where
  same_lookup : (v == u) ≡ true → Dict.lookup v t.settle_from ≡ Dict.lookup u t.settle_from
  same_lookup same = ap (λ x. Dict.lookup x t.settle_from) (beq→eq {a = v} {b = u} same)

  round-clocked : clocked now v t ≡ true → clocked now v (settle_unit u now status t) ≡ true
  round-clocked h =
      let r = settle_unit-IsRound now u t status v in rw r.from (ground (arith, same_lookup))

  round-starts :
      (v == u) ≡ true → clocked now v t ≡ true → timed now v (settle_unit u now status t) ≡ true
  unfolding is_moving
  round-starts same h =
      let r = settle_unit-IsRound now u t status v in
      rw (r.from, r.done, r.stalled, same) (ground (arith, same_lookup same))

  round-timed : (n : ℕ) → timed n v t ≡ true → timed n v (settle_unit u now status t) ≡ true
  unfolding is_moving
  round-timed n h =
      let r = settle_unit-IsRound now u t status v in
      rw (r.from, r.done, r.stalled) (ground (arith, same_lookup))

  round-decided : is_moving t v ≡ false → is_moving (settle_unit u now status t) v ≡ false
  unfolding is_moving
  round-decided h =
      let r = settle_unit-IsRound now u t status v in rw (r.done, r.stalled) (ground arith)

  round-decides :
      (n : ℕ)
      → (v == u) ≡ true
      → ltb 0 t.settle_wait ≡ true
      → n + t.settle_wait ≤ now
      → timed n v t ≡ true
      → is_moving (settle_unit u now status t) v ≡ false
  unfolding is_moving
  round-decides n same pos late h =
      let r = settle_unit-IsRound now u t status v in
      rw (r.done, r.stalled, same) (ground (arith, same_lookup same))

module _ (statuses : Dict Str UnitStatus) (now : ℕ) where
  settle_all-keeps :
      (P : Tracker → Type 0)
      → ((u : Str) (status : Option UnitStatus) (t : Tracker)
          → P t
          → P (settle_unit u now status t))
      → (us : List Str) (t : Tracker) → P t
      → P (settle_all statuses now us t)
  unfolding settle_all
  settle_all-keeps P keep [] t h = h
  settle_all-keeps P keep (u ∷ us) t h =
      settle_all-keeps P keep us _ (keep u (Dict.lookup u statuses) t h)

  -- What the round of `v` brings about, the whole loop brings about.
  settle_all-reaches :
      (P Q : Tracker → Type 0) (v : Str)
      → ((u : Str) (status : Option UnitStatus) (t : Tracker)
          → P t
          → P (settle_unit u now status t))
      → ((u : Str) (status : Option UnitStatus) (t : Tracker)
          → Q t
          → Q (settle_unit u now status t))
      → ((u : Str) (status : Option UnitStatus) (t : Tracker)
          → (v == u) ≡ true
          → Q t
          → P (settle_unit u now status t))
      → (us : List Str) (t : Tracker) → contains us v ≡ true
      → Q t
      → P (settle_all statuses now us t)
  unfolding settle_all contains
  settle_all-reaches P Q v keep wait reach [] t m h = absurd (cc m)
  settle_all-reaches P Q v keep wait reach (u ∷ us) t m h = elim (Bool-cases (v == u)) [
    | inl same ↦ settle_all-keeps P keep us _ (reach u (Dict.lookup u statuses) t same h)
    | inr other ↦
        settle_all-reaches P Q v keep wait reach us _ (ground (arith, m, other))
          (wait u (Dict.lookup u statuses) t h)
  ]

-- A poll that meets no error and no queued job of these units.
pub record IsClear (enqueue : List Str) (a : Answers) : Type 0 where
  pub jobs : Dict Str Str
  pub answered : a.pending ≡ ok jobs
  pub none_queued : All (λ u. Dict.has u jobs ≡ false) enqueue
  pub shown : (us : List Str) → (m : Dict Str UnitStatus) × (a.statuses us ≡ ok m)

scan_jobs-clear :
    (jobs : Dict Str Str) (now : ℕ) (us : List Str) (t : Tracker)
    → All (λ u. Dict.has u jobs ≡ false) us
    → scan_jobs jobs now us t ≡ (t, select (is_moving t) us)
unfolding scan_jobs select
scan_jobs-clear jobs now [] t h = refl
scan_jobs-clear jobs now (u ∷ us) t (free, rest) = elim (Bool-cases (is_moving t u)) [
  | inl moving ↦ rw (moving, free, scan_jobs-clear jobs now us t rest) refl
  | inr decided ↦ rw (decided, scan_jobs-clear jobs now us t rest) refl
]

settle_cleared-shown :
    (a : Answers) (t : Tracker) (us : List Str)
    → ((xs : List Str) → (m : Dict Str UnitStatus) × (a.statuses xs ≡ ok m))
    → (m : Dict Str UnitStatus) × (settle_cleared a t us ≡ (settle_all m a.now us t, ok tt))
unfolding settle_cleared settle_all
settle_cleared-shown a t [] h = ([], refl)
settle_cleared-shown a t (u ∷ us) h = let (m, e) = h (u ∷ us) in (m, rw e refl)

pub poll-clear :
    (a : Answers) (t : Tracker)
    → IsClear t.enqueue a
    → (m : Dict Str UnitStatus) × (poll a t
        ≡ (settle_all m a.now (select (is_moving t) t.enqueue) t, ok tt))
unfolding poll
poll-clear a t c =
    let (m, e) = settle_cleared-shown a t (select (is_moving t) t.enqueue) c.shown in
    let scanned = scan_jobs-clear c.jobs a.now t.enqueue t c.none_queued in
    (m, ap (λ p. poll_answer a p t) c.answered ∙ (ap (λ x. settle_cleared a x.0 x.1) scanned ∙ e))

-- What a poll leaves as it is.
abbrev pub SameTask : Tracker → Tracker → Type 0
SameTask t t' = (t'.enqueue ≡ t.enqueue) × (t'.units ≡ t.units) × (t'.settle_wait ≡ t.settle_wait)

contains-moving :
    (t : Tracker) (v : Str)
    → contains t.enqueue v ≡ true
    → is_moving t v ≡ true
    → contains (select (is_moving t) t.enqueue) v ≡ true
contains-moving t v m h = rw (contains-select (is_moving t) v t.enqueue, m, h) refl

module _ (a : Answers) (t : Tracker) (c : IsClear t.enqueue a) where
  clear-keeps :
      (P : Tracker → Type 0)
      → ((u : Str) (status : Option UnitStatus) (s : Tracker)
          → P s
          → P (settle_unit u a.now status s))
      → P t
      → P (poll a t).0
  clear-keeps P keep h =
      let (m, e) = poll-clear a t c in
      subst (λ x. P x.0) (sym e) (settle_all-keeps m a.now P keep _ t h)

  clear-reaches :
      (P Q : Tracker → Type 0) (v : Str)
      → ((u : Str) (status : Option UnitStatus) (s : Tracker)
          → P s
          → P (settle_unit u a.now status s))
      → ((u : Str) (status : Option UnitStatus) (s : Tracker)
          → Q s
          → Q (settle_unit u a.now status s))
      → ((u : Str) (status : Option UnitStatus) (s : Tracker)
          → (v == u) ≡ true
          → Q s
          → P (settle_unit u a.now status s))
      → contains t.enqueue v ≡ true
      → is_moving t v ≡ true
      → Q t
      → P (poll a t).0
  clear-reaches P Q v keep wait reach m moving h =
      let (st, e) = poll-clear a t c in
      subst (λ x. P x.0) (sym e)
        (settle_all-reaches st a.now P Q v keep wait reach _ t (contains-moving t v m moving) h)

  pub clear-SameTask : SameTask t (poll a t).0
  clear-SameTask =
      clear-keeps (SameTask t)
        (λ u status s (q, us, w).
          (let r = settle_unit-IsRound a.now u s status u in
            (r.enqueue ∙ q, r.units ∙ us, r.settle_wait ∙ w)))
        (refl, refl, refl)

  module _ (v : Str) where
    pub clear-decided : is_moving t v ≡ false → is_moving (poll a t).0 v ≡ false
    clear-decided =
        clear-keeps (λ s. is_moving s v ≡ false) (λ u status s. round-decided a.now u status v s)

    pub clear-timed : (n : ℕ) → timed n v t ≡ true → timed n v (poll a t).0 ≡ true
    clear-timed n =
        clear-keeps (λ s. timed n v s ≡ true) (λ u status s. round-timed a.now u status v s n)

    -- From a poll on, the clock of a unit runs, or the unit is decided.
    pub clear-starts :
        contains t.enqueue v ≡ true → clocked a.now v t ≡ true → timed a.now v (poll a t).0 ≡ true
    clear-starts m h = elim (Bool-cases (is_moving t v)) [
      | inl moving ↦
          clear-reaches (λ s. timed a.now v s ≡ true) (λ s. clocked a.now v s ≡ true) v
            (λ u status s. round-timed a.now u status v s a.now)
            (λ u status s. round-clocked a.now u status v s)
            (λ u status s. round-starts a.now u status v s) m moving h
      | inr decided ↦ clear-timed a.now (rw decided refl)
    ]

    -- A poll that comes a whole budget later decides the unit.
    pub clear-decides :
        (n : ℕ)
        → contains t.enqueue v ≡ true
        → ltb 0 t.settle_wait ≡ true
        → n + t.settle_wait ≤ a.now
        → timed n v t ≡ true
        → is_moving (poll a t).0 v ≡ false
    clear-decides n m pos late h = elim (Bool-cases (is_moving t v)) [
      | inl moving ↦
          clear-reaches (λ s. is_moving s v ≡ false)
            (λ s. (timed n v s ≡ true) × (s.settle_wait ≡ t.settle_wait)) v
            (λ u status s. round-decided a.now u status v s)
            (λ u status s (k, w). (
              round-timed a.now u status v s n k,
              (settle_unit-IsRound a.now u s status v).settle_wait ∙ w,
            ))
            (λ u status s same (k, w).
              round-decides a.now u status v s n same (rw w pos) (rw w late) k)
            m moving (h, refl)
      | inr decided ↦ clear-decided decided
    ]
