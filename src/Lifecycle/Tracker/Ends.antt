-- ===== src/Lifecycle/Tracker/Ends.antt =====
-- The loop that waits for the units ends.
use creidhne.Base.{
  ℕ, ◌+◌, ◌≤◌, ◌≡◌, refl, ◌∙◌, sym, ap, Bool, true, false, not, ◌&&◌, ◌==◌, some, List, [], ◌∷◌,
  ◌++◌, ok, list_eq, nat_eq, ltb, beq→eq, beq_refl, contains, contains-select, all, All, inl, inr,
  arith, Bool-cases, if◌then◌else◌,
}
use mathlib.Core.Path.{subst}
use creidhne.Base.Str.{Str}
use creidhne.Base.Dict
use creidhne.Base.Dict.{Dict}
use creidhne.Lifecycle.Tracker.{
  Tracker, Verb, Answers, new_tracker, done_of, is_moving, poll, all_done, loop_step, wait_loop,
}
use creidhne.Lifecycle.Tracker.Live.{
  IsClear, SameTask, clocked, timed, poll-clear, clear-SameTask, clear-decided, clear-timed,
  clear-starts, clear-decides,
}

all-contains :
    (p : Str → Bool) (xs : List Str)
    → ((x : Str) → contains xs x ≡ true → p x ≡ true)
    → all p xs ≡ true
unfolding all contains
all-contains p [] h = refl
all-contains p (x ∷ xs) h =
    rw (h x (rw (beq_refl x) refl), all-contains p xs (λ y m. h y (rw m (ground arith)))) refl

-- A tracker that polls can start from: what is not enqueued is decided, and no clock is ahead.
pub record IsReady (n : ℕ) (t : Tracker) : Type 0 where
  pub resolved :
      (v : Str) → contains t.units v ≡ true → contains t.enqueue v ≡ false → is_moving t v ≡ false
  pub on_time : (v : Str) → clocked n v t ≡ true

has-done_of :
    (pre : Dict Str Str) (us : List Str) (v : Str)
    → Dict.has v (done_of pre us) ≡ (contains us v && Dict.has v pre)
unfolding done_of contains Dict.has Dict.lookup
has-done_of pre [] v = refl
has-done_of pre (u ∷ us) v =
    let keep = has-done_of pre us v in
    let same = (λ (e : (v == u) ≡ true). ap (λ x. Dict.has x pre) (beq→eq {a = v} {b = u} e)) in
    elim (Bool-cases (Dict.has u pre)) [
      | inl h ↦ rw (h, Dict.has-insert v u true (done_of pre us)) (ground (arith, keep, same, h))
      | inr h ↦ rw h (ground (arith, keep, same, h))
    ]

pub new_tracker-IsReady :
    (units : List Str) (verb : Verb) (pre : Dict Str Str) (wait n : ℕ)
    → IsReady n (new_tracker units verb pre wait)
unfolding new_tracker is_moving Dict.lookup
new_tracker-IsReady units verb pre wait n = record {
  resolved = λ v m k.
      (let out = contains-select (λ u. not (Dict.has u pre)) v units in
        rw (has-done_of pre units v) (ground (arith, out, m, k)));
  on_time = λ v. refl;
}

loop_step-clear :
    (a : Answers) (rest : List Answers) (t : Tracker)
    → IsClear t.enqueue a
    → wait_loop (a ∷ rest) t
      ≡ (if all_done (poll a t).0 then some (ok (poll a t).0) else wait_loop rest (poll a t).0)
unfolding wait_loop
loop_step-clear a rest t c =
    let (m, e) = poll-clear a t c in
    ap (λ r. loop_step ((poll a t).0, r) (wait_loop rest (poll a t).0)) (ap (λ x. x.1) e)

-- The loop reaches a tracker with all units done.
abbrev pub Ends : List Answers → Tracker → Type 0
Ends answers t = (t' : Tracker) × (wait_loop answers t ≡ some (ok t')) × (all_done t' ≡ true)

poll_then :
    (a : Answers) (rest : List Answers) (t : Tracker)
    → IsClear t.enqueue a
    → (all_done (poll a t).0 ≡ false → Ends rest (poll a t).0)
    → Ends (a ∷ rest) t
poll_then a rest t c later = elim (Bool-cases (all_done (poll a t).0)) [
  | inl over ↦ ((poll a t).0, loop_step-clear a rest t c ∙ rw over refl, over)
  | inr waits ↦
      let (t', e, over) = later waits in (t', loop_step-clear a rest t c ∙ rw (waits, e) refl, over)
]

-- Every unit is decided or was never enqueued, or its clock has run since `n`.
record IsTimed (n : ℕ) (t : Tracker) : Type 0 where
  resolved :
      (v : Str) → contains t.units v ≡ true → contains t.enqueue v ≡ false → is_moving t v ≡ false
  started : (v : Str) → contains t.enqueue v ≡ true → timed n v t ≡ true

module _ (a : Answers) (t : Tracker) (c : IsClear t.enqueue a) where
  poll-resolved :
      ((v : Str) → contains t.units v ≡ true → contains t.enqueue v ≡ false → is_moving t v ≡ false)
      → (v : Str) → contains (poll a t).0.units v ≡ true
      → contains (poll a t).0.enqueue v ≡ false
      → is_moving (poll a t).0 v ≡ false
  poll-resolved h v m k =
      let (q, us, w) = clear-SameTask a t c in
      clear-decided a t c v
        (h v (ap (λ xs. contains xs v) (sym us) ∙ m) (ap (λ xs. contains xs v) (sym q) ∙ k))

  poll-IsTimed : (n : ℕ) → IsTimed n t → IsTimed n (poll a t).0
  poll-IsTimed n i = record {
    resolved = poll-resolved i.resolved;
    started = λ v m.
        (let (q, us, w) = clear-SameTask a t c in
          clear-timed a t c v n (i.started v (ap (λ xs. contains xs v) (sym q) ∙ m)));
  }

  first_poll-IsTimed : IsReady a.now t → IsTimed a.now (poll a t).0
  first_poll-IsTimed i = record {
    resolved = poll-resolved i.resolved;
    started = λ v m.
        (let (q, us, w) = clear-SameTask a t c in
          clear-starts a t c v (ap (λ xs. contains xs v) (sym q) ∙ m) (i.on_time v));
  }

  last_poll-all_done :
      (n : ℕ)
      → IsTimed n t
      → ltb 0 t.settle_wait ≡ true
      → n + t.settle_wait ≤ a.now
      → all_done (poll a t).0 ≡ true
  unfolding all_done
  last_poll-all_done n i pos late =
      all-contains (λ v. not (is_moving (poll a t).0 v)) (poll a t).0.units
        (λ v m.
          (let (q, us, w) = clear-SameTask a t c in
            let m' = ap (λ xs. contains xs v) (sym us) ∙ m in
            elim (Bool-cases (contains t.enqueue v)) [
              | inl k ↦ rw (clear-decides a t c v n k pos late (i.started v k)) refl
              | inr k ↦ rw (clear-decided a t c v (i.resolved v m' k)) refl
            ]))

middle-Ends :
    (n : ℕ) (middle : List Answers) (last : Answers) (t₀ t : Tracker)
    → SameTask t₀ t
    → All (IsClear t₀.enqueue) middle
    → IsClear t₀.enqueue last
    → ltb 0 t₀.settle_wait ≡ true
    → n + t₀.settle_wait ≤ last.now
    → IsTimed n t
    → Ends (middle ++ last ∷ []) t
middle-Ends n [] last t₀ t (q, us, w) cs c pos late i =
    let c' = subst (λ e. IsClear e last) (sym q) c in
    poll_then last [] t c'
      (λ waits. absurd (cc (last_poll-all_done last t c' n i (rw w pos) (rw w late), waits)))
middle-Ends n (a ∷ middle) last t₀ t (q, us, w) (ca, cs) c pos late i =
    let c' = subst (λ e. IsClear e a) (sym q) ca in
    let (q', us', w') = clear-SameTask a t c' in
    poll_then a (middle ++ last ∷ []) t c' (λ waits.
      middle-Ends n middle last t₀ (poll a t).0 (q' ∙ q, us' ∙ us, w' ∙ w) cs c pos late
        (poll-IsTimed a t c' n i))

-- With a settle budget, the loop ends with all units done or stalled, from a tracker whose clocks
-- are not ahead and whose other units are done: if every poll is answered and finds no job of the
-- enqueued units queued, and the last poll comes a whole budget after the first, whatever the
-- states are and whatever polls come between.
pub wait_loop-Ends :
    (first : Answers) (middle : List Answers) (last : Answers) (t : Tracker)
    → IsReady first.now t
    → IsClear t.enqueue first
    → All (IsClear t.enqueue) middle
    → IsClear t.enqueue last
    → ltb 0 t.settle_wait ≡ true
    → first.now + t.settle_wait ≤ last.now
    → Ends (first ∷ middle ++ last ∷ []) t
wait_loop-Ends first middle last t i c cs c' pos late =
    poll_then first (middle ++ last ∷ []) t c (λ waits.
      middle-Ends first.now middle last t (poll first t).0 (clear-SameTask first t c) cs c' pos late
        (first_poll-IsTimed first t c i))
