-- ===== src/Lifecycle/Tracker/Verified.antt =====
-- What a transition that ends without an error has verified.
use creidhne.Base.{
  ◌≡◌, refl, ◌∙◌, sym, ap, Bool, true, false, not, ◌&&◌, ◌||◌, ◌==◌, Option, none, some, List, [],
  ◌∷◌, Result, ok, err, Result-cases, list_eq, nat_eq, beq→eq, contains, contains-select, select,
  is_nil, inl, inr, arith, Bool-cases, if◌then◌else◌,
}
use creidhne.Base.Str.{Str, str}
use creidhne.Base.Dict
use creidhne.Base.Dict.{Dict, is_some}
use creidhne.Systemd.Show.{UnitStatus}
use creidhne.Lifecycle.Tracker.{
  Tracker, Verb, Answers, transitional, verb_failed, failures_in, missing_in, failed_error, finish,
  finish_with, fails_with,
}

-- The states that a unit may be in once it has been stopped: all but these two.
abbrev pub is_down : Str → Bool
is_down state = not (state == str "active") && not (state == str "activating")

-- The states that a unit may be in once it has been started: neither failed nor between two states.
abbrev pub is_steady : Str → Bool
is_steady state =
    not (state == str "failed")
    && (not (state == str "activating")
        && (not (state == str "deactivating")
            && (not (state == str "reloading")
                && (not (state == str "refreshing") && not (state == str "maintenance")))))

-- The unit was shown, in a state that the verb may end in.
abbrev pub passes : Verb → Option UnitStatus → Bool
passes verb none = false
passes Verb.stop (some st) = is_down st.active_state
passes Verb.start (some st) = is_steady st.active_state
passes Verb.restart (some st) = is_steady st.active_state

nil-contains : (ys : List Str) (v : Str) → is_nil ys ≡ true → contains ys v ≡ false
unfolding contains
nil-contains [] v e = refl
nil-contains (y ∷ ys) v e = absurd (cc e)

select-nil :
    (p : Str → Bool) (xs : List Str) (v : Str)
    → is_nil (select p xs) ≡ true
    → contains xs v ≡ true
    → p v ≡ false
select-nil p xs v e m =
    let out = contains-select p v xs in ground (arith, nil-contains (select p xs) v e, out, m)

failures_in-has :
    (verb : Verb) (statuses : Dict Str UnitStatus) (us : List Str) (failed : Dict Str Bool)
    (v : Str)
    → Dict.has v (failures_in verb statuses us failed)
      ≡ ((contains us v && fails_with verb (Dict.lookup v statuses)) || Dict.has v failed)
unfolding failures_in contains
failures_in-has verb statuses [] failed v = refl
failures_in-has verb statuses (u ∷ us) failed v =
    let same =
      (λ (e : (v == u) ≡ true). ap (λ x. Dict.lookup x statuses) (beq→eq {a = v} {b = u} e)) in
    elim (Bool-cases (fails_with verb (Dict.lookup u statuses))) [
      | inl h ↦
          rw
            (
              h,
              failures_in-has verb statuses us (Dict.insert u true failed) v,
              Dict.has-insert v u true failed,
            )
            (ground (arith, same, h))
      | inr h ↦ rw (h, failures_in-has verb statuses us failed v) (ground (arith, same, h))
    ]

-- Every unit of the plan that was enqueued passes, and no unit has stalled.
pub record IsVerified (a : Answers) (t : Tracker) : Type 0 where
  pub shown : Dict Str UnitStatus
  pub answered : a.statuses t.enqueue ≡ ok shown
  pub passed :
      (v : Str)
      → contains t.units v ≡ true
      → contains t.enqueue v ≡ true
      → passes t.verb (Dict.lookup v shown) ≡ true
  pub in_time : (v : Str) → contains t.units v ≡ true → Dict.has v t.stalled ≡ false

ok_if-true :
    {E : Type 0} (b : Bool) (r : Result E (Unit {0})) (e : E)
    → (if b then r else err e) ≡ ok tt
    → (b ≡ true) × (r ≡ ok tt)
ok_if-true true r e h = (refl, h)
ok_if-true false r e h = absurd (cc h)

passes-fails_with :
    (verb : Verb) (o : Option UnitStatus)
    → is_some o ≡ true
    → fails_with verb o ≡ false
    → passes verb o ≡ true
unfolding verb_failed transitional contains
passes-fails_with verb none some_o fine = some_o
passes-fails_with Verb.stop (some st) some_o fine = ground (arith, fine)
passes-fails_with Verb.start (some st) some_o fine = ground (arith, fine)
passes-fails_with Verb.restart (some st) some_o fine = ground (arith, fine)

module _ (a : Answers) (t : Tracker) (statuses : Dict Str UnitStatus) where
  none_failed :
      (failed : Dict Str Bool) (v : Str)
      → failed_error t failed ≡ ok tt
      → contains t.units v ≡ true
      → Dict.has v failed ≡ false
  unfolding failed_error
  none_failed failed v e m =
      let (empty, done) = ok_if-true (is_nil (select (λ u. Dict.has u failed) t.units)) _ _ e in
      select-nil (λ u. Dict.has u failed) t.units v empty m

  module _ (v : Str) (e : failed_error t (failures_in t.verb statuses t.enqueue t.stalled) ≡ ok tt)
      (m : contains t.units v ≡ true) where
    passed_of :
        is_nil (missing_in statuses t.enqueue) ≡ true
        → contains t.enqueue v ≡ true
        → passes t.verb (Dict.lookup v statuses) ≡ true
    unfolding missing_in Dict.has
    passed_of complete k =
        let has = failures_in-has t.verb statuses t.enqueue t.stalled v in
        let none = none_failed (failures_in t.verb statuses t.enqueue t.stalled) v e m in
        let shown = select-nil (λ u. not (Dict.has u statuses)) t.enqueue v complete k in
        passes-fails_with t.verb (Dict.lookup v statuses) (ground (arith, shown))
          (ground (arith, has, none, k))

    in_time_of : Dict.has v t.stalled ≡ false
    in_time_of =
        let has = failures_in-has t.verb statuses t.enqueue t.stalled v in
        let none = none_failed (failures_in t.verb statuses t.enqueue t.stalled) v e m in
        ground (arith, has, none)

  finish_with-IsVerified :
      a.statuses t.enqueue ≡ ok statuses → finish_with t (ok statuses) ≡ ok tt → IsVerified a t
  finish_with-IsVerified answered e =
      let (complete, e') = ok_if-true (is_nil (missing_in statuses t.enqueue)) _ _ e in
      record {
        shown = statuses;
        answered = answered;
        passed = λ v m k. passed_of v e' m complete k;
        in_time = λ v m. in_time_of v e' m;
      }

-- A transition that ends without an error has asked for the states of the enqueued units once
-- more. Each unit of the plan that was enqueued was answered for: after a stop, it is neither
-- `active` nor `activating`; after a start or a restart, it is neither `failed` nor in one of the
-- five states between two others. No unit of the plan has used up its budget.
pub finish-IsVerified : (a : Answers) (t : Tracker) → finish a t ≡ ok tt → IsVerified a t
unfolding finish
finish-IsVerified a t e = elim (Result-cases (a.statuses t.enqueue)) [
  | inl (statuses, answered) ↦
      finish_with-IsVerified a t statuses answered (ap (finish_with t) (sym answered) ∙ e)
  | inr (x, failed) ↦ absurd (cc (ap (finish_with t) (sym failed) ∙ e))
]
