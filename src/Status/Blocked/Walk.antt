-- ===== src/Status/Blocked/Walk.antt =====
-- The walk over the hard dependencies ends, and finds a failed unit where there is one.
use creidhne.Base.{
  ℕ, zero, suc, ◌+◌, ◌≤◌, ◌≡◌, refl, ◌∙◌, sym, ap, Bool, true, false, ◌||◌, some, List, [], ◌∷◌,
  ◌++◌, ◌==◌, list_eq, nat_eq, length, length-append, contains, contains-append, beq_refl, beq_comm,
  beq→eq, ◌⊎◌, inl, inr, arith, Bool-cases, if◌then◌else◌,
}
use creidhne.Base.Str.{Str}
use creidhne.Base.Dict
use creidhne.Base.Dict.{Dict}
use creidhne.Status.Blocked.{adj_at, total, walk, first_failed_dep}

-- What `from` reaches in one step or more.
pub data Chain (step : Str → Str → Bool) (from : Str) : Str → Type 0 where
  hop : {n : Str} → step from n ≡ true → Chain step from n
  more : {m n : Str} → Chain step from m → step m n ≡ true → Chain step from n

-- A unit that the adjacency lists name at another.
abbrev pub next : Dict Str (List Str) → Str → Str → Bool
next adj m n = contains (adj_at adj m) n

-- The edges of the units that are not seen yet.
unfoldable left : Dict Str (List Str) → Dict Str Bool → ℕ
left [] seen = 0
left ((n, ns) ∷ adj) seen = (if Dict.has n seen then 0 else length ns) + left adj seen

left-insert_le :
    (adj : Dict Str (List Str)) (seen : Dict Str Bool) (n : Str)
    → left adj (Dict.insert n true seen) ≤ left adj seen
unfolding left
left-insert_le [] seen n = omega arith
left-insert_le ((m, ms) ∷ adj) seen n =
    rw (Dict.has-insert m n true seen) (ground (arith, left-insert_le adj seen n))

left-insert :
    (adj : Dict Str (List Str)) (seen : Dict Str Bool) (n : Str)
    → Dict.has n seen ≡ false
    → length (adj_at adj n) + left adj (Dict.insert n true seen) ≤ left adj seen
unfolding left adj_at Dict.lookup
left-insert [] seen n h = omega arith
left-insert ((m, ms) ∷ adj) seen n h = elim (Bool-cases (n == m)) [
  | inl same ↦
      (let e = ap (λ x. Dict.has x seen) (sym (beq→eq {a = n} {b = m} same)) ∙ h in
        let back = beq_comm n m in
        rw (same, Dict.has-insert m n true seen)
          (ground (arith, left-insert_le adj seen n, e, same, back)))
  | inr other ↦
      (let back = beq_comm n m in
        rw (other, Dict.has-insert m n true seen)
          (ground (arith, left-insert adj seen n h, other, back)))
]

left-total : (adj : Dict Str (List Str)) (seen : Dict Str Bool) → left adj seen ≤ total adj
unfolding left total
left-total [] seen = omega arith
left-total ((n, ns) ∷ adj) seen = ground (arith, left-total adj seen)

module _ (adj : Dict Str (List Str)) (failed : Dict Str Bool) (from : Str) where
  -- What the walk keeps: the queue is on the chain, a unit that was seen is `from` or has not
  -- failed, and what a seen unit depends on was seen or is in the queue.
  record IsWalk (seen : Dict Str Bool) (queue : List Str) : Type 0 where
    on_chain : (n : Str) → contains queue n ≡ true → Chain (next adj) from n
    start : Dict.has from seen ≡ true
    sound : (m : Str) → Dict.has m seen ≡ true → (m ≡ from) ⊎ (Dict.has m failed ≡ false)
    closed :
        (m n : Str)
        → Dict.has m seen ≡ true
        → contains (adj_at adj m) n ≡ true
        → (Dict.has n seen || contains queue n) ≡ true

  -- What the walk gives: a failed unit of the chain, or the empty text where there is none.
  pub data Found : Str → Type 0 where
    culprit : {n : Str} → Chain (next adj) from n → Dict.has n failed ≡ true → Found n
    nothing :
        ((n : Str) → Chain (next adj) from n → (n ≡ from) ⊎ (Dict.has n failed ≡ false)) → Found []

  closed-Chain :
      (seen : Dict Str Bool)
      → IsWalk seen []
      → (n : Str) → Chain (next adj) from n
      → Dict.has n seen ≡ true
  unfolding contains
  closed-Chain seen i n (Chain.hop m) = ground (arith, i.closed from n i.start m)
  closed-Chain seen i n (Chain.more {m = m} c k) =
      ground (arith, i.closed m n (closed-Chain seen i m c) k)

  skip_closed :
      (seen : Dict Str Bool) (n : Str) (queue : List Str) (v : Str)
      → Dict.has n seen ≡ true
      → (Dict.has v seen || contains (n ∷ queue) v) ≡ true
      → (Dict.has v seen || contains queue v) ≡ true
  unfolding contains
  skip_closed seen n queue v h k =
      let same = (λ (e : (v == n) ≡ true). ap (λ x. Dict.has x seen) (beq→eq {a = v} {b = n} e)) in
      ground (arith, k, h, same)

  visit-Chain :
      (n : Str) (queue : List Str) (m : Str)
      → ((v : Str) → contains (n ∷ queue) v ≡ true → Chain (next adj) from v)
      → (contains queue m || contains (adj_at adj n) m) ≡ true
      → Chain (next adj) from m
  unfolding contains
  visit-Chain n queue m chain k = elim (Bool-cases (contains queue m)) [
    | inl waits ↦ chain m (ground (arith, waits))
    | inr new ↦ Chain.more {m = n} (chain n (rw (beq_refl n) refl)) (ground (arith, new, k))
  ]

  visit_sound :
      (seen : Dict Str Bool) (n m : Str)
      → Dict.has n failed ≡ false
      → ((v : Str) → Dict.has v seen ≡ true → (v ≡ from) ⊎ (Dict.has v failed ≡ false))
      → (m == n || Dict.has m seen) ≡ true
      → (m ≡ from) ⊎ (Dict.has m failed ≡ false)
  visit_sound seen n m fine sound k = elim (Bool-cases (m == n)) [
    | inl same ↦ inr (ap (λ x. Dict.has x failed) (beq→eq {a = m} {b = n} same) ∙ fine)
    | inr other ↦ sound m (ground (arith, k, other))
  ]

  visit_closed :
      (seen : Dict Str Bool) (n : Str) (queue : List Str) (m v : Str)
      → ((x y : Str)
          → Dict.has x seen ≡ true
          → contains (adj_at adj x) y ≡ true
          → (Dict.has y seen || contains (n ∷ queue) y) ≡ true)
      → (m == n || Dict.has m seen) ≡ true
      → contains (adj_at adj m) v ≡ true
      → ((v == n || Dict.has v seen) || (contains queue v || contains (adj_at adj n) v)) ≡ true
  unfolding contains
  visit_closed seen n queue m v closed s k = elim (Bool-cases (m == n)) [
    | inl same ↦
        (let here = ap (λ x. contains (adj_at adj x) v) (beq→eq {a = m} {b = n} same) in
          ground (arith, here, k))
    | inr other ↦ (let old = closed m v (ground (arith, s, other)) k in ground (arith, old))
  ]

  skip-IsWalk :
      (seen : Dict Str Bool) (n : Str) (queue : List Str)
      → IsWalk seen (n ∷ queue)
      → Dict.has n seen ≡ true
      → IsWalk seen queue
  unfolding contains
  skip-IsWalk seen n queue i h = record {
    on_chain = λ m k. i.on_chain m (ground (arith, k));
    start = i.start;
    sound = i.sound;
    closed = λ m v s k. skip_closed seen n queue v h (i.closed m v s k);
  }

  visit-IsWalk :
      (seen : Dict Str Bool) (n : Str) (queue : List Str)
      → IsWalk seen (n ∷ queue)
      → Dict.has n failed ≡ false
      → IsWalk (Dict.insert n true seen) (queue ++ adj_at adj n)
  unfolding contains
  visit-IsWalk seen n queue i fine = record {
    on_chain =
        λ m k. visit-Chain n queue m i.on_chain (sym (contains-append m queue (adj_at adj n)) ∙ k);
    start = rw (Dict.has-insert from n true seen) (ground (arith, i.start));
    sound = λ m s. visit_sound seen n m fine i.sound (sym (Dict.has-insert m n true seen) ∙ s);
    closed = λ m v s k.
        rw (Dict.has-insert v n true seen, contains-append v queue (adj_at adj n))
          (visit_closed seen n queue m v i.closed (sym (Dict.has-insert m n true seen) ∙ s) k);
  }

  walk-Found :
      (fuel : ℕ) (seen : Dict Str Bool) (queue : List Str)
      → length queue + left adj seen ≤ fuel
      → IsWalk seen queue
      → (r : Str) × (walk fuel adj failed seen queue ≡ some r) × Found r
  unfolding walk contains
  walk-Found fuel seen [] enough i =
      ([], refl, nothing (λ n c. i.sound n (closed-Chain seen i n c)))
  walk-Found zero seen (n ∷ queue) enough i = absurd (omega (arith, enough))
  walk-Found (suc fuel) seen (n ∷ queue) enough i = elim (Bool-cases (Dict.has n seen)) [
    | inl old ↦
        rw old (walk-Found fuel seen queue (omega (arith, enough)) (skip-IsWalk seen n queue i old))
    | inr new ↦ elim (Bool-cases (Dict.has n failed)) [
      | inl bad ↦ rw (new, bad) (n, refl, culprit (i.on_chain n (rw (beq_refl n) refl)) bad)
      | inr fine ↦
          rw (new, fine)
            (walk-Found fuel (Dict.insert n true seen) (queue ++ adj_at adj n)
              (omega
                (arith, enough, length-append queue (adj_at adj n), left-insert adj seen n new))
              (visit-IsWalk seen n queue i fine))
    ]
  ]

  start_closed :
      (m n : Str)
      → Dict.has m ((from, true) ∷ []) ≡ true
      → contains (adj_at adj m) n ≡ true
      → (Dict.has n ((from, true) ∷ []) || contains (adj_at adj from) n) ≡ true
  unfolding Dict.has Dict.lookup
  start_closed m n h k = elim (Bool-cases (m == from)) [
    | inl same ↦
        (let here = ap (λ x. contains (adj_at adj x) n) (beq→eq {a = m} {b = from} same) in
          ground (arith, here, k))
    | inr other ↦ ground (arith, h, other)
  ]

  start_sound :
      (m : Str) → Dict.has m ((from, true) ∷ []) ≡ true → (m ≡ from) ⊎ (Dict.has m failed ≡ false)
  unfolding Dict.has Dict.lookup
  start_sound m h = elim (Bool-cases (m == from)) [
    | inl same ↦ inl (beq→eq {a = m} {b = from} same)
    | inr other ↦ absurd (ground (arith, h, other))
  ]

  start-IsWalk : IsWalk ((from, true) ∷ []) (adj_at adj from)
  unfolding Dict.has Dict.lookup
  start-IsWalk = record {
    on_chain = λ n m. Chain.hop m;
    start = rw (beq_refl from) refl;
    sound = start_sound;
    closed = start_closed;
  }

-- The walk for the nearest failed dependency ends, whatever the graph. A unit that it gives has
-- failed, and is one that `from` depends on through hard dependencies; it gives none only if all
-- such units but `from` itself have not failed.
pub first_failed_dep-Found :
    (from : Str) (adj : Dict Str (List Str)) (failed : Dict Str Bool)
    → (r : Str) × (first_failed_dep from adj failed ≡ some r) × Found adj failed from r
unfolding first_failed_dep
first_failed_dep-Found from adj failed =
    walk-Found adj failed from (length (adj_at adj from) + total adj) ((from, true) ∷ [])
      (adj_at adj from) (omega (arith, left-total adj ((from, true) ∷ [])))
      (start-IsWalk adj failed from)
