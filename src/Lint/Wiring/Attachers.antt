-- ===== src/Lint/Wiring/Attachers.antt =====
-- What one attachment changes.
use mathlib.Core.Path.{subst}
use creidhne.Base.{
  ◌≡◌, refl, sym, ◌∙◌, ap, Bool, true, false, not, ◌||◌, ◌&&◌, List, [], ◌∷◌, ◌++◌, ◌==◌, list_eq,
  nat_eq, list_beq, contains, contains-append, is_distinct, beq→eq, beq_comm, Bool-cases, inl, inr,
  arith, if◌then◌else◌,
}
use creidhne.Base.Str.{Str, str, has_suffix}
use creidhne.Base.Dict
use creidhne.Base.Dict.{Dict}
use creidhne.Lint.Wiring.{Wiring, attachers_at, attach_key, attach}

-- A reference without the byte that joins the keys of the set `attached`.
abbrev pub is_plain : Str → Bool
is_plain ref = not (contains ref b'|')

attach_key-injective :
    (a b u v : Str)
    → is_plain a ≡ true
    → is_plain b ≡ true
    → (attach_key a u == attach_key b v) ≡ (a == b && u == v)
unfolding contains list_beq
attach_key-injective [] [] u v h k = ground arith
attach_key-injective [] (d ∷ b) u v h k = ground arith
attach_key-injective (c ∷ a) [] u v h k = ground arith
attach_key-injective (c ∷ a) (d ∷ b) u v h k = ground (arith, attach_key-injective a b u v)

-- The set of keys and the lists of attachers say the same, and no list names a unit twice.
abbrev pub IsLinked : Wiring → Type 0
IsLinked w =
    (ref unit : Str)
    → is_plain ref ≡ true
    → (contains w.attached (attach_key ref unit) ≡ contains (attachers_at ref w) unit)
      × (is_distinct (attachers_at ref w) ≡ true)

-- From `w` to `w'` the attachers gain those of `new`.
abbrev pub Gains : (Str → Str → Bool) → Wiring → Wiring → Type 0
Gains new w w' =
    (ref unit : Str)
    → is_plain ref ≡ true
    → has_suffix ref (str ".network") ≡ true
    → contains (attachers_at ref w') unit ≡ (contains (attachers_at ref w) unit || new ref unit)

attachers_at-insert :
    (ref at : Str) (w : Wiring) (keys units : List Str)
    → attachers_at ref (record w { attached = keys; attachers = Dict.insert at units w.attachers })
      ≡ (if ref == at then units else attachers_at ref w)
unfolding attachers_at
attachers_at-insert ref at w keys units =
    rw (Dict.lookup-insert ref at units w.attachers) (ground arith)

-- A new key, and a new attacher of its network.
abbrev added : Str → Str → Wiring → Wiring
added unit ref w = record w {
  attached = attach_key ref unit ∷ w.attached;
  attachers = Dict.insert ref (attachers_at ref w ++ unit ∷ []) w.attachers;
}

attachers_at-added :
    (unit ref : Str) (w : Wiring) (r u : Str)
    → contains (attachers_at r (added unit ref w)) u
      ≡ (contains (attachers_at r w) u || r == ref && u == unit)
unfolding contains
attachers_at-added unit ref w r u = elim (Bool-cases (r == ref)) [
  | inl same ↦
      rw
        (
          attachers_at-insert r ref w (attach_key ref unit ∷ w.attached)
              (attachers_at ref w ++ unit ∷ []),
          same,
          contains-append u (attachers_at ref w) (unit ∷ []),
        )
        (ground (arith, ap (λ v. contains (attachers_at v w) u) (beq→eq {a = r} {b = ref} same)))
  | inr other ↦
      rw
        (
          attachers_at-insert r ref w (attach_key ref unit ∷ w.attached)
              (attachers_at ref w ++ unit ∷ []),
          other,
        )
        (ground arith)
]

is_distinct-append :
    (xs : List Str) (x : Str)
    → is_distinct xs ≡ true
    → contains xs x ≡ false
    → is_distinct (xs ++ x ∷ []) ≡ true
unfolding contains
is_distinct-append [] x h new = refl
is_distinct-append (y ∷ xs) x h new =
    ground (arith, is_distinct-append xs x, contains-append y xs (x ∷ []), beq_comm x y)

is_distinct-added :
    (unit ref : Str) (w : Wiring) (r : Str)
    → contains (attachers_at ref w) unit ≡ false
    → is_distinct (attachers_at ref w) ≡ true
    → is_distinct (attachers_at r w) ≡ true
    → is_distinct (attachers_at r (added unit ref w)) ≡ true
is_distinct-added unit ref w r new here there = elim (Bool-cases (r == ref)) [
  | inl same ↦
      rw
        (
          attachers_at-insert r ref w (attach_key ref unit ∷ w.attached)
              (attachers_at ref w ++ unit ∷ []),
          same,
        )
        (is_distinct-append (attachers_at ref w) unit here new)
  | inr other ↦
      rw
        (
          attachers_at-insert r ref w (attach_key ref unit ∷ w.attached)
              (attachers_at ref w ++ unit ∷ []),
          other,
        )
        there
]

added-IsLinked :
    (unit ref : Str) (w : Wiring)
    → is_plain ref ≡ true
    → IsLinked w
    → contains w.attached (attach_key ref unit) ≡ false
    → IsLinked (added unit ref w)
unfolding contains
added-IsLinked unit ref w plain h new r u k = (
  rw (attachers_at-added unit ref w r u, attach_key-injective r ref u unit k plain, (h r u k).0)
      (ground arith),
  is_distinct-added unit ref w r (sym (h ref unit plain).0 ∙ new) (h ref unit plain).1 (h r u k).1,
)

skipped-contains :
    (unit ref : Str) (w : Wiring)
    → is_plain ref ≡ true
    → IsLinked w
    → (not (has_suffix ref (str ".network")) || contains w.attached (attach_key ref unit)) ≡ true
    → has_suffix ref (str ".network") ≡ true
    → contains (attachers_at ref w) unit ≡ true
skipped-contains unit ref w plain h skip suffix = ground (arith, (h ref unit plain).0)

-- An attacher that is there already, or a reference to what is no network.
skipped-Gains :
    (unit ref : Str) (w : Wiring)
    → is_plain ref ≡ true
    → IsLinked w
    → (not (has_suffix ref (str ".network")) || contains w.attached (attach_key ref unit)) ≡ true
    → Gains (λ r u. r == ref && u == unit) w w
skipped-Gains unit ref w plain h skip r u k suffix = elim (Bool-cases (r == ref && u == unit)) [
  | inr no_new ↦ rw no_new (ground arith)
  | inl both ↦
      let same : r ≡ ref = beq→eq (ground arith) in
      let same' : u ≡ unit = beq→eq (ground arith) in
      rw
        (
          same',
          same,
          skipped-contains unit ref w plain h skip
              (subst (λ v. has_suffix v (str ".network") ≡ true) same suffix),
        )
        refl
]

pub attach-Gains :
    (unit ref : Str) (w : Wiring)
    → is_plain ref ≡ true
    → IsLinked w
    → Gains (λ r u. r == ref && u == unit) w (attach unit ref w) × IsLinked (attach unit ref w)
unfolding attach
attach-Gains unit ref w plain h =
    elim (Bool-cases
      (not (has_suffix ref (str ".network")) || contains w.attached (attach_key ref unit))) [
        | inl skip ↦ rw skip (skipped-Gains unit ref w plain h skip, h)
        | inr new ↦ rw new (
          λ r u k s. attachers_at-added unit ref w r u,
          added-IsLinked unit ref w plain h (ground arith),
        )
      ]
