-- ===== src/Status/Rows/Rendered.antt =====
-- What the loops over the rendered files collect of each path, and what a build records of it.
use mathlib.Core.Path.{subst}
use creidhne.Base.{
  ◌≡◌, refl, ◌∙◌, sym, ap, Bool, true, false, not, ◌&&◌, ◌||◌, ◌==◌, Option, none, some, List, [],
  ◌∷◌, list_eq, nat_eq, beq_refl, beq→eq, contains, is_distinct, all, All, map, inl, inr, arith,
  Bool-cases, if◌then◌else◌,
}
use creidhne.Base.Str.{Str}
use creidhne.Base.Order.{sort, str_order, contains-sort}
use creidhne.Base.Dict
use creidhne.Base.Dict.{Dict, is_some}
use creidhne.Eval.Data.{Quadlet}
use creidhne.State.Types.{Time, FileInput, File, QuadletRecord, State}
use creidhne.State.Build.{
  carry, carry_from, new_file, build_file, build_files, build_quadlet, build_loop, input_at,
  inputs_of, prev_files,
}
use creidhne.State.Query.{EachFile, Recorded}
use creidhne.Status.Label
use creidhne.Status.Rows.{disk_state, hash_or, hash_files, desired_hashes}

-- Some quadlet renders the path.
abbrev pub rendered : Str → Dict Str (Dict Str FileInput) → Bool
rendered p [] = false
rendered p ((name, files) ∷ qs) = Dict.has p files || rendered p qs

-- No two quadlets render one path.
abbrev pub one_owner : Dict Str (Dict Str FileInput) → Bool
one_owner [] = true
one_owner ((name, files) ∷ qs) =
    is_distinct (Dict.keys files)
    && (all (λ p. not (rendered p qs)) (Dict.keys files) && one_owner qs)

or_left : (a b : Bool) → (a || b) ≡ false → a ≡ false
or_left a b h = ground (arith, h)

all-rendered :
    (p : Str) (ks : List Str) (qs : Dict Str (Dict Str FileInput))
    → all (λ q. not (rendered q qs)) ks ≡ true
    → contains ks p ≡ true
    → rendered p qs ≡ false
unfolding all contains
all-rendered p [] qs h k = absurd (ground (arith, k))
all-rendered p (q ∷ ks) qs h k =
    let same = (λ (e : (p == q) ≡ true). ap (λ x. rendered x qs) (beq→eq {a = p} {b = q} e)) in
    ground (arith, h, k, same, all-rendered p ks qs)

no_inputs : (p name : Str) → Dict.has p (inputs_of [] name) ≡ true → ⊥
unfolding inputs_of Dict.lookup Dict.has
no_inputs p name h = ground (arith, h)

inputs_of-cons :
    (n : Str) (files : Dict Str FileInput) (qs : Dict Str (Dict Str FileInput)) (name : Str)
    → inputs_of ((n, files) ∷ qs) name ≡ (if name == n then files else inputs_of qs name)
unfolding inputs_of Dict.lookup
inputs_of-cons n files qs name = elim (Bool-cases (name == n)) [
  | inl same ↦ rw (inputs_of, Dict.lookup, same) refl
  | inr other ↦ rw (inputs_of, Dict.lookup, other) refl
]

input_at-cons :
    (q : Str) (f : FileInput) (files : Dict Str FileInput) (p : Str)
    → input_at ((q, f) ∷ files) p ≡ (if p == q then f else input_at files p)
unfolding input_at Dict.lookup
input_at-cons q f files p = elim (Bool-cases (p == q)) [
  | inl same ↦ rw (input_at, Dict.lookup, same) refl
  | inr other ↦ rw (input_at, Dict.lookup, other) refl
]

distinct-has :
    (q : Str) (f : FileInput) (files : Dict Str FileInput)
    → is_distinct (Dict.keys ((q, f) ∷ files)) ≡ true
    → Dict.has q files ≡ false
unfolding Dict.keys
distinct-has q f files h = let out = Dict.has-keys q files in ground (arith, h, out)

carry_from-kept :
    (o : Option File) (f : File)
    → ((carry_from o f).path ≡ f.path) × ((carry_from o f).sha256 ≡ f.sha256)
unfolding carry_from carry
carry_from-kept none f = (refl, refl)
carry_from-kept (some pf) f = elim (Bool-cases (pf.sha256 == f.sha256)) [
  | inl same ↦ rw same (refl, refl)
  | inr other ↦ rw other (refl, refl)
]

map-All :
    (P : File → Type 0) (g : Str → File) (ks : List Str)
    → ((k : Str) → contains ks k ≡ true → P (g k))
    → All P (map g ks)
unfolding contains
map-All P g [] h = tt
map-All P g (k ∷ ks) h =
    (h k (rw (beq_refl k) refl), map-All P g ks (λ j m. h j (ground (arith, m))))

insert-EachFile :
    (P : File → Type 0) (name : Str) (q : QuadletRecord) (m : Dict Str QuadletRecord)
    → All P q.files
    → EachFile P m
    → EachFile P (Dict.insert name q m)
unfolding Dict.insert
insert-EachFile P name q [] h hs = (h, tt)
insert-EachFile P name q ((n, r) ∷ m) h (k, hs) = elim (Bool-cases (name == n)) [
  | inl same ↦ rw same (h, hs)
  | inr other ↦ rw other (k, insert-EachFile P name q m h hs)
]

module _ (sha256 : Str → Str) where
  pub hash_files-lookup :
      (p : Str) (files : Dict Str FileInput) (m : Dict Str Str)
      → is_distinct (Dict.keys files) ≡ true
      → Dict.lookup p (hash_files sha256 files m)
        ≡ (if Dict.has p files then some (sha256 (input_at files p).content) else Dict.lookup p m)
  unfolding hash_files Dict.has Dict.lookup Dict.keys
  hash_files-lookup p [] m h = refl
  hash_files-lookup p ((q, f) ∷ files) m h =
      hash_files-lookup p files (Dict.insert q (sha256 f.content) m) (ground (arith, h))
      ∙ rw (Dict.lookup-insert p q (sha256 f.content) m, input_at-cons q f files p)
          (elim (Bool-cases (p == q)) [
            | inl same ↦
                rw
                  (
                    same,
                    ap (λ x. Dict.has x files) (beq→eq {a = p} {b = q} same)
                        ∙ distinct-has q f files h,
                  )
                  refl
            | inr other ↦ rw other refl
          ])

  module _ (p : Str) where
    desired_hashes-unrendered :
        (qs : Dict Str (Dict Str FileInput)) (m : Dict Str Str)
        → one_owner qs ≡ true
        → rendered p qs ≡ false
        → Dict.lookup p (desired_hashes sha256 qs m) ≡ Dict.lookup p m
    unfolding desired_hashes
    desired_hashes-unrendered [] m h k = refl
    desired_hashes-unrendered ((name, files) ∷ qs) m h k =
        desired_hashes-unrendered qs (hash_files sha256 files m) (ground (arith, h))
          (ground (arith, k))
        ∙ hash_files-lookup p files m (ground (arith, h))
        ∙ rw (or_left (Dict.has p files) (rendered p qs) k) refl

    pub first-lookup :
        (name : Str) (files : Dict Str FileInput) (qs : Dict Str (Dict Str FileInput))
        (m : Dict Str Str)
        → one_owner ((name, files) ∷ qs) ≡ true
        → Dict.has p files ≡ true
        → Dict.lookup p (desired_hashes sha256 qs (hash_files sha256 files m))
          ≡ some (sha256 (input_at files p).content)
    first-lookup name files qs m h k =
        desired_hashes-unrendered qs (hash_files sha256 files m) (ground (arith, h))
          (all-rendered p (Dict.keys files) qs (ground (arith, h)) (Dict.has-keys p files ∙ k))
        ∙ hash_files-lookup p files m (ground (arith, h))
        ∙ rw k refl

    -- The hash of a desired path is that of the content that its quadlet renders.
    desired_hashes-lookup :
        (qs : Dict Str (Dict Str FileInput)) (m : Dict Str Str) (name : Str)
        → one_owner qs ≡ true
        → Dict.has p (inputs_of qs name) ≡ true
        → Dict.lookup p (desired_hashes sha256 qs m)
          ≡ some (sha256 (input_at (inputs_of qs name) p).content)
    unfolding desired_hashes
    desired_hashes-lookup [] m name h = λ k. absurd (no_inputs p name k)
    desired_hashes-lookup ((n, files) ∷ qs) m name h = elim (Bool-cases (name == n)) [
      | inl same ↦
          subst
            (λ d.
              Dict.has p d ≡ true
              → Dict.lookup p (desired_hashes sha256 qs (hash_files sha256 files m))
                ≡ some (sha256 (input_at d p).content))
            (sym (inputs_of-cons n files qs name ∙ rw same refl)) (first-lookup n files qs m h)
      | inr other ↦
          subst
            (λ d.
              Dict.has p d ≡ true
              → Dict.lookup p (desired_hashes sha256 qs (hash_files sha256 files m))
                ≡ some (sha256 (input_at d p).content))
            (sym (inputs_of-cons n files qs name ∙ rw other refl))
            (desired_hashes-lookup qs (hash_files sha256 files m) name (ground (arith, h)))
    ]

  module _ (now : Time) where
    build_file-kept :
        (m : Dict Str File) (path : Str) (file_in : FileInput)
        → ((build_file sha256 now m path file_in).path ≡ path)
          × ((build_file sha256 now m path file_in).sha256 ≡ sha256 file_in.content)
    unfolding build_file new_file
    build_file-kept m path file_in = carry_from-kept (Dict.lookup path m) _

    -- What a build records of its files: the hash of the rendered content.
    module _ (desired : Dict Str (Dict Str FileInput)) (single : one_owner desired ≡ true) where
      abbrev pub Fresh : File → Type 0
      Fresh f = Dict.lookup f.path (desired_hashes sha256 desired []) ≡ some f.sha256

      build_file-Fresh :
          (m : Dict Str File) (name path : Str)
          → Dict.has path (inputs_of desired name) ≡ true
          → Fresh (build_file sha256 now m path (input_at (inputs_of desired name) path))
      build_file-Fresh m name path h =
          let (p, k) = build_file-kept m path (input_at (inputs_of desired name) path) in
          ap (λ x. Dict.lookup x (desired_hashes sha256 desired [])) p
          ∙ desired_hashes-lookup path desired [] name single h
          ∙ ap some (sym k)

      build_files-Fresh :
          (m : Dict Str File) (name : Str)
          → All Fresh (build_files sha256 now m (inputs_of desired name))
      unfolding build_files
      build_files-Fresh m name =
          map-All Fresh
            (λ path. build_file sha256 now m path (input_at (inputs_of desired name) path))
            (sort (Dict.keys (inputs_of desired name)))
            (λ path k. build_file-Fresh m name path (
              sym (Dict.has-keys path (inputs_of desired name))
              ∙ (sym (contains-sort path (Dict.keys (inputs_of desired name))) ∙ k)))

      pub build_loop-Fresh :
          (prev : Option State) (qs : List Quadlet) (m : Dict Str QuadletRecord)
          → EachFile Fresh m
          → EachFile Fresh (build_loop sha256 now prev desired m qs)
      unfolding build_loop build_quadlet
      build_loop-Fresh prev [] m h = h
      build_loop-Fresh prev (q ∷ qs) m h =
          build_loop-Fresh prev qs _
            (insert-EachFile Fresh q.name _ m (build_files-Fresh (prev_files prev q.name) q.name) h)

-- A desired file on disk whose record has the same hash is synced.
pub synced_when :
    (h : Str) (path : Str) (rec : Option File)
    → Recorded (λ f. some h ≡ some f.sha256) path rec
    → disk_state true (some h) true rec (some h) ≡ Label.synced
unfolding disk_state
synced_when h path none r = rw (beq_refl h) refl
synced_when h path (some f) (e, same) =
    let k = ap hash_or same in rw (beq_refl h, sym k, beq_refl h) refl
