-- ===== src/State/History.antt =====
-- What the retained versions of a file tell: the content that was in effect at a time, for a file
-- that went through any number of applies.
use mathlib.Core.List.{reverse, reverse-append}
use mathlib.Core.Path.{subst}
use creidhne.Base.{
  ℕ, ◌≤◌, ◌≡◌, refl, sym, ◌∙◌, false, Option, none, some, List, [], ◌∷◌, ◌++◌, ◌==◌, list_eq,
  nat_eq, beq→eq, contains, take, drop, take-append-drop, is_nil, ltb, Bool-cases, inl, inr, arith,
  if◌then◌else◌,
}
use creidhne.Base.Str.{Str}
use creidhne.Base.Dict
use creidhne.Base.Dict.{Dict}
use creidhne.State.Types.{Time, Revision, File, FileInput}
use creidhne.State.Build.{superseded, cap_history, carry, new_file, build_file}
use creidhne.State.Query.{recorded, latest, in_effect_at}

-- The applies that wrote the file, the last one first: when, and what.
abbrev pub Log : Type 0
Log = List (Time × Str)

-- What the last apply at or before `t` wrote.
abbrev pub current_at : Time → Log → Option Str
current_at t [] = none
current_at t ((now, c) ∷ log) = if ltb t now then current_at t log else some c

latest-append :
    (t : Time) (xs ys : List Revision) (c : Str)
    → latest t xs ≡ some c
    → latest t (xs ++ ys) ≡ some c
unfolding latest
latest-append t [] ys c h = absurd (ground arith)
latest-append t (r ∷ rs) ys c h = ground (arith, latest-append t rs ys c)

-- Dropping old versions loses answers, and makes no wrong ones.
latest-drop :
    (t : Time) (n : ℕ) (xs : List Revision) (c : Str)
    → latest t (reverse (drop n xs)) ≡ some c
    → latest t (reverse xs) ≡ some c
latest-drop t n xs c h =
    rw (sym (take-append-drop n xs), reverse-append)
      (latest-append t (reverse (drop n xs)) (reverse (take n xs)) c h)

-- A file that was recorded by the applies of a log.
module _ (sha256 : Str → Str) (path : Str) where
  pub data IsRecorded : Log → File → Type 0 where
    first :
        (prev : Dict Str File) (now : Time) (file_in : FileInput) {log : Log} {f : File}
        → Dict.lookup path prev ≡ none
        → f ≡ build_file sha256 now prev path file_in
        → log ≡ (now, file_in.content) ∷ []
        → IsRecorded log f
    later :
        (prev : Dict Str File) (pf : File) (last now : Time) (old : Str) (rest : Log)
        (file_in : FileInput) {log : Log} {f : File}
        → IsRecorded ((last, old) ∷ rest) pf
        → last ≤ now
        → Dict.lookup path prev ≡ some pf
        → f ≡ build_file sha256 now prev path file_in
        → log ≡ (now, file_in.content) ∷ (last, old) ∷ rest
        → IsRecorded log f

-- What holds of a recorded file: it shows the last content, and its answers agree with the log.
record Agrees (sha256 : Str → Str) (now : Time) (c : Str) (rest : Log) (f : File) : Type 0 where
  shown : f.content ≡ c
  hashed : f.sha256 ≡ sha256 c
  dated : f.applied_at ≤ now
  answers :
      (t : Time) (d : Str) → in_effect_at f t ≡ some d → current_at t ((now, c) ∷ rest) ≡ some d

-- The versions of the predecessor, read from the latest one, answer as the predecessor did.
latest-superseded :
    (t : Time) (pf : File)
    → is_nil pf.content ≡ false
    → latest t (reverse (superseded pf)) ≡ in_effect_at pf t
unfolding superseded in_effect_at latest
latest-superseded t pf h = rw (h, reverse-append) refl

latest-cap_history :
    (t : Time) (pf : File) (d : Str)
    → is_nil pf.content ≡ false
    → latest t (reverse (cap_history (superseded pf))) ≡ some d
    → in_effect_at pf t ≡ some d
unfolding cap_history
latest-cap_history t pf d full h =
    sym (latest-superseded t pf full) ∙ latest-drop t _ (superseded pf) d h

module _ (sha256 : Str → Str) (path : Str) (flat : contains path b'/' ≡ false) where
  new_file-Agrees :
      (now : Time) (file_in : FileInput)
      → Agrees sha256 now file_in.content [] (new_file sha256 now path file_in)
  unfolding new_file in_effect_at latest recorded
  new_file-Agrees now file_in = record {
    shown = ground arith;
    hashed = refl;
    dated = omega arith;
    answers = λ t d h. ground arith;
  }

  module _ (last now : Time) (old : Str) (rest : Log) (pf : File) (file_in : FileInput) where
    carry_same-Agrees :
        file_in.content ≡ old
        → last ≤ now
        → Agrees sha256 last old rest pf
        → Agrees sha256 now file_in.content
            ((last, old) ∷ rest)
            (record (new_file sha256 now path file_in) {
              applied_at = pf.applied_at;
              history = pf.history;
            })
    unfolding new_file in_effect_at
    carry_same-Agrees same le a = record {
      shown = ground arith;
      hashed = refl;
      dated = omega arith;
      answers = λ t d h. ground (arith, a.answers t d);
    }

    carry_changed-Agrees :
        is_nil old ≡ false
        → Agrees sha256 last old rest pf
        → Agrees sha256 now file_in.content
            ((last, old) ∷ rest)
            (record (new_file sha256 now path file_in) { history = cap_history (superseded pf) })
    unfolding new_file in_effect_at recorded
    carry_changed-Agrees full a = record {
      shown = ground arith;
      hashed = refl;
      dated = omega arith;
      answers = λ t d h. elim (Bool-cases (ltb t now)) [
        | inl before ↦ rw before (
            a.answers t d
              (latest-cap_history t pf d (ground (arith, a.shown)) (ground (arith, before))))
        | inr after ↦ ground arith
      ];
    }

    carry-Agrees :
        (sha256 file_in.content ≡ sha256 old → file_in.content ≡ old)
        → is_nil old ≡ false
        → last ≤ now
        → Agrees sha256 last old rest pf
        → Agrees sha256 now file_in.content
            ((last, old) ∷ rest)
            (carry pf (new_file sha256 now path file_in))
    unfolding carry new_file
    carry-Agrees distinct full le a = elim (Bool-cases (pf.sha256 == sha256 file_in.content)) [
      | inl same ↦ rw same (
          unfold new_file in
          carry_same-Agrees (distinct (sym (beq→eq {a = pf.sha256} same) ∙ a.hashed)) le a)
      | inr differs ↦ rw differs (unfold new_file in carry_changed-Agrees full a)
    ]

-- No apply of the log wrote an empty file.
abbrev pub IsFull : Log → Type 0
IsFull [] = Unit
IsFull ((now, c) ∷ log) = (is_nil c ≡ false) × IsFull log

-- Two contents that the log wrote one after the other have one hash only if they are the same.
abbrev pub Distinguishes : (Str → Str) → Log → Type 0
Distinguishes sha256 [] = Unit
Distinguishes sha256 ((now, c) ∷ []) = Unit
Distinguishes sha256 ((now, c) ∷ (last, old) ∷ log) =
    (sha256 c ≡ sha256 old → c ≡ old) × Distinguishes sha256 ((last, old) ∷ log)

module _ (sha256 : Str → Str) (path : Str) (flat : contains path b'/' ≡ false) where
  AgreesWith : Log → File → Type 0
  AgreesWith [] f = Unit
  AgreesWith ((now, c) ∷ rest) f = Agrees sha256 now c rest f

  build_file-first :
      (prev : Dict Str File) (now : Time) (file_in : FileInput)
      → Dict.lookup path prev ≡ none
      → build_file sha256 now prev path file_in ≡ new_file sha256 now path file_in
  unfolding build_file
  build_file-first prev now file_in absent = rw absent

  build_file-later :
      (prev : Dict Str File) (pf : File) (now : Time) (file_in : FileInput)
      → Dict.lookup path prev ≡ some pf
      → build_file sha256 now prev path file_in ≡ carry pf (new_file sha256 now path file_in)
  unfolding build_file
  build_file-later prev pf now file_in present = rw present

  IsRecorded-Agrees :
      {log : Log} {f : File}
      → IsRecorded sha256 path log f
      → IsFull log
      → Distinguishes sha256 log
      → AgreesWith log f
  unfolding AgreesWith
  IsRecorded-Agrees {log} {f} (IsRecorded.first prev now file_in absent e el) full h =
      rw (el, e, build_file-first prev now file_in absent)
        (new_file-Agrees sha256 path flat now file_in)
  IsRecorded-Agrees {log} {f} (IsRecorded.later prev pf last now old rest file_in r le present e el)
        full h =
      let (distinct, earlier) = subst (Distinguishes sha256) el h in
      let (new_full, fulls) = subst IsFull el full in
      rw (el, e, build_file-later prev pf now file_in present)
        (carry-Agrees sha256 path flat last now old rest pf file_in distinct fulls.0 le
          (IsRecorded-Agrees r fulls earlier))

  -- For a top-level file that was applied any number of times, at times that never go back, with
  -- contents that are not empty, and where two consecutive contents have one hash only if they
  -- are the same: a content that the record names as in effect at a time is the one that the last
  -- apply up to that time wrote.
  pub in_effect_at-IsRecorded :
      (now : Time) (c : Str) (rest : Log) {f : File} (t : Time) (d : Str)
      → IsRecorded sha256 path ((now, c) ∷ rest) f
      → IsFull ((now, c) ∷ rest)
      → Distinguishes sha256 ((now, c) ∷ rest)
      → in_effect_at f t ≡ some d
      → current_at t ((now, c) ∷ rest) ≡ some d
  unfolding AgreesWith
  in_effect_at-IsRecorded now c rest t d r full h =
      let a : Agrees sha256 now c rest _ = IsRecorded-Agrees r full h in a.answers t d

  -- For a top-level file that was applied any number of times, at times that never go back, with
  -- contents that are not empty, and where two consecutive contents have one hash only if they are
  -- the same: from the last apply on, the record names the content that it wrote.
  pub in_effect_at-last :
      (now : Time) (c : Str) (rest : Log) {f : File} (t : Time)
      → IsRecorded sha256 path ((now, c) ∷ rest) f
      → IsFull ((now, c) ∷ rest)
      → Distinguishes sha256 ((now, c) ∷ rest)
      → now ≤ t
      → in_effect_at f t ≡ some c
  unfolding AgreesWith in_effect_at recorded
  in_effect_at-last now c rest t r full h le =
      let a : Agrees sha256 now c rest _ = IsRecorded-Agrees r full h in
      ground (arith, a.shown, a.dated, full.0)
