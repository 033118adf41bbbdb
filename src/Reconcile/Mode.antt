-- ===== src/Reconcile/Mode.antt =====
-- `parseMode`, and `modeDiffersIfSet`.
use creidhne.Base.{
  ℕ, ◌+◌, ◌-◌, ◌*◌, ◌%◌, ◌^◌, Bool, false, ◌&&◌, Option, none, some, [], ◌∷◌, Result, ok, err,
  ◌>>=◌, ◌!=◌, nat_eq, leb, ltb, is_nil, if◌then◌else◌,
}
use creidhne.Base.Str.{Str}
use creidhne.Base.Paths.{FilePath}
use creidhne.Reconcile.Disk.{Errno, Disk}

-- The errors that end a plan.
pub data PlanError : Type 0 where
  unsafe_path : Str → PlanError
  os : Errno → PlanError
  invalid_mode : Str → PlanError

-- The digits of `strconv.ParseUint(s, 8, 32)`.
octal_digits : ℕ → Str → Option ℕ
octal_digits n [] = some n
octal_digits n (c ∷ s) =
    let rest = octal_digits (n * 8 + (c - b'0')) s in
    if leb b'0' c && leb c b'7' then rest else none

abbrev fits_32 : Option ℕ → Option ℕ
fits_32 none = none
fits_32 (some n) = if ltb n (2 ^ 32) then some n else none

parse_octal : Str → Option ℕ
unfolding octal_digits
parse_octal s = if is_nil s then none else fits_32 (octal_digits 0 s)

unfoldable pub parse_mode : Str → Result PlanError ℕ
unfolding parse_octal
parse_mode s = elim (parse_octal s) [ none ↦ err (invalid_mode s) | some v ↦ ok v ]

-- `FileMode.Perm`: the nine permission bits.
abbrev pub perm_bits : ℕ → ℕ
perm_bits mode = mode % 512

abbrev pub lift_os {ℓ} : {A : Type ℓ} → Result Errno A → Result PlanError A
lift_os (ok a) = ok a
lift_os (err e) = err (os e)

unfoldable pub mode_differs_if_set : Disk → FilePath → Str → Result PlanError Bool
unfolding parse_mode
mode_differs_if_set disk path mode = if is_nil mode then ok false else do
  want ← parse_mode mode
  info ← lift_os (disk.stat path)
  ok (perm_bits info.perm != perm_bits want)
