-- ===== src/Registry/Age.antt =====
-- `ParseAge`: a minimum age, in nanoseconds.
use creidhne.Base.{not}
use mathlib.Core.List.{reverse, reverse-append, reverse-reverse}
use creidhne.Base.{
  ℕ, ◌*◌, ◌/◌, ◌≡◌, false, Option, none, some, [], ◌∷◌, ◌++◌, Result, ok, err, ◌==◌, nat_eq, ltb,
  leb, arith, if◌then◌else◌,
}
use creidhne.Base.Str.{Str}
use creidhne.Registry.Numbers.{max_int, Signed, atoi, is_negative}

pub data AgeError : Type 0 where
  invalid_age invalid_unit overflow : AgeError

abbrev pub hour : ℕ
hour = 3600000000000

unfoldable pub age_unit : ℕ → Option ℕ
age_unit c =
    if c == b'h'
    then some hour
    else if c == b'd'
    then some (24 * hour)
    else if c == b'w'
    then some (7 * 24 * hour)
    else none

unfoldable pub age_of : ℕ → Option ℕ → Result AgeError ℕ
age_of n none = err AgeError.invalid_unit
age_of n (some unit) = if ltb (max_int / unit) n then err AgeError.overflow else ok (n * unit)

count_of : Option Signed → Option ℕ → Result AgeError ℕ
count_of none unit = err AgeError.invalid_age
count_of (some n) unit = if is_negative n then err AgeError.invalid_age else age_of n.size unit

-- The text reversed: the last byte, and the bytes before it.
split_age : Str → Result AgeError ℕ
split_age [] = ok 0
split_age (c ∷ front) = count_of (atoi (reverse front)) (age_unit c)

unfoldable pub parse_age : Str → Result AgeError ℕ
unfolding split_age count_of
parse_age s = split_age (reverse s)

fits_hour : (n : ℕ) → ltb (max_int / hour) n ≡ not (leb (n * hour) max_int)
fits_hour n = ground arith

fits_day : (n : ℕ) → ltb (max_int / (24 * hour)) n ≡ not (leb (n * (24 * hour)) max_int)
fits_day n = ground arith

fits_week : (n : ℕ) → ltb (max_int / (7 * 24 * hour)) n ≡ not (leb (n * (7 * 24 * hour)) max_int)
fits_week n = ground arith

age_of-age_unit :
    (n c unit : ℕ)
    → age_unit c ≡ some unit
    → age_of n (some unit)
      ≡ (if leb (n * unit) max_int then ok (n * unit) else err AgeError.overflow)
unfolding age_of age_unit
age_of-age_unit n c unit u = ground (arith, fits_hour n, fits_day n, fits_week n)

-- An age is a count and a unit. It is their product if that fits a duration, and an error if not:
-- the test by division is exact, and no age wraps around.
pub parse_age-atoi :
    (digits : Str) (c unit : ℕ) (n : Signed)
    → atoi digits ≡ some n
    → is_negative n ≡ false
    → age_unit c ≡ some unit
    → parse_age (digits ++ c ∷ [])
      ≡ (if leb (n.size * unit) max_int then ok (n.size * unit) else err AgeError.overflow)
parse_age-atoi digits c unit n e h u =
    let front = reverse-append digits (c ∷ []) in
    unfold parse_age in
    rw (front, reverse-reverse, e, count_of, h, u) (age_of-age_unit n.size c unit u)
