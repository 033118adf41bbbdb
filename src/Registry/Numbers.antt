-- ===== src/Registry/Numbers.antt =====
-- `strconv.Atoi`: an optional sign and digits, within the range of an `int64`.
use creidhne.Base.{
  ℕ, ◌+◌, ◌-◌, ◌*◌, ◌^◌, Bool, true, false, not, ◌&&◌, ◌||◌, Option, none, some, [], ◌∷◌, ◌==◌,
  nat_eq, leb, is_nil, if◌then◌else◌,
}
use creidhne.Base.Str.{Str, is_digit}

abbrev pub max_int : ℕ
max_int = 2 ^ 63 - 1

unfoldable pub decimal : ℕ → Str → Option ℕ
decimal n [] = some n
decimal n (c ∷ s) = let rest = decimal (n * 10 + (c - b'0')) s in if is_digit c then rest else none

-- An integer as its sign and its size.
pub record Signed : Type 0 where
  pub negative : Bool
  pub size : ℕ

abbrev in_range : Bool → Option ℕ → Option Signed
in_range negative none = none
in_range negative (some n) =
    if leb n max_int || (negative && n == 2 ^ 63)
    then some (record { negative = negative; size = n })
    else none

digits_of : Bool → Str → Option Signed
unfolding decimal
digits_of negative s = if is_nil s then none else in_range negative (decimal 0 s)

unfoldable pub atoi : Str → Option Signed
unfolding digits_of
atoi [] = none
atoi (c ∷ s) =
    if c == b'-'
    then digits_of true s
    else if c == b'+'
    then digits_of false s
    else digits_of false (c ∷ s)

-- `n < 0`
abbrev pub is_negative : Signed → Bool
is_negative n = n.negative && not (n.size == 0)
