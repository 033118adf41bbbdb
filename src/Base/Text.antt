-- ===== src/Base/Text.antt =====
-- More of package `strings`, and `strconv.Itoa`.
use Prim.Native.Nat.{ℕ, zero, suc, ◌+◌, ◌-◌, ◌/◌, ◌%◌}
use mathlib.Core.Bool.{Bool, ◌&&◌, ◌||◌}
use mathlib.Core.List.{List, [], ◌∷◌, ◌++◌, reverse, map}
use creidhne.Base.Tests.{if◌then◌else◌, ltb, leb}
use creidhne.Base.Equality.{◌==◌, nat_eq, contains}
use creidhne.Base.Lists.{length}
use creidhne.Base.Str.{Str, has_prefix}

-- `strings.Contains(s, sub)`
unfoldable pub has_sub : Str → Str → Bool
has_sub [] sub = has_prefix [] sub
has_sub (c ∷ s) sub = has_prefix (c ∷ s) sub || has_sub s sub

-- The white space that takes one byte; the UTF-8 of the other white space of Unicode.
abbrev is_blank : ℕ → Bool
is_blank c = (leb 9 c && leb c 13) || c == 32

abbrev wide_blanks : List Str
wide_blanks =
    (194 ∷ 133 ∷ [])
    ∷ (194 ∷ 160 ∷ [])
    ∷ (225 ∷ 154 ∷ 128 ∷ [])
    ∷ (226 ∷ 128 ∷ 128 ∷ [])
    ∷ (226 ∷ 128 ∷ 129 ∷ [])
    ∷ (226 ∷ 128 ∷ 130 ∷ [])
    ∷ (226 ∷ 128 ∷ 131 ∷ [])
    ∷ (226 ∷ 128 ∷ 132 ∷ [])
    ∷ (226 ∷ 128 ∷ 133 ∷ [])
    ∷ (226 ∷ 128 ∷ 134 ∷ [])
    ∷ (226 ∷ 128 ∷ 135 ∷ [])
    ∷ (226 ∷ 128 ∷ 136 ∷ [])
    ∷ (226 ∷ 128 ∷ 137 ∷ [])
    ∷ (226 ∷ 128 ∷ 138 ∷ [])
    ∷ (226 ∷ 128 ∷ 168 ∷ [])
    ∷ (226 ∷ 128 ∷ 169 ∷ [])
    ∷ (226 ∷ 128 ∷ 175 ∷ [])
    ∷ (226 ∷ 129 ∷ 159 ∷ [])
    ∷ (227 ∷ 128 ∷ 128 ∷ [])
    ∷ []

-- The bytes of the white space that the text starts with, 0 if it starts with none.
wide_blank : List Str → Str → ℕ
wide_blank [] s = 0
wide_blank (w ∷ ws) s = if has_prefix s w then length w else wide_blank ws s

blank : List Str → Str → ℕ
unfolding wide_blank
blank wide [] = 0
blank wide (c ∷ s) = if is_blank c then 1 else wide_blank wide (c ∷ s)

-- Skip the bytes of the character that was begun, then the white space after it.
drop_blanks : List Str → ℕ → Str → Str
unfolding blank wide_blank
drop_blanks wide k [] = []
drop_blanks wide (suc k) (c ∷ s) = drop_blanks wide k s
drop_blanks wide zero (c ∷ s) =
    let n = blank wide (c ∷ s) in
    let rest = drop_blanks wide (n - 1) s in if n == 0 then c ∷ s else rest

-- `strings.TrimSpace(s)`
unfoldable pub trim_space : Str → Str
unfolding drop_blanks
trim_space s =
    reverse (drop_blanks (map reverse wide_blanks) 0 (reverse (drop_blanks wide_blanks 0 s)))

-- `strings.Trim(s, cutset)` for a set of single bytes
drop_set : Str → Str → Str
drop_set cutset [] = []
drop_set cutset (c ∷ s) = let rest = drop_set cutset s in if contains cutset c then rest else c ∷ s

unfoldable pub trim_set : Str → Str → Str
unfolding drop_set
trim_set cutset s = reverse (drop_set cutset (reverse (drop_set cutset s)))

digits : ℕ → ℕ → Str
digits zero n = []
digits (suc fuel) n =
    let front = digits fuel (n / 10) in
    if ltb n 10 then (b'0' + n) ∷ [] else front ++ (b'0' + n % 10) ∷ []

-- `strconv.Itoa(n)`, or `%d`: a number has fewer digits than its successor is large.
unfoldable pub itoa : ℕ → Str
unfolding digits
itoa n = digits (suc n) n

abbrev end_word : Str → List Str → List Str
end_word [] words = words
end_word (c ∷ word) words = reverse (c ∷ word) ∷ words

-- Skip the bytes of the character that was begun, with the bytes of the word so far, the last first.
fields_from : ℕ → Str → Str → List Str
unfolding blank wide_blank
fields_from k word [] = end_word word []
fields_from (suc k) word (c ∷ s) = fields_from k word s
fields_from zero word (c ∷ s) =
    let n = blank wide_blanks (c ∷ s) in
    let rest = fields_from (n - 1) (if n == 0 then c ∷ word else []) s in
    if n == 0 then rest else end_word word rest

-- `strings.Fields(s)`
unfoldable pub fields : Str → List Str
unfolding fields_from
fields s = fields_from 0 [] s
