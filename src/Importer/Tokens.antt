-- ===== src/Importer/Tokens.antt =====
-- `parseVarToken`: an interpolation token of a compose file (internal/importer/vars.go).
pub mod Printed
use creidhne.Base.{
  ℕ, ◌-◌, Bool, true, false, ◌||◌, ◌==◌, Option, none, some, List, [], ◌∷◌, ◌++◌, nat_eq, length,
  take, drop, if◌then◌else◌,
}
use creidhne.Base.Str.{Str, str, has_prefix, cut_prefix}

pub record VarToken : Type 0 where
  pub name : Str
  pub default : Str
  pub has_default : Bool
  pub alt : Bool
  pub nested : Bool

unfoldable pub plain : Str → VarToken
plain name = record { name = name; default = []; has_default = false; alt = false; nested = false }

-- `strings.Contains(s, "${")`
unfoldable pub has_interpolation : Str → Bool
has_interpolation [] = false
has_interpolation (c ∷ s) = has_prefix (c ∷ s) (str "${") || has_interpolation s

abbrev pub is_op : ℕ → Bool
is_op c = c == b':' || (c == b'-' || (c == b'?' || c == b'+'))

-- `strings.TrimPrefix(s, ":")`
abbrev pub trim_colon : Str → Str
trim_colon [] = []
trim_colon (c ∷ s) = if c == b':' then s else c ∷ s

-- The body from its operator on, behind the name.
unfoldable pub parse_op : Str → Str → VarToken
parse_op name [] = plain name
parse_op name (op ∷ arg) =
    if op == b'-'
    then record {
      name = name;
      default = arg;
      has_default = true;
      alt = false;
      nested = has_interpolation arg;
    }
    else if op == b'+'
    then record (plain name) { alt = true }
    else plain name

-- The loop over the body; `name` is what it has passed.
unfoldable pub parse_body : Str → Str → VarToken
parse_body name [] = plain name
parse_body name (c ∷ body) =
    let rest = parse_body (name ++ c ∷ []) body in
    if is_op c then parse_op name (trim_colon (c ∷ body)) else rest

-- `tok[2 : len(tok)-1]` for a token that starts with `${`, and `tok[1:]` for any other.
abbrev from_body : Str → Option Str → VarToken
from_body tok none = plain (drop 1 tok)
from_body tok (some rest) = parse_body [] (take (length rest - 1) rest)

unfoldable pub parse_var_token : Str → VarToken
parse_var_token tok = from_body tok (cut_prefix tok (str "${"))
