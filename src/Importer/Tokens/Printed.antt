-- ===== src/Importer/Tokens/Printed.antt =====
-- The tokens that compose documents are read back as what they say.
use creidhne.Base.{
  ℕ, ◌-◌, ◌≡◌, refl, sym, ap, ◌∙◌, true, false, [], ◌∷◌, ◌++◌, nat_eq, any, length, take,
  length-append, arith,
}
use mathlib.Core.List.{append_assoc, append-nil}
use creidhne.Base.Str.{Str, str, cut_prefix}
use creidhne.Importer.Tokens.{
  VarToken, plain, has_interpolation, is_op, parse_op, parse_body, parse_var_token,
}

take-length : (s t : Str) → take (length s) (s ++ t) ≡ s
take-length [] t = refl
take-length (d ∷ s) t = rw (take-length s t)

take-snoc : (s : Str) (c : ℕ) → take (length (s ++ c ∷ []) - 1) (s ++ c ∷ []) ≡ s
take-snoc s c =
    let shorter : length (s ++ c ∷ []) - 1 ≡ length s = omega (arith, length-append s (c ∷ [])) in
    rw shorter (take-length s (c ∷ []))

parse_body-name :
    (seen name rest : Str)
    → any is_op name ≡ false
    → parse_body seen (name ++ rest) ≡ parse_body (seen ++ name) rest
unfolding parse_body any
parse_body-name seen [] rest h = ap (λ s. parse_body s rest) (sym (append-nil seen))
parse_body-name seen (c ∷ name) rest h =
    let later = parse_body-name (seen ++ c ∷ []) name rest (ground arith) in
    let is_name : is_op c ≡ false = ground arith in
    rw is_name (later ∙ ap (λ s. parse_body s rest) (append_assoc seen (c ∷ []) name))

-- A token in braces, around a body.
parse_var_token-braces :
    (body : Str) → parse_var_token (str "${" ++ (body ++ b'}' ∷ [])) ≡ parse_body [] body
unfolding parse_var_token cut_prefix
parse_var_token-braces body = ap (parse_body []) (take-snoc body b'}')

-- The token `${body}`.
abbrev pub braces : Str → Str
braces body = str "${" ++ (body ++ b'}' ∷ [])

abbrev pub with_default : Str → Str → VarToken
with_default name text = record {
  name = name;
  default = text;
  has_default = true;
  alt = false;
  nested = has_interpolation text;
}

named_body :
    (name rest : Str)
    → any is_op name ≡ false
    → parse_var_token (braces (name ++ rest)) ≡ parse_body name rest
named_body name rest h = parse_var_token-braces (name ++ rest) ∙ parse_body-name [] name rest h

-- For a name without a colon, a dash, a question mark or a plus sign: the forms `${name:-text}` and
-- `${name-text}` give the name with the default `text`, which is nested exactly if it has an
-- interpolation in it, `${name:+text}` gives the name as one with an alternate value, and `${name}`
-- and `${name:?text}` give the name alone.
pub parse_var_token-braces_forms :
    (name text : Str)
    → any is_op name ≡ false
    → (parse_var_token (braces (name ++ (str ":-" ++ text))) ≡ with_default name text)
      × (parse_var_token (braces (name ++ (str "-" ++ text))) ≡ with_default name text)
      × (parse_var_token (braces (name ++ (str ":+" ++ text))) ≡ record (plain name) { alt = true })
      × (parse_var_token (braces (name ++ [])) ≡ plain name)
      × (parse_var_token (braces (name ++ (str ":?" ++ text))) ≡ plain name)
unfolding parse_body parse_op
parse_var_token-braces_forms name text h = (
  named_body name (str ":-" ++ text) h,
  named_body name (str "-" ++ text) h,
  named_body name (str ":+" ++ text) h,
  named_body name [] h,
  named_body name (str ":?" ++ text) h,
)
