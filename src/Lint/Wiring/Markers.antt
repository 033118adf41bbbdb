-- ===== src/Lint/Wiring/Markers.antt =====
-- Which labels mark a network as a pair network.
use creidhne.Base.{
  ◌≡◌, refl, ◌∙◌, Bool, false, not, ◌&&◌, ◌==◌, some, List, [], ◌∷◌, list_eq, nat_eq, list_beq,
  is_nil, any, Option-cases, inl, inr, arith, if◌then◌else◌,
}
use creidhne.Base.Str.{Str, str, cut_prefix, has_prefix}
use creidhne.Eval.Data.{UnitRecord}
use creidhne.Eval.Access.{top_list}
use creidhne.Lint.Wiring.{pair_in, pair_of}

abbrev is_pair_label : Str → Bool
is_pair_label l = has_prefix l (str "creidhne.pair=")

-- The last of the labels that start with `creidhne.pair=` has more than that.
abbrev pub is_marked : List Str → Bool
is_marked [] = false
is_marked (l ∷ labels) =
    if any is_pair_label labels
    then is_marked labels
    else is_pair_label l && not (l == str "creidhne.pair=")

cut_prefix-is_nil : (s prefix v : Str) → cut_prefix s prefix ≡ some v → is_nil v ≡ (s == prefix)
unfolding cut_prefix list_beq
cut_prefix-is_nil [] [] v h = ground (arith, h)
cut_prefix-is_nil (c ∷ s) [] v h = ground (arith, h)
cut_prefix-is_nil [] (p ∷ prefix) v h = absurd (cc h)
cut_prefix-is_nil (c ∷ s) (p ∷ prefix) v h = ground (arith, h, cut_prefix-is_nil s prefix v)

-- The value that the loop has, before and after some labels.
pair_in-is_marked :
    (pair : Str) (labels : List Str)
    → is_nil (pair_in pair labels)
      ≡ not (if any is_pair_label labels then is_marked labels else not (is_nil pair))
unfolding pair_in any has_prefix
pair_in-is_marked pair [] = ground arith
pair_in-is_marked pair (l ∷ labels) = elim (Option-cases (cut_prefix l (str "creidhne.pair="))) [
  | inl out ↦ rw (out, pair_in-is_marked pair labels) (ground arith)
  | inr (v, found) ↦
      rw (found, pair_in-is_marked v labels)
        (ground (arith, cut_prefix-is_nil l (str "creidhne.pair=") v found))
]

none_marked :
    (labels : List Str)
    → not (if any is_pair_label labels then is_marked labels else false) ≡ not (is_marked labels)
unfolding any
none_marked [] = refl
none_marked (l ∷ labels) = ground arith

pub pair_of-is_marked :
    (n : UnitRecord)
    → is_nil (pair_of n) ≡ not (is_marked (top_list n.unit_data (str "labelStrings")))
unfolding pair_of
pair_of-is_marked n =
    let labels = top_list n.unit_data (str "labelStrings") in
    pair_in-is_marked [] labels ∙ none_marked labels
