-- ===== src/Status/Stale.antt =====
-- What the staleness of a unit means: `restartHint`, `staleNote`, `changedKeys`, `unitKeyValues`,
-- `buildHash` and `buildHashOnlyChange` (internal/cli/stale.go).
use creidhne.Base.{
  ◌-◌, Bool, true, not, ◌&&◌, ◌||◌, ◌==◌, Option, none, some, List, [], ◌∷◌, ◌++◌, list_eq, nat_eq,
  is_nil, length, take, ltb, select, if◌then◌else◌,
}
use creidhne.Base.Str.{Str, str, cut_prefix, has_prefix, has_suffix, cut_byte, split_byte, join}
use creidhne.Base.Text.{has_sub, trim_space, trim_set, itoa}
use creidhne.Base.Order.{sort, str_order}
use creidhne.Base.Dict
use creidhne.Base.Dict.{Dict}
use creidhne.State.Types.{File, Time}
use creidhne.State.Query.{in_effect_at}

unfoldable pub restart_hint : Str → File → Str
restart_hint path rec =
    if has_suffix path (str ".volume")
    then path
      ++ str
          ": restart will not apply this change (an existing volume is never modified); recreate the volume to apply it"
    else if has_suffix path (str ".network")
        && not (has_sub rec.content (str "NetworkDeleteOnStop=true"))
    then path
      ++ str
          ": restart will not apply this change (the network object outlives the unit without NetworkDeleteOnStop); recreate the network to apply it"
    else []

abbrev pub build_hash_prefix : Str
build_hash_prefix = str "creidhne.build-hash="

-- `m[k]`, nil for a missing key
abbrev pub values_or_nil : Option (List Str) → List Str
values_or_nil none = []
values_or_nil (some vs) = vs

unfoldable pub values_at : Dict Str (List Str) → Str → List Str
values_at m k = values_or_nil (Dict.lookup k m)

unfoldable pub add_value : Str → Str → Str → Dict Str (List Str) → Dict Str (List Str)
add_value section k v m =
    if k == str "Annotation" && has_prefix v build_hash_prefix
    then m
    else let key = section ++ (str "." ++ k) in Dict.insert key (values_at m key ++ v ∷ []) m

abbrev pub add_pair : Str → Option (Str × Str) → Dict Str (List Str) → Dict Str (List Str)
add_pair section none m = m
add_pair section (some (k, v)) m = add_value section (trim_space k) (trim_space v) m

-- The body of the loop on a trimmed line: the section, and the values so far.
unfoldable pub read_line : Str → Str × Dict Str (List Str) → Str × Dict Str (List Str)
read_line line (section, m) =
    if is_nil line || (has_prefix line (str "#") || has_prefix line (str ";"))
    then (section, m)
    else if has_prefix line (str "[") && has_suffix line (str "]")
    then (trim_set (str "[]") line, m)
    else (section, add_pair section (cut_byte line b'=') m)

unfoldable pub read_lines : List Str → Str × Dict Str (List Str) → Str × Dict Str (List Str)
read_lines [] s = s
read_lines (line ∷ lines) s = read_lines lines (read_line (trim_space line) s)

unfoldable pub unit_key_values : Str → Dict Str (List Str)
unit_key_values content = (read_lines (split_byte content 10) ([], [])).1

-- The union of the keys, as the two loops fill it.
unfoldable pub add_keys : List Str → Dict Str Bool → Dict Str Bool
add_keys [] union = union
add_keys (k ∷ ks) union = add_keys ks (Dict.insert k true union)

abbrev pub after_dot : Str → Option (Str × Str) → Str
after_dot q none = q
after_dot q (some (section, k)) = k

unfoldable pub bare_key : Str → Str
bare_key q = after_dot q (cut_byte q b'.')

-- The last loop of `changedKeys`.
unfoldable pub bare_keys : List Str → Dict Str Bool → List Str
bare_keys [] seen = []
bare_keys (q ∷ qs) seen =
    let old = Dict.has (bare_key q) seen in
    let rest = bare_keys qs (if old then seen else Dict.insert (bare_key q) true seen) in
    if old then rest else bare_key q ∷ rest

unfoldable pub differs_at : Dict Str (List Str) → Dict Str (List Str) → Str → Bool
differs_at po pc k = not (join (values_at po k) (0 ∷ []) == join (values_at pc k) (0 ∷ []))

unfoldable pub changed_in : Dict Str (List Str) → Dict Str (List Str) → List Str
changed_in po pc =
    let union = add_keys (Dict.keys pc) (add_keys (Dict.keys po) []) in
    bare_keys (sort (select (differs_at po pc) (Dict.keys union))) []

unfoldable pub changed_keys : Str → Str → List Str
changed_keys old current = changed_in (unit_key_values old) (unit_key_values current)

-- The rest of the first stamped line.
abbrev pub or_next : Option Str → Str → Str
or_next none next = next
or_next (some v) next = v

unfoldable pub stamp_in : List Str → Str
stamp_in [] = []
stamp_in (line ∷ lines) =
    or_next (cut_prefix (trim_space line) (str "Annotation=" ++ build_hash_prefix)) (stamp_in lines)

unfoldable pub build_hash : Str → Str
build_hash content = stamp_in (split_byte content 10)

unfoldable pub build_hash_only_change : Str → Str → Str → Str
build_hash_only_change name old current =
    if build_hash old == build_hash current || not (is_nil (changed_keys old current))
    then []
    else if has_suffix name (str ".build")
    then str "Containerfile or context changed"
    else str "image rebuilt"

-- The reasons that `staleNote` adds for a moved build hash.
unfoldable pub with_rebuild : Str → Bool → List Str → List Str
with_rebuild path moved keys =
    if not moved
    then keys
    else if has_suffix path (str ".build") && is_nil keys
    then keys ++ str "Containerfile/context" ∷ []
    else if not (has_suffix path (str ".build"))
    then keys ++ str "image rebuilt" ∷ []
    else keys

unfoldable pub shorten : List Str → List Str
shorten keys =
    if ltb 3 (length keys)
    then take 3 keys ++ (str "+" ++ (itoa (length keys - 3) ++ str " more")) ∷ []
    else keys

abbrev pub key_part : Str → File → Option Str → List Str
key_part path rec none = []
key_part path rec (some old) =
    let moved = not (build_hash old == build_hash rec.content) in
    let keys = with_rebuild path moved (changed_keys old rec.content) in
    if is_nil keys then [] else join (shorten keys) (str ", ") ∷ []

unfoldable pub stale_note : Str → File → Time → Str
stale_note path rec active_enter =
    let flag = if is_nil (restart_hint path rec) then [] else str "recreate required" ∷ [] in
    join (flag ++ key_part path rec (in_effect_at rec active_enter)) (str "; ")
