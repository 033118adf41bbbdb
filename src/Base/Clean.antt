-- ===== src/Base/Clean.antt =====
-- `Clean` and `Join` of package `path`.
use mathlib.Core.Bool.{Bool}
use mathlib.Core.List.{List, [], ◌∷◌, ◌++◌, reverse}
use creidhne.Base.Tests.{if◌then◌else◌}
use creidhne.Base.Lists.{is_nil}
use creidhne.Base.Equality.{◌==◌, nat_eq, list_eq}
use creidhne.Base.Str.{Str, str, has_prefix, split_byte, join}
use creidhne.Base.Paths.{Part, part}

-- One element of a path, whose clean elements so far come last first.
go_up : Bool → List Str → List Str
go_up rooted [] = if rooted then [] else str ".." ∷ []
go_up rooted (q ∷ path) = if q == str ".." then str ".." ∷ q ∷ path else path

clean_step : Bool → Part → Str → List Str → List Str
unfolding go_up
clean_step rooted Part.skip p path = path
clean_step rooted Part.up p path = go_up rooted path
clean_step rooted Part.down p path = p ∷ path

clean_parts : Bool → List Str → List Str → List Str
unfolding clean_step
clean_parts rooted path [] = path
clean_parts rooted path (p ∷ ps) = clean_parts rooted (clean_step rooted (part p) p path) ps

-- `path.Clean`
unfoldable pub clean : Str → Str
unfolding clean_parts
clean s =
    let rooted = has_prefix s (str "/") in
    let body = join (reverse (clean_parts rooted [] (split_byte s b'/'))) (str "/") in
    if rooted then str "/" ++ body else if is_nil body then str "." else body

-- `path.Join` of two elements, the first of which is not empty
unfoldable pub path_join : Str → Str → Str
path_join a b = clean (a ++ (str "/" ++ b))
