-- ===== src/Kinds.antt =====
-- internal/kinds/kinds.go: the Quadlet unit kinds and their file extensions.
use creidhne.Base.{Bool, List, [], ◌∷◌, map, list_eq, nat_eq, contains}
use creidhne.Base.Str.{Str, str}
use creidhne.Base.Order.{sort, str_order}
use creidhne.Base.Dict
use creidhne.Base.Dict.{Dict}

-- The map `ext`. Maps are listed in one order of the many in which `range` may yield them.
abbrev pub ext : Dict Str Str
ext =
    (str "container", str ".container")
    ∷ (str "pod", str ".pod")
    ∷ (str "volume", str ".volume")
    ∷ (str "network", str ".network")
    ∷ (str "kube", str ".kube")
    ∷ (str "build", str ".build")
    ∷ (str "image", str ".image")
    ∷ (str "artifact", str ".artifact")
    ∷ []

-- `Kinds`
unfoldable pub kinds : List Str
unfolding Dict.keys sort
kinds = sort (Dict.keys ext)

-- `Extensions`: the set of the extensions, by its membership test.
unfoldable pub extensions : List Str
extensions = map (λ (kind, e). e) ext

unfoldable pub is_managed_ext : Str → Bool
unfolding extensions contains
is_managed_ext e = contains extensions e
