-- ===== src/Registry/Version/Raw.antt =====
-- What a parsed version keeps of its tag.
use creidhne.Base.{◌≡◌, refl, Option, none, some, [], all, arith}
use creidhne.Base.Str.{Str, cut_byte, split_byte}
use creidhne.Registry.Version.{Version, drop_v, is_numeric, parse_version, version_of, with_suffix}

version_of-raw :
    (tag : Str) (o : Option (Str × Str)) (v : Version) → version_of tag o ≡ some v → v.raw ≡ tag
unfolding version_of
version_of-raw tag none v h = absurd (cc h)
version_of-raw tag (some (front, suffix)) v h = ground (arith, h)

pub parse_version-raw : (tag : Str) (v : Version) → parse_version tag ≡ some v → v.raw ≡ tag
unfolding parse_version
parse_version-raw tag v h = version_of-raw tag _ v h

pub parse_version-nil : parse_version [] ≡ none
unfolding parse_version drop_v with_suffix version_of is_numeric cut_byte split_byte all
parse_version-nil = refl
