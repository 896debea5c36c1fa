-- ===== src/Metadata/Paths.antt =====
-- Path handling of the metadata server: `splitPath` (internal/metadata/mds.go) and `joinPath`
-- (internal/metadata/replicator.go).
pub mod Split
use fstorex.Base.{ℕ, String, ◌<>◌, List, [], ◌∷◌, ◌==◌, string_eq, if◌then◌else◌}
use fstorex.Base.Text.{trim_prefix, trim_suffix, split}

-- The code of '/'.
abbrev pub slash : ℕ
slash = b'/'

-- The loop of `splitPath` that drops empty pieces.
unfoldable pub non_empty : List String → List String
non_empty [] = []
non_empty (p ∷ ps) = if p == "" then non_empty ps else p ∷ non_empty ps

unfoldable pub split_path : String → List String
unfolding trim_prefix trim_suffix split non_empty
split_path path =
    let inner = trim_suffix (trim_prefix path "/") "/" in
    if inner == "" then [] else non_empty (split slash inner)

unfoldable pub join_path : String → String → String
join_path parent name = if parent == "/" then "/" <> name else parent <> "/" <> name
