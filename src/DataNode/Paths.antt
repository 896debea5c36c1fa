-- ===== src/DataNode/Paths.antt =====
-- `resolvePath` (internal/datanode/datanode.go), and what it uses of `filepath`.
use fstorex.Base.{
  String, ◌<>◌, ◌||◌, Option, none, some, List, [], ◌∷◌, ◌++◌, ◌==◌, string_eq, if◌then◌else◌,
}
use fstorex.Base.Text
use fstorex.Metadata.Paths.{slash}

-- A stack of parts without its last one.
abbrev pub without_last : List String → List String
without_last [] = []
without_last (p ∷ []) = []
without_last (p ∷ q ∷ ps) = p ∷ without_last (q ∷ ps)

-- What a part of a rooted path does to the parts before it.
unfoldable pub clean_step : List String → String → List String
clean_step stack part =
    if part == "" || part == "."
    then stack
    else if part == ".."
    then without_last stack
    else stack ++ part ∷ []

unfoldable pub clean_parts : List String → List String → List String
clean_parts stack [] = stack
clean_parts stack (part ∷ parts) = clean_parts (clean_step stack part) parts

-- The parts with a slash in front of each.
unfoldable pub rooted : List String → String
rooted [] = ""
rooted (p ∷ ps) = "/" <> p <> rooted ps

-- `filepath.Clean` of a rooted path, without its slash where nothing follows it.
unfoldable pub clean_rooted : String → String
clean_rooted path = rooted (clean_parts [] (Text.split slash path))

-- `resolvePath`. `filepath.Join` puts a data directory that is clean, and neither "/" nor ".",
-- in front of the clean path.
unfoldable pub resolve_path : String → String → Option String
resolve_path data_dir remote_path =
    let clean = clean_rooted ("/" <> Text.trim_prefix remote_path "/") in
    if Text.contains_text clean ".." then none else some (data_dir <> clean)
