-- ===== src/Metadata/Listing.antt =====
-- `ListDir` and `ListDataNodes` (internal/metadata/mds.go).
pub mod Paths
pub mod Sorted
use Prim.Native.Char.{Char, code}
use Prim.Native.String
use fstorex.Base.{
  String, ◌<>◌, Bool, true, false, not, ◌&&◌, ◌||◌, none, some, List, [], ◌∷◌, ◌++◌, ltb, ◌==◌,
  nat_eq, string_eq, if◌then◌else◌,
}
use fstorex.Base.Text
use fstorex.Types.{FileInfo}
use fstorex.DataNode.Paths.{clean_rooted, without_last}
use fstorex.Metadata.Paths.{slash}
use fstorex.Metadata.Tree.{Attrs, Entry, Children, empty, bind, attrs, children, is_dir}
use fstorex.Metadata.State.{MetadataServer}
use fstorex.Metadata.Apply.{lookup}
use fstorex.Metadata.Server.{Answer, answer, refuse, no_directory, not_directory}

-- Go's `<` on strings: UTF-8 keeps the order of the runes.
unfoldable pub text_lt : String → String → Bool
text_lt s String.[] = false
text_lt String.[] (String.◌∷◌ d t) = true
text_lt (String.◌∷◌ c s) (String.◌∷◌ d t) =
    let rest = text_lt s t in
    if ltb (code c) (code d) then true else if code c == code d then rest else false

-- The loop of `filepath.Clean` over the parts of a path that is not rooted; `depth` are the parts
-- that a ".." may take away, `ups` those in front of them.
unfoldable pub clean_relative : List String → List String → List String → List String
clean_relative ups depth [] = ups ++ depth
clean_relative ups depth (part ∷ parts) = elim (part == "" || part == ".") [
  | true ↦ clean_relative ups depth parts
  | false ↦ elim (part == "..") [
    | false ↦ clean_relative ups (depth ++ part ∷ []) parts
    | true ↦ elim depth [
      | [] ↦ clean_relative (ups ++ ".." ∷ []) [] parts
      | p ∷ ps ↦ clean_relative ups (without_last (p ∷ ps)) parts
    ]
  ]
]

unfoldable pub joined : List String → String
joined [] = "."
joined (p ∷ []) = p
joined (p ∷ q ∷ ps) = p <> "/" <> joined (q ∷ ps)

-- `filepath.Join` of a path and a name.
unfoldable pub join_clean : String → String → String
join_clean path name =
    if Text.has_prefix path "/"
    then (let clean = clean_rooted (path <> "/" <> name) in if clean == "" then "/" else clean)
    else joined
        (clean_relative [] [] (Text.split slash (if path == "" then name else path <> "/" <> name)))

abbrev pub info_of : String → String → Entry → FileInfo
info_of path name child = record {
  name = name;
  path = join_clean path name;
  is_dir = is_dir child;
  size = (attrs child).size;
  mode = (attrs child).mode;
  created_at = (attrs child).created_at;
  mod_time = (attrs child).mod_time;
  file_id = (attrs child).file_id;
}

-- The loop over the children.
unfoldable pub child_infos : String → Children → List FileInfo
child_infos path empty = []
child_infos path (bind name child cs) = info_of path name child ∷ child_infos path cs

-- The order of the listing: directories first, then by name.
unfoldable pub stands_before : FileInfo → FileInfo → Bool
unfolding text_lt
stands_before a b =
    if a.is_dir && not b.is_dir || not a.is_dir && b.is_dir then a.is_dir else text_lt a.name b.name

unfoldable pub insert_info : FileInfo → List FileInfo → List FileInfo
insert_info a [] = a ∷ []
insert_info a (b ∷ infos) =
    let rest = insert_info a infos in if stands_before b a then b ∷ rest else a ∷ (b ∷ infos)

-- `sort.Slice`
unfoldable pub sort_infos : List FileInfo → List FileInfo
unfolding insert_info
sort_infos [] = []
sort_infos (a ∷ infos) = insert_info a (sort_infos infos)

-- `ListDir`
unfoldable pub list_dir : String → MetadataServer → Answer (List FileInfo)
unfolding child_infos sort_infos
list_dir path mds = elim (lookup mds path) [
  | none ↦ refuse (no_directory path)
  | some e ↦
      if is_dir e
      then answer (sort_infos (child_infos path (children e)))
      else refuse (not_directory path)
]

-- `ListDataNodes`
unfoldable pub list_data_nodes : MetadataServer → Answer (List String)
list_data_nodes mds = answer mds.data_nodes
