-- ===== src/Metadata/Rename.antt =====
-- `applyRename` (internal/metadata/apply.go). Equality of entry pointers is equality of their paths:
-- while a walk runs along the source's path it carries what is left of that path, and its pointer
-- is the source entry's when nothing is left.
pub mod Cycle
pub mod Moved
pub mod Outcome
use fstorex.Base.{
  String, Bool, true, false, ◌&&◌, Option, none, some, List, [], ◌∷◌, ◌++◌, ◌==◌, string_eq,
  if◌then◌else◌,
}
use fstorex.Types.{Time}
use fstorex.Metadata.Paths.{split_path}
use fstorex.Metadata.Tree.{Entry, entry, attrs, children, is_dir, find, walk_dirs, modify}
use fstorex.Metadata.State.{
  CommandPayload, MetadataServer, Applied, invalid_rename, source_not_found,
  destination_parent_not_found, into_own_subtree, destination_is_directory,
}
use fstorex.Metadata.Apply.{split_last, failed, done, touch, attach, detach}

-- `ancestor == srcEntry`
abbrev pub at_source : Option (List String) → Bool
at_source (some []) = true
at_source _ = false

-- What is left of the source's path after one more part.
abbrev pub advance : String → Option (List String) → Option (List String)
advance p none = none
advance p (some []) = none
advance p (some (q ∷ qs)) = if q == p then some qs else none

-- The walk along the destination's parents that looks for the source entry, with the test behind
-- its loop.
unfoldable pub meets_source : Option (List String) → List String → Entry → Bool
meets_source left [] ancestor = at_source left
meets_source left (p ∷ ps) ancestor =
    if at_source left then true else elim (find p (children ancestor)) [
      | none ↦ at_source left
      | some child ↦
          let rest = meets_source (advance p left) ps child in
          if is_dir child then rest else at_source left
    ]

-- `srcEntry.name = dstFileName` and `srcEntry.modTime = now`
abbrev pub renamed : String → Time → Entry → Entry
renamed name now e = entry (record (attrs e) { name = name; mod_time = now }) (children e)

-- The writes of a rename whose checks have passed: the old destination goes, the source is
-- detached and attached under its new name, and the parents are touched.
unfoldable pub move : List String → String → List String → String → Entry → Time → Entry → Entry
move src_dir src_name dst_dir dst_name src_entry now root =
    let cleared = modify dst_dir (detach dst_name) root in
    let detached = modify src_dir (detach src_name) cleared in
    let attached = modify dst_dir (attach dst_name (renamed dst_name now src_entry)) detached in
    modify dst_dir (touch now) (modify src_dir (touch now) attached)

unfoldable pub rename_parts :
    List String → String → List String → String → CommandPayload → Time → MetadataServer → Applied
unfolding meets_source
rename_parts src_dir src_name dst_dir dst_name p now mds = elim (walk_dirs src_dir mds.root) [
  | none ↦ failed mds (source_not_found p.path)
  | some src_parent ↦ elim (find src_name (children src_parent)) [
    | none ↦ failed mds (source_not_found p.path)
    | some src_entry ↦
        if is_dir src_entry && meets_source (some (src_dir ++ src_name ∷ [])) dst_dir mds.root
        then failed mds (into_own_subtree p.path p.dst_path)
        else elim (walk_dirs dst_dir mds.root) [
          | none ↦ failed mds (destination_parent_not_found p.dst_path)
          | some dst_parent ↦
              let moved = done (record mds {
                root = move src_dir src_name dst_dir dst_name src_entry now mds.root;
              }) in
              elim (find dst_name (children dst_parent)) [
                | none ↦ moved
                | some dst_entry ↦
                    if is_dir dst_entry
                    then failed mds (destination_is_directory p.dst_path)
                    else moved
              ]
        ]
  ]
]

unfoldable pub apply_rename : CommandPayload → Time → MetadataServer → Applied
apply_rename p now mds = elim (split_last (split_path p.path)) [
  | none ↦ failed mds (invalid_rename p.path p.dst_path)
  | some (src_dir, src_name) ↦ elim (split_last (split_path p.dst_path)) [
    | none ↦ failed mds (invalid_rename p.path p.dst_path)
    | some (dst_dir, dst_name) ↦ rename_parts src_dir src_name dst_dir dst_name p now mds
  ]
]
