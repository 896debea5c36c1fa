-- ===== src/Metadata/Apply.antt =====
-- The commands of the state machine (internal/metadata/apply.go) and their dispatch
-- (internal/metadata/state_machine.go). `now` is what `time.Now` returns to the command.
pub mod Parts
pub mod Writes
pub mod Trees
pub mod Named
pub mod Outcomes
pub mod Untouched
use fstorex.Base.{
  String, Bool, true, false, not, ◌&&◌, Option, none, some, List, [], ◌∷◌, ◌++◌, ◌==◌, string_eq,
  if◌then◌else◌, contains,
}
use fstorex.Base.Dict
use fstorex.Types.{pos, Time, CreateMode, create_if_not_exist, overwrite_if_exists, other_mode}
use fstorex.Metadata.Paths.{split_path}
use fstorex.Metadata.Tree.{
  Attrs, Entry, entry, empty, attrs, children, is_dir, find, put, remove, lookup_parts, walk_dirs,
  modify,
}
use fstorex.Metadata.State.{
  CommandPayload, MetadataServer, Error, Applied, unmarshal_failed, unknown_op, invalid_path,
  invalid_rename, parent_not_found, destination_parent_not_found, source_not_found, path_not_found,
  not_a_directory, is_a_directory, already_exists, delete_root, into_own_subtree,
  destination_is_directory, is_recovering, no_new_replicas, invalid_status, status_pending,
  status_complete, status_recovering, mode_dir, mode_file, op_heartbeat, op_remove_data_node,
  op_mkdir, op_create_file, op_complete_file, op_delete, op_rename, op_update_size,
  op_update_replicas, op_update_status,
}

-- `parts[:len(parts)-1]` and `parts[len(parts)-1]`, `none` where `len(parts) == 0`.
unfoldable pub split_last : List String → Option (List String × String)
split_last [] = none
split_last (p ∷ []) = some ([], p)
split_last (p ∷ q ∷ ps) = elim (split_last (q ∷ ps)) [
  | none ↦ none
  | some (dir, last) ↦ some (p ∷ dir, last)
]

-- `lookup`
unfoldable pub lookup : MetadataServer → String → Option Entry
lookup mds path = lookup_parts (split_path path) mds.root

abbrev pub failed : MetadataServer → Error → Applied
failed mds e = (mds, some e)

abbrev pub done : MetadataServer → Applied
done mds = (mds, none)

-- `e.modTime = now`
abbrev pub touch : Time → Entry → Entry
touch now e = entry (record (attrs e) { mod_time = now }) (children e)

-- `current.children[name] = e`
abbrev pub attach : String → Entry → Entry → Entry
attach name e dir = entry (attrs dir) (put name e (children dir))

-- `delete(current.children, name)`
abbrev pub detach : String → Entry → Entry
detach name dir = entry (attrs dir) (remove name (children dir))

unfoldable pub apply_heartbeat : CommandPayload → Time → MetadataServer → Applied
apply_heartbeat p now mds = done (record mds {
  data_nodes =
      if contains mds.data_nodes p.addr then mds.data_nodes else mds.data_nodes ++ p.addr ∷ [];
  last_heartbeat = Dict.insert p.addr now mds.last_heartbeat;
})

-- The loop that cuts the first equal address out of the slice.
unfoldable pub remove_first : String → List String → List String
remove_first addr [] = []
remove_first addr (a ∷ rest) = if a == addr then rest else a ∷ remove_first addr rest

unfoldable pub apply_remove_data_node : CommandPayload → MetadataServer → Applied
unfolding remove_first
apply_remove_data_node p mds = done (record mds {
  data_nodes = remove_first p.addr mds.data_nodes;
  last_heartbeat = Dict.erase p.addr mds.last_heartbeat;
})

-- The `&entry{…}` of `applyMkdir`.
abbrev pub new_dir : String → String → Time → Entry
new_dir name file_id now =
    entry
      (record {
        name = name;
        is_dir = true;
        size = pos 0;
        mode = mode_dir;
        created_at = now;
        mod_time = now;
        status = "";
        file_id = file_id;
        replicas = [];
      })
      empty

unfoldable pub apply_mkdir : CommandPayload → Time → MetadataServer → Applied
apply_mkdir p now mds = elim (split_last (split_path p.path)) [
  | none ↦ failed mds (invalid_path p.path)
  | some (dir_parts, last_part) ↦ elim (walk_dirs dir_parts mds.root) [
    | none ↦ failed mds (parent_not_found p.path)
    | some current ↦ elim (find last_part (children current)) [
      | some child ↦ if is_dir child then done mds else failed mds (not_a_directory p.path)
      | none ↦ done (record mds {
        root =
            modify dir_parts (λ d. touch now (attach last_part (new_dir last_part p.file_id now) d))
              mds.root;
      })
    ]
  ]
]

-- The `&entry{…}` of `applyCreateFile`.
abbrev pub new_file : String → CommandPayload → Time → String → Time → Entry
new_file name p created_at file_id now =
    entry
      (record {
        name = name;
        is_dir = false;
        size = p.size;
        mode = mode_file;
        created_at = created_at;
        mod_time = now;
        status = status_pending;
        file_id = file_id;
        replicas = p.replicas;
      })
      empty

abbrev pub overwrites : CreateMode → Bool
overwrites create_if_not_exist = false
overwrites overwrite_if_exists = true
overwrites (other_mode n) = false

unfoldable pub apply_create_file : CommandPayload → Time → MetadataServer → Applied
apply_create_file p now mds = elim (split_last (split_path p.path)) [
  | none ↦ failed mds (invalid_path p.path)
  | some (dir_parts, file_name) ↦ elim (walk_dirs dir_parts mds.root) [
    | none ↦ failed mds (parent_not_found p.path)
    | some current ↦
        let store = λ (file : Entry). done (record mds {
          root = modify dir_parts (λ d. touch now (attach file_name file d)) mds.root;
        }) in
        elim (find file_name (children current)) [
          | none ↦ store (new_file file_name p now p.file_id now)
          | some existing ↦
              if is_dir existing
              then failed mds (is_a_directory p.path)
              else if not (overwrites p.create_mode)
              then failed mds (already_exists p.path)
              else store
                  (new_file file_name p (attrs existing).created_at (attrs existing).file_id now)
        ]
  ]
]

-- The shape of the commands that write the fields of a file: `e == nil`, `e.isDir`, the command's
-- own test, then the write.
abbrev pub on_file : MetadataServer → String → (Attrs → Option Error) → (Attrs → Attrs) → Applied
on_file mds path test write = elim (lookup mds path) [
  | none ↦ failed mds (path_not_found path)
  | some e ↦ if is_dir e then failed mds (is_a_directory path) else elim (test (attrs e)) [
    | some problem ↦ failed mds problem
    | none ↦ done (record mds {
      root = modify (split_path path) (λ x. entry (write (attrs x)) (children x)) mds.root;
    })
  ]
]

abbrev pub no_test : Attrs → Option Error
no_test a = none

abbrev pub complete_write : Time → Attrs → Attrs
complete_write now a = record a { status = status_complete; mod_time = now }

unfoldable pub apply_complete_file : CommandPayload → Time → MetadataServer → Applied
unfolding lookup
apply_complete_file p now mds = on_file mds p.path no_test (complete_write now)

unfoldable pub apply_delete : CommandPayload → Time → MetadataServer → Applied
apply_delete p now mds = elim (split_last (split_path p.path)) [
  | none ↦ failed mds delete_root
  | some (dir_parts, file_name) ↦ elim (walk_dirs dir_parts mds.root) [
    | none ↦ failed mds (path_not_found p.path)
    | some current ↦ elim (find file_name (children current)) [
      | none ↦ failed mds (path_not_found p.path)
      | some _ ↦
          done
            (record mds { root = modify dir_parts (λ d. touch now (detach file_name d)) mds.root })
    ]
  ]
]

abbrev pub size_test : CommandPayload → Attrs → Option Error
size_test p a = if a.status == status_recovering then some (is_recovering p.path) else none

abbrev pub size_write : CommandPayload → Time → Attrs → Attrs
size_write p now a = record a { size = p.new_size; mod_time = now }

unfoldable pub apply_update_size : CommandPayload → Time → MetadataServer → Applied
unfolding lookup
apply_update_size p now mds = on_file mds p.path (size_test p) (size_write p now)

abbrev pub replicas_test : CommandPayload → Attrs → Option Error
replicas_test p a = elim p.new_replicas [ [] ↦ some (no_new_replicas p.path) | _ ↦ none ]

abbrev pub replicas_write : CommandPayload → Time → Attrs → Attrs
replicas_write p now a = record a { replicas = p.new_replicas; mod_time = now }

unfoldable pub apply_update_replicas : CommandPayload → Time → MetadataServer → Applied
unfolding lookup
apply_update_replicas p now mds = on_file mds p.path (replicas_test p) (replicas_write p now)

abbrev pub status_test : CommandPayload → Attrs → Option Error
status_test p a =
    if not (p.new_status == status_complete)
      && not (p.new_status == status_recovering)
      && not (p.new_status == status_pending)
    then some (invalid_status p.new_status)
    else none

abbrev pub status_write : CommandPayload → Time → Attrs → Attrs
status_write p now a = record a { status = p.new_status; mod_time = now }

unfoldable pub apply_update_status : CommandPayload → Time → MetadataServer → Applied
unfolding lookup
apply_update_status p now mds = on_file mds p.path (status_test p) (status_write p now)
