-- ===== src/Metadata/Machine/Errors.antt =====
-- Commands that fail.
use fstorex.Base.{◌≡◌, ◌≢◌, refl, String, none, List, arith, string_eq}
use fstorex.Types.{Time}
use fstorex.Metadata.State.{CommandPayload, MetadataServer, Applied}
use fstorex.Metadata.Apply.{
  apply_heartbeat, apply_remove_data_node, apply_mkdir, apply_create_file, apply_complete_file,
  apply_delete, apply_update_size, apply_update_replicas, apply_update_status,
}
use fstorex.Metadata.Rename.{apply_rename, rename_parts}
use fstorex.Metadata.Machine.{LogEntry, apply}
use fstorex.Metadata.Machine.Cases.{apply_cases}

-- A command that failed left the state as it was.
abbrev pub IsAtomic : MetadataServer → Applied → Type 0
IsAtomic mds r = r.1 ≢ none → r.0 ≡ mds

module _ (p : CommandPayload) (now : Time) (mds : MetadataServer) where
  mkdir-IsAtomic : IsAtomic mds (apply_mkdir p now mds)
  unfolding apply_mkdir
  mkdir-IsAtomic h = ground arith

  create_file-IsAtomic : IsAtomic mds (apply_create_file p now mds)
  unfolding apply_create_file
  create_file-IsAtomic h = ground arith

  complete_file-IsAtomic : IsAtomic mds (apply_complete_file p now mds)
  unfolding apply_complete_file
  complete_file-IsAtomic h = ground arith

  delete-IsAtomic : IsAtomic mds (apply_delete p now mds)
  unfolding apply_delete
  delete-IsAtomic h = ground arith

  update_size-IsAtomic : IsAtomic mds (apply_update_size p now mds)
  unfolding apply_update_size
  update_size-IsAtomic h = ground arith

  update_replicas-IsAtomic : IsAtomic mds (apply_update_replicas p now mds)
  unfolding apply_update_replicas
  update_replicas-IsAtomic h = ground arith

  update_status-IsAtomic : IsAtomic mds (apply_update_status p now mds)
  unfolding apply_update_status
  update_status-IsAtomic h = ground arith

  rename_parts-IsAtomic :
      (src_dir : List String) (src_name : String) (dst_dir : List String) (dst_name : String)
      → IsAtomic mds (rename_parts src_dir src_name dst_dir dst_name p now mds)
  unfolding rename_parts
  rename_parts-IsAtomic src_dir src_name dst_dir dst_name h = ground arith

  pub rename-IsAtomic : IsAtomic mds (apply_rename p now mds)
  unfolding apply_rename
  rename-IsAtomic h = grind (arith, rename_parts-IsAtomic)

  heartbeat-IsAtomic : IsAtomic mds (apply_heartbeat p now mds)
  unfolding apply_heartbeat
  heartbeat-IsAtomic h = ground arith

remove_data_node-IsAtomic :
    (p : CommandPayload) (mds : MetadataServer) → IsAtomic mds (apply_remove_data_node p mds)
unfolding apply_remove_data_node
remove_data_node-IsAtomic p mds h = ground arith

-- An entry of the log that fails to apply, for whatever reason, leaves the state as it was.
pub apply-IsAtomic : (e : LogEntry) (mds : MetadataServer) → IsAtomic mds (apply e mds)
apply-IsAtomic = apply_cases IsAtomic (record {
  failure = λ mds e h. refl;
  heartbeat = heartbeat-IsAtomic;
  remove_data_node = remove_data_node-IsAtomic;
  mkdir = mkdir-IsAtomic;
  create_file = create_file-IsAtomic;
  complete_file = complete_file-IsAtomic;
  delete = delete-IsAtomic;
  rename = rename-IsAtomic;
  update_size = update_size-IsAtomic;
  update_replicas = update_replicas-IsAtomic;
  update_status = update_status-IsAtomic;
})
