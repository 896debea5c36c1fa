-- ===== src/Metadata/State.antt =====
-- The state of the metadata server and the commands of its log (internal/metadata/mds.go). The
-- locks, the logger and the Raft node are no part of it.
use fstorex.Base.{ℕ, String, Bool, true, false, Option, List, []}
use fstorex.Base.Dict.{Dict}
use fstorex.Types.{ℤ, pos, Time, Replica, CreateMode, create_if_not_exist}
use fstorex.Metadata.Tree.{Attrs, Entry, entry, empty}

abbrev pub status_pending : String
status_pending = "pending"

abbrev pub status_complete : String
status_complete = "complete"

abbrev pub status_recovering : String
status_recovering = "recovering"

abbrev pub op_heartbeat : String
op_heartbeat = "heartbeat"

abbrev pub op_remove_data_node : String
op_remove_data_node = "remove_dn"

abbrev pub op_mkdir : String
op_mkdir = "mkdir"

abbrev pub op_create_file : String
op_create_file = "create_file"

abbrev pub op_complete_file : String
op_complete_file = "complete_file"

abbrev pub op_delete : String
op_delete = "delete"

abbrev pub op_rename : String
op_rename = "rename"

abbrev pub op_update_size : String
op_update_size = "update_size"

abbrev pub op_update_replicas : String
op_update_replicas = "update_replicas"

abbrev pub op_update_status : String
op_update_status = "update_status"

-- `commandPayload`
pub record CommandPayload : Type 0 where
  pub op : String
  pub path : String
  pub addr : String
  pub size : ℤ
  pub replicas : List Replica
  pub is_dir : Bool
  pub create_mode : CreateMode
  pub file_id : String
  pub dst_path : String
  pub new_size : ℤ
  pub new_replicas : List Replica
  pub new_status : String

-- The payload with every field at its zero value.
abbrev pub no_payload : CommandPayload
no_payload = record {
  op = "";
  path = "";
  addr = "";
  size = pos 0;
  replicas = [];
  is_dir = false;
  create_mode = create_if_not_exist;
  file_id = "";
  dst_path = "";
  new_size = pos 0;
  new_replicas = [];
  new_status = "";
}

-- `MetadataServer`
pub record MetadataServer : Type 0 where
  pub root : Entry
  pub data_nodes : List String
  pub last_heartbeat : Dict String Time
  pub replica_count : ℕ
  pub repairing : List String
  pub heartbeat_timeout : Time

-- 0755 and 0644
abbrev pub mode_dir : ℕ
mode_dir = 0o755

abbrev pub mode_file : ℕ
mode_file = 0o644

abbrev pub root_attrs : Time → Time → Attrs
root_attrs created modified = record {
  name = "/";
  is_dir = true;
  size = pos 0;
  mode = mode_dir;
  created_at = created;
  mod_time = modified;
  status = "";
  file_id = "";
  replicas = [];
}

-- The state that `NewMetadataServer` starts from; the two times are its two calls of `time.Now`,
-- and ten minutes the default heartbeat timeout.
abbrev pub new_metadata_server : Time → Time → MetadataServer
new_metadata_server created modified = record {
  root = entry (root_attrs created modified) empty;
  data_nodes = [];
  last_heartbeat = [];
  replica_count = 3;
  repairing = [];
  heartbeat_timeout = 600_000_000_000;
}

-- The errors of the server, one constructor for each message.
pub data Error : Type 0 where
  unmarshal_failed : Error
  unknown_op : String → Error
  invalid_path : String → Error
  invalid_rename : String → String → Error
  parent_not_found : String → Error
  destination_parent_not_found : String → Error
  source_not_found : String → Error
  path_not_found : String → Error
  not_a_directory : String → Error
  is_a_directory : String → Error
  already_exists : String → Error
  delete_root : Error
  into_own_subtree : String → String → Error
  destination_is_directory : String → Error
  is_recovering : String → Error
  no_new_replicas : String → Error
  invalid_status : String → Error

-- What a command leaves, and its error if it has one.
abbrev pub Applied : Type 0
Applied = MetadataServer × Option Error
