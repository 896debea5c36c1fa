-- ===== src/Metadata/Machine.antt =====
-- `Apply`, the entry point of the replicated log (internal/metadata/state_machine.go). Its second
-- argument is what `json.Unmarshal` makes of the entry's bytes.
pub mod Cases
pub mod Errors
pub mod Shape
pub mod Registry
use fstorex.Base.{String, Option, none, some, List, [], ◌∷◌, ◌==◌, string_eq, if◌then◌else◌}
use fstorex.Types.{Time}
use fstorex.Metadata.State.{
  CommandPayload, MetadataServer, Applied, unmarshal_failed, unknown_op, op_heartbeat,
  op_remove_data_node, op_mkdir, op_create_file, op_complete_file, op_delete, op_rename,
  op_update_size, op_update_replicas, op_update_status,
}
use fstorex.Metadata.Apply.{
  failed, apply_heartbeat, apply_remove_data_node, apply_mkdir, apply_create_file,
  apply_complete_file, apply_delete, apply_update_size, apply_update_replicas, apply_update_status,
}
use fstorex.Metadata.Rename.{apply_rename}

-- One entry of the log: its operation, its decoded payload, and the time of its application.
pub record LogEntry : Type 0 where
  pub op : String
  pub payload : Option CommandPayload
  pub now : Time

-- The switch over the operation.
unfoldable pub dispatch : String → CommandPayload → Time → MetadataServer → Applied
dispatch op p now mds =
    if op == op_heartbeat
    then apply_heartbeat p now mds
    else if op == op_remove_data_node
    then apply_remove_data_node p mds
    else if op == op_mkdir
    then apply_mkdir p now mds
    else if op == op_create_file
    then apply_create_file p now mds
    else if op == op_complete_file
    then apply_complete_file p now mds
    else if op == op_delete
    then apply_delete p now mds
    else if op == op_rename
    then apply_rename p now mds
    else if op == op_update_size
    then apply_update_size p now mds
    else if op == op_update_replicas
    then apply_update_replicas p now mds
    else if op == op_update_status
    then apply_update_status p now mds
    else failed mds (unknown_op op)

unfoldable pub apply : LogEntry → MetadataServer → Applied
apply e mds = elim e.payload [
  | none ↦ failed mds unmarshal_failed
  | some p ↦ dispatch e.op p e.now mds
]

-- The state after a log, applied entry by entry; an error stops nothing.
unfoldable pub replay : List LogEntry → MetadataServer → MetadataServer
replay [] mds = mds
replay (e ∷ log) mds = replay log (apply e mds).0
