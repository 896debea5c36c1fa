-- ===== src/Metadata/Machine/Cases.antt =====
-- What holds of each command, and of a failure, holds of `Apply`.
use fstorex.Base.{String, inl, inr, ◌==◌, string_eq, if_both, Option-cases}
use fstorex.Types.{Time}
use fstorex.Metadata.State.{
  CommandPayload, MetadataServer, Applied, Error, op_heartbeat, op_remove_data_node, op_mkdir,
  op_create_file, op_complete_file, op_delete, op_rename, op_update_size, op_update_replicas,
  op_update_status,
}
use fstorex.Metadata.Apply.{
  failed, apply_heartbeat, apply_remove_data_node, apply_mkdir, apply_create_file,
  apply_complete_file, apply_delete, apply_update_size, apply_update_replicas, apply_update_status,
}
use fstorex.Metadata.Rename.{apply_rename}
use fstorex.Metadata.Machine.{LogEntry, dispatch, apply}

-- A relation between a state and the outcome of a command on it, shown command by command.
pub record OfCommands (P : MetadataServer → Applied → Type 0) : Type 0 where
  pub failure : (mds : MetadataServer) (e : Error) → P mds (failed mds e)
  pub heartbeat :
      (p : CommandPayload) (now : Time) (mds : MetadataServer) → P mds (apply_heartbeat p now mds)
  pub remove_data_node :
      (p : CommandPayload) (mds : MetadataServer) → P mds (apply_remove_data_node p mds)
  pub mkdir :
      (p : CommandPayload) (now : Time) (mds : MetadataServer) → P mds (apply_mkdir p now mds)
  pub create_file :
      (p : CommandPayload) (now : Time) (mds : MetadataServer) → P mds (apply_create_file p now mds)
  pub complete_file :
      (p : CommandPayload) (now : Time) (mds : MetadataServer)
      → P mds (apply_complete_file p now mds)
  pub delete :
      (p : CommandPayload) (now : Time) (mds : MetadataServer) → P mds (apply_delete p now mds)
  pub rename :
      (p : CommandPayload) (now : Time) (mds : MetadataServer) → P mds (apply_rename p now mds)
  pub update_size :
      (p : CommandPayload) (now : Time) (mds : MetadataServer) → P mds (apply_update_size p now mds)
  pub update_replicas :
      (p : CommandPayload) (now : Time) (mds : MetadataServer)
      → P mds (apply_update_replicas p now mds)
  pub update_status :
      (p : CommandPayload) (now : Time) (mds : MetadataServer)
      → P mds (apply_update_status p now mds)

module _ (P : MetadataServer → Applied → Type 0) (each : OfCommands P) where
  dispatch_cases :
      (op : String) (p : CommandPayload) (now : Time) (mds : MetadataServer)
      → P mds (dispatch op p now mds)
  unfolding dispatch
  dispatch_cases op p now mds =
      if_both Q (op == op_heartbeat) (λ _. each.heartbeat p now mds)
        λ _.
          if_both Q (op == op_remove_data_node) (λ _. each.remove_data_node p mds)
            λ _.
              if_both Q (op == op_mkdir) (λ _. each.mkdir p now mds)
                λ _.
                  if_both Q (op == op_create_file) (λ _. each.create_file p now mds)
                    λ _.
                      if_both Q (op == op_complete_file) (λ _. each.complete_file p now mds)
                        λ _.
                          if_both Q (op == op_delete) (λ _. each.delete p now mds)
                            λ _.
                              if_both Q (op == op_rename) (λ _. each.rename p now mds)
                                λ _.
                                  if_both Q (op == op_update_size) (λ _. each.update_size p now mds)
                                    λ _.
                                      if_both Q (op == op_update_replicas)
                                        (λ _. each.update_replicas p now mds)
                                        λ _.
                                          if_both Q (op == op_update_status)
                                            (λ _. each.update_status p now mds)
                                            λ _. each.failure mds _
    where
      Q : Applied → Type 0
      Q = P mds

  pub apply_cases : (e : LogEntry) (mds : MetadataServer) → P mds (apply e mds)
  apply_cases e mds = elim (Option-cases e.payload) [
    | inl gone ↦ unfold apply in rw gone (each.failure mds _)
    | inr (p, here) ↦ unfold apply in rw here (dispatch_cases e.op p e.now mds)
  ]
