-- ===== src/Metadata/Replicator/Repair.antt =====
-- What the repair of a file leaves on the metadata server.
use fstorex.Base.{
  ◌-◌, ℕ, min, map, filter, contains, subst, true, String, ◌<>◌, ◌≡◌, refl, ap, ◌∙◌, Bool, false,
  none, some, List, [], ◌∷◌, ◌++◌, arith, length, string_eq,
}
use fstorex.Types.{ℤ, Replica, Time}
use fstorex.Metadata.Tree.{Entry, entry, attrs, children, is_dir}
use fstorex.Metadata.State.{MetadataServer, status_recovering, status_complete}
use fstorex.Metadata.Apply.{lookup, replicas_test}
use fstorex.Metadata.Server.Leader.{Applies}
use fstorex.Metadata.Server.{Raft}
use fstorex.Metadata.Machine.Registry.{AreDistinct}
use fstorex.Metadata.Replicator.Targets.{free_nodes, select_target_nodes-fits}
use fstorex.Metadata.Replicator.{
  RepairTask, status_command, replicas_command, rollback_status, select_target_nodes, copied,
  publish, repair_file,
}
use fstorex.Metadata.Replicator.Commands.{set_status, marks, publish-lookup, rolled_back}

-- The targets of a repair: registered nodes without a replica, no two the same, as many as are
-- missing, or all such nodes where there are fewer.
pub record AreTargets (task : RepairTask) (alive : List String) (missing : ℕ)
    (targets : List String) : Type 0 where
  pub free :
      (addr : String)
      → contains targets addr ≡ true
      → (contains alive addr ≡ true) × (contains (map (λ r. r.addr) task.replicas) addr ≡ false)
  pub distinct : AreDistinct targets
  pub enough : length targets ≡ min missing (free_nodes (map (λ r. r.addr) task.replicas) alive)

-- The replicas of a file after a repair: where one is alive and there is a target, those that are
-- alive, and one under the path of the FileID on each target that has answered that it has the
-- copy of the first; and else those from before.
abbrev pub replicas_after :
    (Replica → Replica → ℤ → Bool)
    → RepairTask
    → List Replica
    → List String
    → List Replica
    → List Replica
replicas_after trigger task [] targets old = old
replicas_after trigger task (source ∷ others) [] old = old
replicas_after trigger task (source ∷ others) (t ∷ ts) old =
    task.replicas
    ++ filter (λ target. trigger source target task.size)
        (map (λ addr. record { addr = addr; remote_path = "/data/" <> task.file_id }) (t ∷ ts))

copied-filter :
    (trigger : Replica → Replica → ℤ → Bool) (source : Replica) (task : RepairTask)
    (targets : List String)
    → copied trigger source task targets
      ≡ filter
          (λ target. trigger source target task.size)
          (map (λ addr. record { addr = addr; remote_path = "/data/" <> task.file_id }) targets)
unfolding copied
copied-filter trigger source task [] = refl
copied-filter trigger source task (addr ∷ addrs) = rw (copied-filter trigger source task addrs) refl

-- The file at a path is complete, and but for its status, its replicas and its modification time it
-- is the file from before.
pub record IsRepaired (mds : MetadataServer) (path : String) (e : Entry) (replicas : List Replica)
    : Type 0 where
  pub now : Time
  pub there :
      lookup mds path
      ≡ some (
          entry
            (record (attrs e) { status = status_complete; replicas = replicas; mod_time = now })
            (children e))

module _ (raft : Raft) (now : Time) (applies : Applies raft now)
    (meanwhile : MetadataServer → MetadataServer) (trigger : Replica → Replica → ℤ → Bool)
    (alive : List String) (task : RepairTask) (mds : MetadataServer) (e : Entry)
    (keeps : (m : MetadataServer) → lookup (meanwhile m) task.path ≡ lookup m task.path)
    (here : lookup mds task.path ≡ some e) (file : is_dir e ≡ false) where
  abbrev targets : List String
  targets = select_target_nodes task.replicas alive (mds.replica_count - length task.replicas)

  abbrev marked : MetadataServer
  marked = (raft.propose (status_command task.path status_recovering) mds).0

  some_listed :
      (source : Replica) (others new_replicas : List Replica)
      → task.replicas ≡ source ∷ others
      → replicas_test (replicas_command task.path (task.replicas ++ new_replicas)) (attrs e) ≡ none
  some_listed source others new_replicas some_alive = rw some_alive refl

  by_parts :
      (rs : List Replica) (ts : List String)
      → task.replicas ≡ rs
      → targets ≡ ts
      → IsRepaired
          (repair_file raft meanwhile trigger alive task mds).0
          task.path
          e
          (replicas_after trigger task rs ts (attrs e).replicas)
  unfolding repair_file
  by_parts [] ts dead chosen =
      let accepted = (marks raft now applies task mds e here file).0 in
      let left : (repair_file raft meanwhile trigger alive task mds).0
          ≡ rollback_status raft task.path marked =
        ground (arith, accepted, dead) in
      record {
        now = now;
        there =
            ap (λ m. lookup m task.path) left ∙ rolled_back raft now applies task mds e here file;
      }
  by_parts (source ∷ others) [] some_alive nowhere =
      let accepted = (marks raft now applies task mds e here file).0 in
      let left : (repair_file raft meanwhile trigger alive task mds).0
          ≡ rollback_status raft task.path marked =
        ground (arith, accepted, some_alive, nowhere) in
      record {
        now = now;
        there =
            ap (λ m. lookup m task.path) left ∙ rolled_back raft now applies task mds e here file;
      }
  by_parts (source ∷ others) (t ∷ ts) some_alive chosen =
      let (accepted, there) = marks raft now applies task mds e here file in
      let new_replicas : List Replica = copied trigger source task (t ∷ ts) in
      let left : (repair_file raft meanwhile trigger alive task mds).0
          ≡ (publish raft task new_replicas (meanwhile marked)).0 =
        ground (arith, accepted, some_alive, chosen) in
      subst
        (λ copies.
          IsRepaired (repair_file raft meanwhile trigger alive task mds).0 task.path e
            (task.replicas ++ copies))
        (copied-filter trigger source task (t ∷ ts))
        (record {
          now = now;
          there =
              ap (λ m. lookup m task.path) left
              ∙ publish-lookup raft now applies task (meanwhile marked)
                  (set_status now status_recovering e) new_replicas (keeps marked ∙ there) file
                  (some_listed source others new_replicas some_alive);
        })

  -- A repair never leaves a file recovering: whatever the copies come to, the file is complete
  -- again at the end, and nothing else of it changes but its replicas and its modification time.
  -- Where a replica is alive and there are targets, its replicas are those that are alive and then,
  -- under the path of the FileID, one on each target that has answered that it has the copy; else
  -- they are those from before. The targets are registered nodes without a replica, no two the
  -- same, as many as are missing, or all such nodes where there are fewer. No registered node is
  -- twice, the Raft node applies each command, and the log leaves the file at the path as it is
  -- while the targets copy.
  pub repair_file-IsRepaired :
      AreDistinct alive
      → (targets : List String) × AreTargets task alive
          (mds.replica_count - length task.replicas)
          targets
        × IsRepaired
            (repair_file raft meanwhile trigger alive task mds).0
            task.path
            e
            (replicas_after trigger task task.replicas targets (attrs e).replicas)
  repair_file-IsRepaired distinct =
      let (free, apart, enough) =
        select_target_nodes-fits task.replicas alive (mds.replica_count - length task.replicas)
          distinct in
      (
        targets,
        record { free = free; distinct = apart; enough = enough },
        by_parts task.replicas targets refl refl,
      )
