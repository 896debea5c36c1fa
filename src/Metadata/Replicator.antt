-- ===== src/Metadata/Replicator.antt =====
-- The repair of files with too few replicas (internal/metadata/replicator.go). The Raft node, the
-- remote call of a target, and what the log does to the state while the targets copy are arguments.
-- A set of nodes is the list in the order in which the loops meet them.
pub mod Tasks
pub mod Coverage
pub mod Targets
pub mod Commands
pub mod Repair
pub mod Astray
mod Tests
use fstorex.Base.{
  ℕ, zero, suc, ◌+◌, ◌-◌, String, ◌<>◌, Bool, true, false, not, Option, none, some, List, [], ◌∷◌,
  ◌++◌, length, map, ltb, ◌==◌, nat_eq, string_eq, if◌then◌else◌, contains,
}
use fstorex.Types.{ℤ, Replica}
use fstorex.Metadata.Paths.{join_path}
use fstorex.Metadata.Tree.{Attrs, Entry, entry, Children, empty, bind, attrs, children, is_dir}
use fstorex.Metadata.State.{
  CommandPayload, no_payload, MetadataServer, status_pending, status_recovering, status_complete,
  op_update_status, op_update_replicas,
}
use fstorex.Metadata.Server.{Raft}

-- `replicateBatchSize`
abbrev pub replicate_batch_size : ℕ
replicate_batch_size = 16

-- `repairTask`
pub record RepairTask : Type 0 where
  pub path : String
  pub file_id : String
  pub size : ℤ
  pub replicas : List Replica

abbrev pub Queue : Type 0
Queue = List (Entry × String)

-- The items that a directory appends to the queue.
unfoldable pub queued : String → Children → Queue
queued path empty = []
queued path (bind name child cs) = (child, join_path path (attrs child).name) ∷ queued path cs

-- The replicas on registered nodes.
unfoldable pub alive_replicas : List String → List Replica → List Replica
alive_replicas nodes [] = []
alive_replicas nodes (r ∷ rs) =
    let rest = alive_replicas nodes rs in if contains nodes r.addr then r ∷ rest else rest

-- The task that a file makes, if any.
unfoldable pub task_of : MetadataServer → String → Attrs → Option RepairTask
unfolding alive_replicas
task_of mds path a =
    if a.status == status_pending
    then none
    else if a.status == status_recovering
    then none
    else if contains mds.repairing a.file_id
    then none
    else let alive = alive_replicas mds.data_nodes a.replicas in
      if ltb (length alive) mds.replica_count
      then some (record { path = path; file_id = a.file_id; size = a.size; replicas = alive })
      else none

-- The loop over the queue, on fuel, one for each item; `left` tasks are still to be found.
unfoldable pub scan : MetadataServer → ℕ → ℕ → Queue → List RepairTask
scan mds zero left queue = []
scan mds (suc fuel) left [] = []
scan mds (suc fuel) left ((e, path) ∷ queue) = elim (is_dir e) [
  | true ↦ scan mds fuel left (queue ++ queued path (children e))
  | false ↦ elim (task_of mds path (attrs e)) [
    | none ↦ scan mds fuel left queue
    | some task ↦ elim (ltb 1 left) [
      | true ↦ task ∷ scan mds fuel (left - 1) queue
      | false ↦ task ∷ []
    ]
  ]
]

-- How many entries a tree has.
unfoldable mutual
  pub entries : Entry → ℕ
  entries (entry a cs) = suc (entries_below cs)

  pub entries_below : Children → ℕ
  entries_below empty = 0
  entries_below (bind name child cs) = entries child + entries_below cs

-- `findUnderReplicatedTasks`; the nodes that are alive are the registered ones.
unfoldable pub find_under_replicated_tasks : ℕ → MetadataServer → List RepairTask
unfolding scan queued task_of entries entries_below
find_under_replicated_tasks k mds = scan mds (entries mds.root) k ((mds.root, "/") ∷ [])

-- The loop of `selectTargetNodes` over the nodes that are left, with the places that are left.
unfoldable pub candidates : List String → ℕ → List String → List String
candidates taken left [] = []
candidates taken left (addr ∷ nodes) = elim (contains taken addr) [
  | true ↦ candidates taken left nodes
  | false ↦ elim (ltb 1 left) [
    | true ↦ addr ∷ candidates taken (left - 1) nodes
    | false ↦ addr ∷ []
  ]
]

-- The nodes of replicas.
abbrev pub addrs_of : List Replica → List String
addrs_of rs = map (λ r. r.addr) rs

-- `selectTargetNodes`
unfoldable pub select_target_nodes : List Replica → List String → ℕ → List String
unfolding candidates
select_target_nodes replicas alive count =
    if count == 0 then [] else candidates (addrs_of replicas) count alive

abbrev pub status_command : String → String → CommandPayload
status_command path status = record no_payload {
  op = op_update_status;
  path = path;
  new_status = status;
}

abbrev pub replicas_command : String → List Replica → CommandPayload
replicas_command path replicas = record no_payload {
  op = op_update_replicas;
  path = path;
  new_replicas = replicas;
}

-- `rollbackStatus`; its error is only logged.
abbrev pub rollback_status : Raft → String → MetadataServer → MetadataServer
rollback_status raft path mds = (raft.propose (status_command path status_complete) mds).0

-- The replicas that the targets have made. `trigger` is `triggerReplicate`: whether the target
-- has answered that it has the copy.
unfoldable pub copied :
    (Replica → Replica → ℤ → Bool) → Replica → RepairTask → List String → List Replica
copied trigger source task [] = []
copied trigger source task (addr ∷ addrs) =
    let target : Replica = record { addr = addr; remote_path = "/data/" <> task.file_id } in
    let rest = copied trigger source task addrs in
    if trigger source target task.size then target ∷ rest else rest

-- The end of `repairFile`, behind the copies.
unfoldable pub publish :
    Raft → RepairTask → List Replica → MetadataServer → MetadataServer × Option String
publish raft task new_replicas mds =
    let (listed, problem) =
      raft.propose (replicas_command task.path (task.replicas ++ new_replicas)) mds in
    elim problem [
      | some text ↦ (listed, some ("update replicas: raft do failed: " <> text))
      | none ↦
          let (back, problem') = raft.propose (status_command task.path status_complete) listed in
          elim problem' [
            | some text ↦ (back, some ("switch back to complete: raft do failed: " <> text))
            | none ↦ (
              back,
              elim new_replicas [ [] ↦ some "all target replicas failed to copy" | r ∷ rs ↦ none ],
            )
          ]
    ]

-- `repairFile`, with its error.
unfoldable pub repair_file :
    Raft
    → (MetadataServer → MetadataServer)
    → (Replica → Replica → ℤ → Bool)
    → List String
    → RepairTask
    → MetadataServer
    → MetadataServer × Option String
repair_file raft meanwhile trigger alive task mds =
    let (marked, problem) = raft.propose (status_command task.path status_recovering) mds in
    elim problem [
      | some text ↦ (marked, some ("switch to recovering: raft do failed: " <> text))
      | none ↦ elim task.replicas [
        | [] ↦ (
          rollback_status raft task.path marked,
          some ("all replicas dead for file " <> task.file_id),
        )
        | source ∷ others ↦
            let targets =
              select_target_nodes task.replicas alive (mds.replica_count - length task.replicas) in
            elim targets [
              | [] ↦ (rollback_status raft task.path marked, some "no available target data node")
              | t ∷ ts ↦ publish raft task (copied trigger source task (t ∷ ts)) (meanwhile marked)
            ]
      ]
    ]

-- The loop of `runReplication` over the tasks of a batch; the marks of `repairing` are those of
-- the files under repair.
unfoldable pub repair_all :
    Raft
    → (MetadataServer → MetadataServer)
    → (Replica → Replica → ℤ → Bool)
    → List String
    → List RepairTask
    → MetadataServer
    → MetadataServer
repair_all raft meanwhile trigger alive [] mds = mds
repair_all raft meanwhile trigger alive (task ∷ tasks) mds =
    elim (contains mds.repairing task.file_id) [
      | true ↦ repair_all raft meanwhile trigger alive tasks mds
      | false ↦
          let after =
            (repair_file raft meanwhile trigger alive task
              (record mds { repairing = task.file_id ∷ mds.repairing })).0 in
          repair_all raft meanwhile trigger alive tasks (record after { repairing = mds.repairing })
    ]

-- `runReplication`, with the turns that start before its deadline.
unfoldable pub run_replication :
    Raft
    → (MetadataServer → MetadataServer)
    → (Replica → Replica → ℤ → Bool)
    → ℕ
    → MetadataServer
    → MetadataServer
run_replication raft meanwhile trigger zero mds = mds
run_replication raft meanwhile trigger (suc turns) mds =
    elim (find_under_replicated_tasks replicate_batch_size mds) [
      | [] ↦ mds
      | task ∷ tasks ↦
          run_replication raft meanwhile trigger turns
            (repair_all raft meanwhile trigger mds.data_nodes (task ∷ tasks) mds)
    ]

-- A tick of the timer of `startReplicator`.
unfoldable pub replicator_tick :
    Raft
    → (MetadataServer → MetadataServer)
    → (Replica → Replica → ℤ → Bool)
    → ℕ
    → MetadataServer
    → MetadataServer
replicator_tick raft meanwhile trigger turns mds =
    if raft.is_leader then run_replication raft meanwhile trigger turns mds else mds
