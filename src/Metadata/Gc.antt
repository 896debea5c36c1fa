-- ===== src/Metadata/Gc.antt =====
-- The garbage collector of the leader (internal/metadata/gc.go). A data node is its state
-- together with its handlers; nothing else changes it between the calls of one collection.
pub mod Safety
pub mod Cycle
pub mod Health
pub mod Membership
pub mod Orphans
pub mod Removal
pub mod Overwrites
pub mod Loss
mod Samples
mod Tests
use fstorex.Base.{
  ℕ, ◌+◌, String, Bool, true, false, not, ◌&&◌, ◌||◌, Option, none, some, List, [], ◌∷◌, ◌++◌, ltb,
  map, ◌==◌, string_eq, if◌then◌else◌, contains,
}
use fstorex.Base.Text
use fstorex.Base.Dict
use fstorex.Base.Dict.{Dict}
use fstorex.Types.{Time, NodeFile}
use fstorex.Metadata.Tree.{Attrs, Entry, entry, Children, empty, bind}
use fstorex.Metadata.Server.{Raft, Handled, answer, as_leader}
use fstorex.Metadata.State.{CommandPayload, no_payload, MetadataServer, op_remove_data_node}
use fstorex.DataNode.Disk.{DataNode, Faults, Reply, ok, err, panicked}
use fstorex.DataNode.Service.{list_all_paths, delete_data}

-- `collectFileIDsRecursive`: the keys of its map.
unfoldable mutual
  pub collect_file_ids : Entry → List String
  collect_file_ids (entry a cs) =
      let inner = collect_children cs in
      if a.is_dir then inner else if not (a.file_id == "") then a.file_id ∷ [] else []

  pub collect_children : Children → List String
  collect_children empty = []
  collect_children (bind name e cs) = collect_file_ids e ++ collect_children cs

-- `gcSafetyWindow`
abbrev pub gc_safety_window : Time
gc_safety_window = 30_000_000_000

-- Whether a file that a node lists stays: its FileID is in use, or it is too new.
unfoldable pub keeps : List String → Time → NodeFile → Bool
keeps valid gc_start nf =
    let file_id = Text.trim_prefix nf.path "/data/" in
    (not (file_id == "") && contains valid file_id) || ltb gc_start (nf.mod_time + gc_safety_window)

-- The loop over a node's files; `rpc` says which remote deletions fail before they reach the
-- node, and what fails there.
unfoldable pub gc_files :
    List String → Time → (String → Option Faults) → List NodeFile → DataNode → DataNode
gc_files valid gc_start rpc [] dn = dn
gc_files valid gc_start rpc (nf ∷ files) dn = elim (keeps valid gc_start nf) [
  | true ↦ gc_files valid gc_start rpc files dn
  | false ↦ elim (rpc nf.path) [
    | none ↦ gc_files valid gc_start rpc files dn
    | some f ↦ gc_files valid gc_start rpc files (delete_data f nf.path dn).0
  ]
]

-- `garbageCollectNode`; the list is not there when the connection or the call fails.
unfoldable pub garbage_collect_node :
    List String → Time → Option Faults → (String → Option Faults) → DataNode → DataNode
unfolding gc_files
garbage_collect_node valid gc_start none rpc dn = dn
garbage_collect_node valid gc_start (some f) rpc dn = elim (list_all_paths f dn) [
  | ok files ↦ gc_files valid gc_start rpc files dn
  | err e ↦ dn
  | panicked ↦ dn
]

-- The nodes whose last heartbeat is before the cutoff.
unfoldable pub dead_nodes : Time → Time → Dict String Time → List String
dead_nodes timeout now [] = []
dead_nodes timeout now ((addr, last) ∷ heard) =
    let rest = dead_nodes timeout now heard in
    if ltb (last + timeout) now then addr ∷ rest else rest

-- The loop of `checkDataNodeHealth` over the dead nodes; an error of a command is only logged.
unfoldable pub remove_nodes : Raft → List String → MetadataServer → MetadataServer
remove_nodes raft [] mds = mds
remove_nodes raft (addr ∷ addrs) mds =
    remove_nodes raft addrs
      (raft.propose (record no_payload { op = op_remove_data_node; addr = addr }) mds).0

-- `checkDataNodeHealth`, at the time that it reads.
unfoldable pub check_data_node_health : Raft → Time → MetadataServer → MetadataServer
check_data_node_health raft now mds =
    remove_nodes raft (dead_nodes mds.heartbeat_timeout now mds.last_heartbeat) mds

-- What one cycle meets: its two times, what the log does to the state between its phases, and how
-- its remote calls come out, by address and path, `none` where one fails before it reaches a node.
pub record Course : Type 0 where
  pub gc_start : Time
  pub checked_at : Time
  pub before_ids : MetadataServer → MetadataServer
  pub before_nodes : MetadataServer → MetadataServer
  pub listed : String → Option Faults
  pub deleted : String → String → Option Faults

-- The collection of a cycle at a node.
abbrev pub visit : List String → Course → String → DataNode → DataNode
visit valid course addr =
    garbage_collect_node valid course.gc_start (course.listed addr) (course.deleted addr)

-- The loop of `runGC` over the registered nodes. A node stands in the state in which the collection
-- meets it.
unfoldable pub sweep :
    List String → Course → List String → Dict String DataNode → Dict String DataNode
sweep valid course [] nodes = nodes
sweep valid course (addr ∷ addrs) nodes = elim (Dict.lookup addr nodes) [
  | none ↦ sweep valid course addrs nodes
  | some dn ↦ sweep valid course addrs (Dict.insert addr (visit valid course addr dn) nodes)
]

-- The state from which a cycle collects the FileIDs, behind its health check.
unfoldable pub at_ids : Raft → Course → MetadataServer → MetadataServer
at_ids raft course mds = course.before_ids (check_data_node_health raft course.checked_at mds)

-- `runGC`
unfoldable pub run_gc :
    Raft → Course → MetadataServer → Dict String DataNode → MetadataServer × Dict String DataNode
unfolding at_ids
run_gc raft course mds nodes =
    let found = at_ids raft course mds in
    let after = course.before_nodes found in
    (after, sweep (collect_file_ids found.root) course after.data_nodes nodes)

-- A tick of the timer of `startGC`.
unfoldable pub gc_tick :
    Raft → Course → MetadataServer → Dict String DataNode → MetadataServer × Dict String DataNode
gc_tick raft course mds nodes =
    if raft.is_leader then run_gc raft course mds nodes else (mds, nodes)

-- `TriggerGC`; the cycle runs behind its answer.
unfoldable pub trigger_gc : Raft → MetadataServer → Handled Bool
trigger_gc raft mds = as_leader raft mds (mds, answer true)
