-- ===== src/Metadata/Replicator/Tasks.antt =====
-- The files that a scan of the tree finds.
use fstorex.Base.{
  ℕ, suc, zero, ◌-◌, ◌<◌, String, ◌≡◌, ◌≢◌, refl, sym, ◌∙◌, subst, false, some, List, [], ◌∷◌, ◌++◌,
  arith, length, ltb, string_eq, nat_eq, contains, filter, ==_refl, Bool-cases, Option-cases, inl,
  inr, All, All-append,
}
use fstorex.Types.{Replica}
use fstorex.Metadata.Paths.{split_path, join_path}
use fstorex.Metadata.Paths.Split.{IsName, split_path-join_path}
use fstorex.Metadata.Tree.{
  Entry, entry, Children, empty, bind, attrs, children, is_dir, find, lookup_parts,
}
use fstorex.Metadata.Tree.Modify.{lookup-append, lookup-step}
use fstorex.Metadata.Tree.Shape.{IsNamed, IsWellFormed, AllWellFormed, children-AllWellFormed}
use fstorex.Metadata.State.{MetadataServer, status_pending, status_recovering}
use fstorex.Metadata.Apply.{lookup}
use fstorex.Metadata.Apply.Trees.{IsTree}
use fstorex.Metadata.Replicator.{
  RepairTask, Queue, queued, alive_replicas, task_of, scan, entries, find_under_replicated_tasks,
}

-- A task of a file of the tree that is neither pending, nor recovering, nor under repair, and that
-- has fewer replicas on registered nodes than are wanted.
pub record IsTask (mds : MetadataServer) (task : RepairTask) : Type 0 where
  pub e : Entry
  pub there : lookup mds task.path ≡ some e
  pub file : is_dir e ≡ false
  pub stored : (attrs e).status ≢ status_pending
  pub settled : (attrs e).status ≢ status_recovering
  pub unmarked : contains mds.repairing (attrs e).file_id ≡ false
  pub same_id : task.file_id ≡ (attrs e).file_id
  pub same_size : task.size ≡ (attrs e).size
  pub alive : task.replicas ≡ filter (λ r. contains mds.data_nodes r.addr) (attrs e).replicas
  pub too_few : length task.replicas < mds.replica_count

-- An item's path leads to its entry.
abbrev pub IsItem : MetadataServer → Entry × String → Type 0
IsItem mds (e, path) = (lookup mds path ≡ some e) × IsWellFormed e

below :
    (mds : MetadataServer) (path name : String) (e c : Entry)
    → lookup mds path ≡ some e
    → IsNamed name c
    → find name (children e) ≡ some c
    → lookup mds (join_path path (attrs c).name) ≡ some c
unfolding lookup
below mds path name (entry a cs) c here named found =
    rw
      (
        split_path-join_path path (attrs c).name (subst IsName (sym named.key_is_name) named.valid),
        lookup-append (split_path path) ((attrs c).name ∷ []) mds.root,
        here,
        named.key_is_name,
      )
      (lookup-step name [] a cs found ∙ (unfold lookup_parts in refl))

pub queued-IsItem :
    (mds : MetadataServer) (path : String) (e : Entry) (cs : Children)
    → lookup mds path ≡ some e
    → ((name : String) (c : Entry) → find name cs ≡ some c → find name (children e) ≡ some c)
    → AllWellFormed cs
    → All (IsItem mds) (queued path cs)
unfolding queued find
queued-IsItem mds path e empty here inside w = tt
queued-IsItem mds path e (bind name c cs) here inside w = (
  (below mds path name e c here w.0 (inside name c (ground (arith, ==_refl name))), w.1),
  queued-IsItem mds path e cs here (λ n d found. inside n d (ground (arith, found, w.2))) w.3,
)

pub alive_replicas-filter :
    (nodes : List String) (rs : List Replica)
    → alive_replicas nodes rs ≡ filter (λ r. contains nodes r.addr) rs
unfolding alive_replicas
alive_replicas-filter nodes [] = refl
alive_replicas-filter nodes (r ∷ rs) = rw (alive_replicas-filter nodes rs) refl

task_of-IsTask :
    (mds : MetadataServer) (path : String) (e : Entry) (task : RepairTask)
    → lookup mds path ≡ some e
    → is_dir e ≡ false
    → task_of mds path (attrs e) ≡ some task
    → IsTask mds task
unfolding task_of
task_of-IsTask mds path e task here file found =
    let listed : task.replicas ≡ alive_replicas mds.data_nodes (attrs e).replicas =
      ground (arith, found) in
    record {
      e = e;
      there = ground (arith, found, here);
      file = file;
      stored = λ same. ground (arith, found, same);
      settled = λ same. ground (arith, found, same);
      unmarked = ground (arith, found);
      same_id = ground (arith, found);
      same_size = ground (arith, found);
      alive = listed ∙ alive_replicas-filter mds.data_nodes (attrs e).replicas;
      too_few = ground (arith, found);
    }

scan-IsTask :
    (mds : MetadataServer) (fuel left : ℕ) (queue : Queue)
    → All (IsItem mds) queue
    → All (IsTask mds) (scan mds fuel left queue)
unfolding scan
scan-IsTask mds zero left queue items = tt
scan-IsTask mds (suc fuel) left [] items = tt
scan-IsTask mds (suc fuel) left ((e, path) ∷ queue) items = elim (Bool-cases (is_dir e)) [
  | inl dir ↦ subst (All (IsTask mds)) (rw (dir, scan) refl) (
      scan-IsTask mds fuel left (queue ++ queued path (children e)) (
        All-append (IsItem mds) queue (queued path (children e)) items.1 (
          queued-IsItem mds path e (children e) items.0.0 (λ n c found. found)
            (children-AllWellFormed e items.0.1))))
  | inr file ↦ elim (Option-cases (task_of mds path (attrs e))) [
    | inl passed ↦
        subst (All (IsTask mds)) (rw (file, passed, scan) refl)
          (scan-IsTask mds fuel left queue items.1)
    | inr (task, found) ↦
        let right = task_of-IsTask mds path e task items.0.0 file found in
        elim (Bool-cases (ltb 1 left)) [
          | inl more ↦
              subst (All (IsTask mds)) {x = task ∷ scan mds fuel (left - 1) queue}
                (rw (file, found, more, scan) refl)
                (right, scan-IsTask mds fuel (left - 1) queue items.1)
          | inr last ↦
              subst (All (IsTask mds)) {x = task ∷ []} (rw (file, found, last, scan) refl)
                (right, tt)
        ]
  ]
]

pub root-IsItem : (mds : MetadataServer) → IsTree mds.root → All (IsItem mds) ((mds.root, "/") ∷ [])
unfolding lookup split_path lookup_parts string_eq nat_eq
root-IsItem mds tree = ((refl, tree.shape), tt)

-- Every task that a scan of a well-formed tree finds is one of a file that its path leads to, with
-- the file's FileID and size: the file is neither pending, nor recovering, nor under repair, and
-- the task's replicas, those of the file on registered nodes, are fewer than are wanted.
pub find_under_replicated_tasks-IsTask :
    (k : ℕ) (mds : MetadataServer)
    → IsTree mds.root
    → All (IsTask mds) (find_under_replicated_tasks k mds)
unfolding find_under_replicated_tasks
find_under_replicated_tasks-IsTask k mds tree =
    scan-IsTask mds (entries mds.root) k ((mds.root, "/") ∷ []) (root-IsItem mds tree)
