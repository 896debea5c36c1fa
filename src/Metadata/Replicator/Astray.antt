-- ===== src/Metadata/Replicator/Astray.antt =====
-- A repair whose file is moved away in the meantime.
use fstorex.Base.{
  ℕ, ◌-◌, ◌≢◌, sym, subst, refl, All, [], String, ◌<>◌, ◌≡◌, ap, ◌∙◌, Bool, false, Option, none,
  some, List, ◌∷◌, ◌++◌, arith, length, string_eq,
}
use fstorex.Types.{ℤ, Replica, Time}
use fstorex.Metadata.Tree.{Attrs, Entry, entry, attrs, children, is_dir}
use fstorex.Metadata.State.{
  CommandPayload, MetadataServer, Error, path_not_found, status_recovering, op_update_replicas,
}
use fstorex.Metadata.Apply.{
  split_last, lookup, failed, on_file, apply_update_replicas, replicas_test, replicas_write,
}
use fstorex.Metadata.Machine.{apply, dispatch}
use fstorex.Metadata.Server.Leader.{Applies}
use fstorex.Metadata.Server.{Raft}
use fstorex.Metadata.Replicator.{
  RepairTask, status_command, replicas_command, select_target_nodes, copied, publish, repair_file,
  find_under_replicated_tasks,
}
use fstorex.Metadata.Replicator.Commands.{set_status, marks}
use fstorex.Metadata.Replicator.Tasks.{IsTask, find_under_replicated_tasks-IsTask}
use fstorex.Metadata.Paths.{split_path}
use fstorex.Metadata.Apply.Trees.{IsTree}
use fstorex.Metadata.Machine.Shape.{rename-KeepsTree, apply-IsTree}
use fstorex.Metadata.Rename.{apply_rename}
use fstorex.Metadata.Rename.Outcome.{rename-moves, rename-leaves_source}
use mathlib.Core.Option.{some-injective}

-- A Raft node that also hands back the error of a command that fails.
abbrev pub Refuses : Raft → Time → Type 0
Refuses raft now =
    (p : CommandPayload) (mds : MetadataServer) (problem : Error)
    → (apply (record { op = p.op; payload = some p; now = now }) mds).1 ≡ some problem
    → (text : String) × ((raft.propose p mds).1 ≡ some text)

on_file-missing :
    (mds : MetadataServer) (path : String) (test : Attrs → Option Error) (write : Attrs → Attrs)
    → lookup mds path ≡ none
    → on_file mds path test write ≡ failed mds (path_not_found path)
on_file-missing mds path test write gone = ground (arith, gone)

replicas-missing :
    (path : String) (replicas : List Replica) (now : Time) (mds : MetadataServer)
    → lookup mds path ≡ none
    → apply
        (record {
          op = op_update_replicas;
          payload = some (replicas_command path replicas);
          now = now;
        })
        mds
      ≡ failed mds (path_not_found path)
unfolding apply dispatch apply_update_replicas string_eq
replicas-missing path replicas now mds gone =
    let p : CommandPayload = replicas_command path replicas in
    on_file-missing mds path (replicas_test p) (replicas_write p now) gone

-- A file that is recovering has no task.
passed_over :
    (mds : MetadataServer) (path : String) (e : Entry) (tasks : List RepairTask)
    → lookup mds path ≡ some e
    → (attrs e).status ≡ status_recovering
    → All (IsTask mds) tasks
    → All (λ t. t.path ≢ path) tasks
passed_over mds path e [] here recovering right = tt
passed_over mds path e (t ∷ tasks) here recovering right = (
  λ same. right.0.settled (
      ap (λ x. (attrs x).status)
        (some-injective _ _ (sym right.0.there ∙ ap (λ q. lookup mds q) same ∙ here))
      ∙ recovering),
  passed_over mds path e tasks here recovering right.1,
)

module _ (raft : Raft) (now : Time) (applies : Applies raft now) (refuses : Refuses raft now)
    (trigger : Replica → Replica → ℤ → Bool) (alive : List String) (task : RepairTask)
    (mds : MetadataServer) (e : Entry) (source : Replica) (others : List Replica) (t : String)
    (ts : List String) (here : lookup mds task.path ≡ some e) (file : is_dir e ≡ false)
    (some_alive : task.replicas ≡ source ∷ others)
    (chosen : select_target_nodes task.replicas alive (mds.replica_count - length task.replicas)
      ≡ t ∷ ts) where
  abbrev marked : MetadataServer
  marked = (raft.propose (status_command task.path status_recovering) mds).0

  gone-fails :
      (meanwhile : MetadataServer → MetadataServer)
      → lookup (meanwhile marked) task.path ≡ none
      → ((text : String) × ((repair_file raft meanwhile trigger alive task mds).1 ≡ some text))
        × ((repair_file raft meanwhile trigger alive task mds).0 ≡ meanwhile marked)
  unfolding repair_file publish
  gone-fails meanwhile gone =
      let (accepted, there) = marks raft now applies task mds e here file in
      let p : CommandPayload =
        replicas_command task.path (task.replicas ++ copied trigger source task (t ∷ ts)) in
      let missing =
        replicas-missing task.path (task.replicas ++ copied trigger source task (t ∷ ts)) now
          (meanwhile marked) gone in
      let (text, said) =
        refuses p (meanwhile marked) (path_not_found task.path) (ap (λ v. v.1) missing) in
      let left : (raft.propose p (meanwhile marked)).0 ≡ meanwhile marked =
        (applies p (meanwhile marked)).0 ∙ ap (λ v. v.0) missing in
      let result : repair_file raft meanwhile trigger alive task mds ≡ (
        (raft.propose p (meanwhile marked)).0,
        some ("update replicas: raft do failed: " <> text),
      ) =
        ground (arith, accepted, some_alive, chosen, said) in
      (
        ("update replicas: raft do failed: " <> text, ap (λ v. v.1) result),
        ap (λ v. v.0) result ∙ left,
      )

  module _ (p : CommandPayload) (then : Time) (tree : IsTree mds.root)
      (source_path : p.path ≡ task.path) (elsewhere : split_path p.path ≢ split_path p.dst_path)
      (renames : (apply_rename p then marked).1 ≡ none) where
    marked-IsTree : IsTree marked.root
    marked-IsTree =
        let c : CommandPayload = status_command task.path status_recovering in
        subst (λ m. IsTree m.root) (sym (applies c mds).0)
          (apply-IsTree (record { op = c.op; payload = some c; now = now }) mds tree)

    -- A file that a rename moves away while the targets copy stays recovering: the repair, which
    -- goes by the file's path, ends with an error, and at the end the file stands at its new path
    -- with the status recovering, and no scan makes a task of it again. The rename is one that
    -- succeeds where the file is marked, to a path with other parts; the tree is well formed, some
    -- replica is alive, a node is free, and the Raft node applies each command and hands back its
    -- error.
    pub repair_file-leaves_moved :
        (k : ℕ)
        → let (after, problem) =
            repair_file raft (λ m. (apply_rename p then m).0) trigger alive task mds in
          ((text : String) × (problem ≡ some text))
          × ((dir : List String) × (name : String) × (split_last (split_path p.dst_path)
                ≡ some (dir, name))
              × (lookup after p.dst_path
                  ≡ some (
                      entry
                        (record (attrs e) {
                          name = name;
                          status = status_recovering;
                          mod_time = then;
                        })
                        (children e))))
          × All (λ t. t.path ≢ p.dst_path) (find_under_replicated_tasks k after)
    repair_file-leaves_moved k =
        let meanwhile : MetadataServer → MetadataServer = λ m. (apply_rename p then m).0 in
        let (accepted, there) = marks raft now applies task mds e here file in
        let top = marked-IsTree.root_is_dir in
        let (dir, name, old, parts, found, put) = rename-moves p then marked top renames in
        let same : old ≡ set_status now status_recovering e =
          some-injective _ _ (sym found ∙ ap (λ q. lookup marked q) source_path ∙ there) in
        let final : lookup (meanwhile marked) p.dst_path
            ≡ some (
                entry
                  (record (attrs e) { name = name; status = status_recovering; mod_time = then })
                  (children e)) =
          put
          ∙ ap (λ x. some (entry (record (attrs x) { name = name; mod_time = then }) (children x)))
              same in
        let (fails, left) = gone-fails meanwhile (
          ap (λ q. lookup (meanwhile marked) q) (sym source_path)
          ∙ rename-leaves_source p then marked top renames elsewhere) in
        let right : All (IsTask (meanwhile marked))
            (find_under_replicated_tasks k (meanwhile marked)) =
          find_under_replicated_tasks-IsTask k (meanwhile marked)
            (rename-KeepsTree p then marked marked-IsTree) in
        (
          fails,
          (dir, name, parts, ap (λ m. lookup m p.dst_path) left ∙ final),
          subst (λ m. All (λ t. t.path ≢ p.dst_path) (find_under_replicated_tasks k m)) (sym left)
              (passed_over (meanwhile marked) p.dst_path _
                (find_under_replicated_tasks k (meanwhile marked)) final refl right),
        )
