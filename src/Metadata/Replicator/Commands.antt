-- ===== src/Metadata/Replicator/Commands.antt =====
-- What the commands of a repair do to the entry at a file's path.
use fstorex.Base.{
  String, ◌≡◌, refl, sym, ap, ◌∙◌, false, Option, none, some, List, [], ◌++◌, arith, string_eq,
  ==_refl,
}
use mathlib.Core.List.{append-nil}
use fstorex.Types.{Replica, Time}
use fstorex.Metadata.Paths.{split_path}
use fstorex.Metadata.Tree.{Attrs, Entry, entry, attrs, children, is_dir, lookup_parts, modify}
use fstorex.Metadata.Tree.Modify.{lookup-modify}
use fstorex.Metadata.State.{
  CommandPayload, MetadataServer, Error, status_recovering, status_complete,
}
use fstorex.Metadata.Apply.{
  lookup, done, on_file, apply_update_status, apply_update_replicas, status_test, status_write,
  replicas_test, replicas_write,
}
use fstorex.Metadata.Machine.{apply, dispatch}
use fstorex.Metadata.Server.Leader.{Applies}
use fstorex.Metadata.Server.{Raft}
use fstorex.Metadata.Replicator.{
  RepairTask, status_command, replicas_command, rollback_status, publish,
}

abbrev pub set_status : Time → String → Entry → Entry
set_status now status e = entry (record (attrs e) { status = status; mod_time = now }) (children e)

abbrev pub set_replicas : Time → List Replica → Entry → Entry
set_replicas now replicas e =
    entry (record (attrs e) { replicas = replicas; mod_time = now }) (children e)

lookup-write :
    (mds : MetadataServer) (path : String) (f : Entry → Entry) (e : Entry)
    → lookup mds path ≡ some e
    → lookup (record mds { root = modify (split_path path) f mds.root }) path ≡ some (f e)
unfolding lookup
lookup-write mds path f e here =
    ap (λ ps. lookup_parts ps (modify (split_path path) f mds.root))
      (sym (append-nil (split_path path)))
    ∙ lookup-modify (split_path path) [] f mds.root
    ∙ rw here (unfold lookup_parts in refl)

-- A command that writes the fields of a file.
on_file-lookup :
    (mds : MetadataServer) (path : String) (test : Attrs → Option Error) (write : Attrs → Attrs)
    (e : Entry)
    → lookup mds path ≡ some e
    → is_dir e ≡ false
    → test (attrs e) ≡ none
    → ((on_file mds path test write).1 ≡ none)
      × (lookup (on_file mds path test write).0 path ≡ some (entry (write (attrs e)) (children e)))
on_file-lookup mds path test write e here file fine =
    let f = λ (x : Entry). entry (write (attrs x)) (children x) in
    let result : on_file mds path test write
        ≡ done (record mds { root = modify (split_path path) f mds.root }) =
      ground (arith, here, file, fine) in
    (ap (λ v. v.1) result, ap (λ v. lookup v.0 path) result ∙ lookup-write mds path f e here)

module _ (raft : Raft) (now : Time) (applies : Applies raft now) (path : String) where
  status-done :
      (status : String) (mds : MetadataServer) (e : Entry)
      → status_test (status_command path status) (attrs e) ≡ none
      → lookup mds path ≡ some e
      → is_dir e ≡ false
      → ((raft.propose (status_command path status) mds).1 ≡ none)
        × (lookup (raft.propose (status_command path status) mds).0 path
            ≡ some (set_status now status e))
  unfolding apply dispatch apply_update_status string_eq
  status-done status mds e fine here file =
      let p : CommandPayload = status_command path status in
      let (worked, there) =
        on_file-lookup mds path (status_test p) (status_write p now) e here file fine in
      let (left, accepted) = applies p mds in
      (accepted worked, ap (λ m. lookup m path) left ∙ there)

  replicas-done :
      (replicas : List Replica) (mds : MetadataServer) (e : Entry)
      → replicas_test (replicas_command path replicas) (attrs e) ≡ none
      → lookup mds path ≡ some e
      → is_dir e ≡ false
      → ((raft.propose (replicas_command path replicas) mds).1 ≡ none)
        × (lookup (raft.propose (replicas_command path replicas) mds).0 path
            ≡ some (set_replicas now replicas e))
  unfolding apply dispatch apply_update_replicas string_eq
  replicas-done replicas mds e fine here file =
      let p : CommandPayload = replicas_command path replicas in
      let (worked, there) =
        on_file-lookup mds path (replicas_test p) (replicas_write p now) e here file fine in
      let (left, accepted) = applies p mds in
      (accepted worked, ap (λ m. lookup m path) left ∙ there)

module _ (raft : Raft) (now : Time) (applies : Applies raft now) (task : RepairTask) where
  pub marks :
      (mds : MetadataServer) (e : Entry)
      → lookup mds task.path ≡ some e
      → is_dir e ≡ false
      → ((raft.propose (status_command task.path status_recovering) mds).1 ≡ none)
        × (lookup (raft.propose (status_command task.path status_recovering) mds).0 task.path
            ≡ some (set_status now status_recovering e))
  marks mds e here file =
      status-done raft now applies task.path status_recovering mds e
        (ground (arith, ==_refl status_recovering)) here file

  completes :
      (mds : MetadataServer) (e : Entry)
      → lookup mds task.path ≡ some e
      → is_dir e ≡ false
      → ((raft.propose (status_command task.path status_complete) mds).1 ≡ none)
        × (lookup (raft.propose (status_command task.path status_complete) mds).0 task.path
            ≡ some (set_status now status_complete e))
  completes mds e here file =
      status-done raft now applies task.path status_complete mds e
        (ground (arith, ==_refl status_complete)) here file

  pub publish-lookup :
      (mds : MetadataServer) (e : Entry) (new_replicas : List Replica)
      → lookup mds task.path ≡ some e
      → is_dir e ≡ false
      → replicas_test (replicas_command task.path (task.replicas ++ new_replicas)) (attrs e) ≡ none
      → lookup (publish raft task new_replicas mds).0 task.path
        ≡ some (set_status now status_complete (set_replicas now (task.replicas ++ new_replicas) e))
  unfolding publish
  publish-lookup mds e new_replicas here file some_replicas =
      let (listed, there) =
        replicas-done raft now applies task.path (task.replicas ++ new_replicas) mds e some_replicas
          here file in
      let m : MetadataServer =
        (raft.propose (replicas_command task.path (task.replicas ++ new_replicas)) mds).0 in
      let (finished, last) =
        completes m (set_replicas now (task.replicas ++ new_replicas) e) there file in
      let after : MetadataServer = (raft.propose (status_command task.path status_complete) m).0 in
      let left : (publish raft task new_replicas mds).0 ≡ after =
        ground (arith, listed, finished) in
      ap (λ v. lookup v task.path) left ∙ last

  pub rolled_back :
      (mds : MetadataServer) (e : Entry)
      → lookup mds task.path ≡ some e
      → is_dir e ≡ false
      → lookup
          (rollback_status raft task.path
            (raft.propose (status_command task.path status_recovering) mds).0)
          task.path
        ≡ some (set_status now status_complete (set_status now status_recovering e))
  rolled_back mds e here file =
      let m : MetadataServer = (raft.propose (status_command task.path status_recovering) mds).0 in
      (completes m (set_status now status_recovering e) (marks mds e here file).1 file).1
