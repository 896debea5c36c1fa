-- ===== src/Metadata/Gc/Loss.antt =====
-- The loss of the data of a file that has been overwritten.
mod Tests
use fstorex.Base.{
  String, ◌<>◌, ◌≡◌, ◌≢◌, ◌≤◌, ◌+◌, refl, sym, ap, ◌∙◌, subst, Bool, true, false, none, some,
  Option, List, [], ◌∷◌, arith, string_eq, ltb, length, contains, All, Option-cases, Bool-cases,
  if_both, option_both, inl, inr,
}
use fstorex.Base.Dict
use fstorex.Base.Text.{has_suffix}
use fstorex.Types.{Time, Replica, CreateFileArgs}
use fstorex.Metadata.Paths.{split_path}
use fstorex.Metadata.Tree.{Entry, walk_dirs}
use fstorex.Metadata.Tree.Shape.{IsWellFormed}
use fstorex.Metadata.State.{CommandPayload, no_payload, MetadataServer, op_create_file}
use fstorex.Metadata.Apply.{lookup, split_last, apply_create_file}
use fstorex.Metadata.Server.{Raft, Handled, answer, submit, select_data_nodes, create_file}
use fstorex.Metadata.Server.Creation.{Commits, IsPendingAt, apply-create_file, create_file-located}
use fstorex.Metadata.Server.Placement.{IsReplicaOn, select_data_nodes-placed}
use fstorex.DataNode.Paths.{resolve_path}
use fstorex.DataNode.Disk.{DataNode, Faults, File}
use fstorex.Metadata.Gc.{collect_file_ids, garbage_collect_node, gc_safety_window}
use fstorex.Metadata.Gc.Orphans.{FileOf, collected-FileOf}
use fstorex.Metadata.Gc.Removal.{garbage_collect_node-removes}
use fstorex.Metadata.Gc.Overwrites.{overwriting-KeepsIds}

under :
    (nodes : List String) (remote_path : String) (replicas : List Replica)
    → All (IsReplicaOn nodes remote_path) replicas
    → All (λ (r : Replica). r.remote_path ≡ remote_path) replicas
under nodes remote_path [] h = tt
under nodes remote_path (r ∷ replicas) h = (h.0.1, under nodes remote_path replicas h.1)

module _ (raft : Raft) (now : Time) (commits : Commits raft now) (args : CreateFileArgs)
    (id : String) (mds : MetadataServer) where
  abbrev placed : List Replica
  placed = select_data_nodes args.path id mds.replica_count mds

  -- The command of a creation.
  abbrev creation : CommandPayload
  creation = record no_payload {
    op = op_create_file;
    path = args.path;
    size = args.size;
    replicas = placed;
    create_mode = args.create_mode;
    file_id = id;
  }

  submitted :
      (replicas : List Replica)
      → (submit raft creation placed mds).1 ≡ answer replicas
      → (placed ≡ replicas)
        × ((submit raft creation placed mds).0 ≡ (apply_create_file creation now mds).0)
  submitted replicas ok = elim (Option-cases (raft.propose creation mds).1) [
    | inl made ↦ (
      ground (arith, ok, made),
      (commits creation mds made).1 ∙ ap (λ r. r.0) (apply-create_file creation now mds),
    )
    | inr (text, lost) ↦ ground (arith, ok, lost)
  ]

  create_file-applied :
      (replicas : List Replica)
      → (create_file raft (some id) args mds).1 ≡ answer replicas
      → (placed ≡ replicas)
        × ((create_file raft (some id) args mds).0 ≡ (apply_create_file creation now mds).0)
  unfolding create_file
  create_file-applied replicas =
      if_both Q raft.is_leader
        (λ _.
          if_both Q (ltb 0 (length mds.data_nodes))
            (λ _.
              option_both Q (split_last (split_path args.path)) (λ _ h. cc)
                λ (dir, n) _.
                  option_both Q (walk_dirs dir mds.root) (λ _ h. cc)
                    λ _ _ ok. submitted replicas ok)
            (λ _ h. cc))
        (λ _ h. cc)
    where
      Q : Handled (List Replica) → Type 0
      Q h =
          h.1 ≡ answer replicas
          → (placed ≡ replicas) × (h.0 ≡ (apply_create_file creation now mds).0)

  module _ (old : Entry) (replicas : List Replica) (dn : DataNode) (file : File) (f g : Faults)
      (gc_start : Time) (rpc : String → Option Faults) where
    abbrev after : MetadataServer
    after = (create_file raft (some id) args mds).0

    abbrev real_path : String
    real_path = dn.data_dir <> ("/data/" <> id)

    unused_before :
        IsWellFormed mds.root
        → ¬ FileOf mds.root id
        → contains (collect_file_ids mds.root) id ≡ false
    unused_before w fresh = elim (Bool-cases (contains (collect_file_ids mds.root) id)) [
      | inl used ↦ absurd (fresh (collected-FileOf mds.root id w used))
      | inr unused ↦ unused
    ]

    unused_after :
        lookup mds args.path ≡ some old
        → IsWellFormed mds.root
        → ¬ FileOf mds.root id
        → (create_file raft (some id) args mds).1 ≡ answer replicas
        → contains (collect_file_ids after.root) id ≡ false
    unused_after there w fresh ok =
        ap (λ (m : MetadataServer). contains (collect_file_ids m.root) id)
          (create_file-applied replicas ok).1
        ∙ overwriting-KeepsIds creation now mds id old there
        ∙ unused_before w fresh

    -- When a file is overwritten, with a FileID that no file of the tree has, the file is there
    -- afterwards with the replicas that the server answers, which all lie under the path of that
    -- FileID; and the next collection removes the data under that path from every node that it
    -- reaches, once they are older than the safety window. The tree is well formed, the data lie
    -- where their path resolves to, under no temporary name, and the calls of the collection
    -- succeed; Raft applies without an error each command that it accepts.
    pub overwritten-loses_data :
        lookup mds args.path ≡ some old
        → IsWellFormed mds.root
        → ¬ FileOf mds.root id
        → (create_file raft (some id) args mds).1 ≡ answer replicas
        → Dict.lookup real_path dn.disk ≡ some file
        → file.mod_time + gc_safety_window ≤ gc_start
        → resolve_path dn.data_dir ("/data/" <> id) ≡ some real_path
        → has_suffix real_path ".tmp" ≡ false
        → g.walk ≡ false
        → rpc ("/data/" <> id) ≡ some f
        → f.remove ≡ false
        → IsPendingAt args.path replicas after
          × All (λ (r : Replica). r.remote_path ≡ "/data/" <> id) replicas
          × (Dict.lookup real_path
                (garbage_collect_node (collect_file_ids after.root) gc_start (some g) rpc dn).disk
              ≡ none)
    overwritten-loses_data there w fresh ok stored past home plain walks called works = (
      create_file-located raft now commits mds (some id) args replicas ok,
      subst (All (λ (r : Replica). r.remote_path ≡ "/data/" <> id))
          (create_file-applied replicas ok).0
          (under mds.data_nodes ("/data/" <> id) placed
            (select_data_nodes-placed args.path id mds.replica_count mds).1),
      garbage_collect_node-removes (collect_file_ids after.root) gc_start rpc id f g dn file walks
          works called stored plain home (unused_after there w fresh ok) past,
    )
