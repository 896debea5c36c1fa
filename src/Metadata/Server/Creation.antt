-- ===== src/Metadata/Server/Creation.antt =====
-- A file that the server has created, as its reads answer.
use fstorex.Base.{
  String, ◌≡◌, refl, ap, sym, ◌∙◌, Option, none, some, List, arith, ltb, length, string_eq,
  Option-cases, if_both, subst, option_both, inl, inr,
}
use fstorex.Types.{Time, Replica, FileLocation, CreateFileArgs}
use fstorex.Metadata.Paths.{split_path}
use fstorex.Metadata.Tree.{Entry, attrs, walk_dirs}
use fstorex.Metadata.State.{CommandPayload, MetadataServer, status_pending, op_create_file}
use fstorex.Metadata.Apply.{split_last, lookup, apply_create_file}
use fstorex.Metadata.Apply.Outcomes.{created_file, create_file-lookup}
use fstorex.Metadata.Machine.{dispatch, apply}
use fstorex.Metadata.Server.{Raft, answer, Handled, submit, create_file, get_file_location}

-- Where `Do` returns without an error, the command has been applied without one, and the state is
-- what it left.
abbrev pub Commits : Raft → Time → Type 0
Commits raft now =
    (p : CommandPayload) (mds : MetadataServer)
    → (raft.propose p mds).1 ≡ none
    → ((apply (record { op = p.op; payload = some p; now = now }) mds).1 ≡ none)
      × ((raft.propose p mds).0 ≡ (apply (record { op = p.op; payload = some p; now = now }) mds).0)

pub apply-create_file :
    (p : CommandPayload) (now : Time) (mds : MetadataServer)
    → apply (record { op = op_create_file; payload = some p; now = now }) mds
      ≡ apply_create_file p now mds
unfolding apply dispatch string_eq
apply-create_file p now mds = refl

-- The server answers for a path with these replicas of a file that is still being written.
abbrev pub IsPendingAt : String → List Replica → MetadataServer → Type 0
IsPendingAt path replicas mds =
    (loc : FileLocation) × (get_file_location path mds ≡ answer loc)
    × (loc.replicas ≡ replicas)
    × (loc.status ≡ status_pending)

module _ (p : CommandPayload) (now : Time) (mds : MetadataServer) where
  created-IsPendingAt :
      (after : MetadataServer) (path name : String) (old : Option Entry)
      → lookup after path ≡ some (created_file p now mds name old)
      → IsPendingAt path p.replicas after
  unfolding get_file_location
  created-IsPendingAt after path name none here = (
    record { file_id = p.file_id; replicas = p.replicas; status = status_pending },
    ground (arith, here),
    refl,
    refl,
  )
  created-IsPendingAt after path name (some old) here = (
    record { file_id = (attrs old).file_id; replicas = p.replicas; status = status_pending },
    ground (arith, here),
    refl,
    refl,
  )

  applied-IsPendingAt :
      (apply_create_file p now mds).1 ≡ none
      → IsPendingAt p.path p.replicas (apply_create_file p now mds).0
  applied-IsPendingAt ok =
      let (may, (dir, name, parts, there)) = create_file-lookup p now mds ok in
      created-IsPendingAt (apply_create_file p now mds).0 p.path name (lookup mds p.path) there

module _ (raft : Raft) (now : Time) (commits : Commits raft now) (mds : MetadataServer) where
  submit-IsPendingAt :
      (p : CommandPayload) (replicas : List Replica)
      → p.op ≡ op_create_file
      → (submit raft p p.replicas mds).1 ≡ answer replicas
      → IsPendingAt p.path replicas (submit raft p p.replicas mds).0
  submit-IsPendingAt p replicas op ok = elim (Option-cases (raft.propose p mds).1) [
    | inl made ↦
        let (fine, same) = commits p mds made in
        let run =
          ap (λ o. apply (record { op = o; payload = some p; now = now }) mds) op
          ∙ apply-create_file p now mds in
        let reply : p.replicas ≡ replicas = ground (arith, ok, made) in
        subst (λ rs. IsPendingAt p.path rs (raft.propose p mds).0) reply
          (subst (IsPendingAt p.path p.replicas) (sym (same ∙ ap (λ r. r.0) run))
            (applied-IsPendingAt p now mds (sym (ap (λ r. r.1) run) ∙ fine)))
    | inr (text, lost) ↦ ground (arith, ok, lost)
  ]

  -- When the server answers the creation of a file with its replicas, the file is there: its
  -- location is those replicas, and its status is pending, where Raft applies without an error
  -- each command that it accepts.
  pub create_file-located :
      (new_id : Option String) (args : CreateFileArgs) (replicas : List Replica)
      → (create_file raft new_id args mds).1 ≡ answer replicas
      → IsPendingAt args.path replicas (create_file raft new_id args mds).0
  unfolding create_file
  create_file-located new_id args replicas =
      if_both Q raft.is_leader
        (λ _.
          option_both Q new_id (λ _ h. cc)
            λ id _.
              if_both Q (ltb 0 (length mds.data_nodes))
                (λ _.
                  option_both Q (split_last (split_path args.path)) (λ _ h. cc)
                    λ (dir, n) _.
                      option_both Q (walk_dirs dir mds.root) (λ _ h. cc)
                        λ _ _ ok. submit-IsPendingAt _ replicas refl ok)
                (λ _ h. cc))
        (λ _ h. cc)
    where
      Q : Handled (List Replica) → Type 0
      Q h = h.1 ≡ answer replicas → IsPendingAt args.path replicas h.0
