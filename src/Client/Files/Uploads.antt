-- ===== src/Client/Files/Uploads.antt =====
-- What an upload leaves on the data nodes.
mod Tests
use fstorex.Base.{
  ℕ, zero, suc, ◌-◌, String, ◌<>◌, ◌≡◌, ◌≢◌, refl, sym, ap, ◌∙◌, subst, Bool, true, false, none,
  some, List, [], ◌∷◌, map, length, arith, ◌==◌, string_eq, nat_eq, contains, Option-cases,
  Bool-cases, if_both, inl, inr, ◌⊎◌, ==_refl,
}
use fstorex.Base.Dict
use fstorex.Base.Dict.{lookup-insert}
use fstorex.Types.{Time, pos, Replica, CreateMode}
use fstorex.Metadata.Machine.Registry.{AreDistinct}
use fstorex.Metadata.Server.{complete_file}
use fstorex.DataNode.Bytes.{Bytes}
use fstorex.DataNode.Paths.{resolve_path}
use fstorex.DataNode.Disk.{File, DataNode, Faults, ok}
use fstorex.DataNode.Service.{StoreArgs, temporary, store_data}
use fstorex.Client.World.{World, Net, Result, returns, fails, Result-cases}
use fstorex.Client.Calls.{at_node, call_node}
use fstorex.Client.Handle.{on_replicas, failures, complete_file_at}
use fstorex.Client.Handle.Replicas.{addr_of, Ran, call_node-Ran, call_node-others}
use fstorex.Client.Handle.Updates.{mds_tries-nodes}
use fstorex.Client.Files.{create_at, store_replica, put_file}

-- A replica's node has a file with these bytes at the replica's path.
pub record IsStored (w : World) (content : Bytes) (r : Replica) : Type 0 where
  pub dn : DataNode
  pub real_path : String
  pub file : File
  pub found : Dict.lookup r.addr w.nodes ≡ some dn
  pub resolved : resolve_path dn.data_dir r.remote_path ≡ some real_path
  pub there : Dict.lookup real_path dn.disk ≡ some file
  pub same : file.content ≡ content

-- Some of the replicas is stored.
abbrev pub SomeStored : World → Bytes → List Replica → Type 0
SomeStored w content [] = ⊥
SomeStored w content (r ∷ rs) = IsStored w content r ⊎ SomeStored w content rs

IsStored-congr :
    (w w' : World) (content : Bytes) (r : Replica)
    → Dict.lookup r.addr w'.nodes ≡ Dict.lookup r.addr w.nodes
    → IsStored w content r
    → IsStored w' content r
IsStored-congr w w' content r same s = record {
  dn = s.dn;
  real_path = s.real_path;
  file = s.file;
  found = same ∙ s.found;
  resolved = s.resolved;
  there = s.there;
  same = s.same;
}

SomeStored-nodes :
    (w w' : World) (content : Bytes) (rs : List Replica)
    → w'.nodes ≡ w.nodes
    → SomeStored w content rs
    → SomeStored w' content rs
SomeStored-nodes w w' content [] same s = s
SomeStored-nodes w w' content (r ∷ rs) same (inl s) =
    inl (IsStored-congr w w' content r (ap (Dict.lookup r.addr) same) s)
SomeStored-nodes w w' content (r ∷ rs) same (inr s) = inr (SomeStored-nodes w w' content rs same s)

store_data-dir :
    (f : Faults) (now : Time) (args : StoreArgs) (dn : DataNode)
    → (store_data f now args dn).0.data_dir ≡ dn.data_dir
unfolding store_data
store_data-dir f now args dn = ground arith

module _ (net : Net) (content : Bytes) where
  abbrev args_of : Replica → StoreArgs
  args_of r = record { path = r.remote_path; content = content }

  abbrev stored_at_node : Faults → Replica → DataNode → DataNode
  stored_at_node f r dn = (store_data f net.now (args_of r) dn).0

  written :
      (dn : DataNode) (f : Faults) (r : Replica) (b : Bool) (real_path : String)
      → (store_data f net.now (args_of r) dn).1 ≡ ok b
      → resolve_path dn.data_dir r.remote_path ≡ some real_path
      → Dict.lookup real_path (stored_at_node f r dn).disk
        ≡ some (record { content = content; mod_time = net.now })
  unfolding store_data
  written dn f r b real_path stored here =
      let new : File = record { content = content; mod_time = net.now } in
      ground (
        arith,
        stored,
        here,
        lookup-insert real_path real_path new
            (Dict.erase (temporary real_path) (Dict.insert (temporary real_path) new dn.disk)),
        ==_refl real_path,
      )

  resolves :
      (dn : DataNode) (f : Faults) (r : Replica) (b : Bool)
      → (store_data f net.now (args_of r) dn).1 ≡ ok b
      → (real_path : String) × (resolve_path dn.data_dir r.remote_path ≡ some real_path)
  unfolding store_data
  resolves dn f r b stored = elim (Option-cases (resolve_path dn.data_dir r.remote_path)) [
    | inl gone ↦ absurd (ground (arith, stored, gone))
    | inr found ↦ found
  ]

  -- A store that succeeds has stored its replica.
  store_replica-IsStored :
      (r : Replica) (w : World) (b : Bool)
      → (store_replica net content r w).1 ≡ returns b
      → IsStored (store_replica net content r w).0 content r
  unfolding store_replica
  store_replica-IsStored r w b worked =
      let ran =
        call_node-Ran net "store data failed: " 0 r.addr (λ f. store_data f net.now (args_of r)) w b
          worked in
      let (real_path, here) = resolves ran.dn ran.faults r b ran.replied in
      subst (λ v. IsStored v content r) (sym ran.left)
        (record {
          dn = stored_at_node ran.faults r ran.dn;
          real_path = real_path;
          file = record { content = content; mod_time = net.now };
          found = ground (
            arith,
            lookup-insert r.addr r.addr (stored_at_node ran.faults r ran.dn) w.nodes,
            ==_refl r.addr,
          );
          resolved =
              ap (λ d. resolve_path d r.remote_path)
                (store_data-dir ran.faults net.now (args_of r) ran.dn)
              ∙ here;
          there = written ran.dn ran.faults r b real_path ran.replied here;
          same = refl;
        })

  stores-others :
      (rs : List Replica) (q : String) (w : World)
      → contains (map addr_of rs) q ≡ false
      → Dict.lookup q (on_replicas (store_replica net content) rs w).0.nodes ≡ Dict.lookup q w.nodes
  unfolding on_replicas store_replica
  stores-others [] q w fresh = refl
  stores-others (r ∷ rs) q w fresh =
      stores-others rs q (store_replica net content r w).0 (ground (arith, fresh))
      ∙ call_node-others net "store data failed: " 0 r.addr (λ f. store_data f net.now (args_of r))
          w q (ground (arith, fresh))

  -- Where a store succeeds, some replica is stored behind all of them.
  stores-SomeStored :
      (rs : List Replica) (w : World)
      → AreDistinct (map addr_of rs)
      → length (on_replicas (store_replica net content) rs w).1
          - failures (on_replicas (store_replica net content) rs w).1
        ≢ 0
      → SomeStored (on_replicas (store_replica net content) rs w).0 content rs
  unfolding on_replicas failures
  stores-SomeStored [] w distinct some_left = absurd (some_left refl)
  stores-SomeStored (r ∷ rs) w distinct some_left =
      let after : World = (store_replica net content r w).0 in
      elim (Result-cases (store_replica net content r w).1) [
        | inl (b, worked) ↦ inl (
            IsStored-congr after (on_replicas (store_replica net content) rs after).0 content r
              (stores-others rs r.addr after distinct.0) (store_replica-IsStored r w b worked))
        | inr (text, failed) ↦ inr (
            stores-SomeStored rs after distinct.1
              (λ gone. some_left (ground (arith, failed, gone))))
      ]

  completed-nodes :
      (mds_addr path : String) (w : World)
      → (complete_file_at net mds_addr path w).0.nodes ≡ w.nodes
  unfolding complete_file_at
  completed-nodes mds_addr path w =
      mds_tries-nodes net "MetadataService.CompleteFile" (λ raft. complete_file raft path) 3
        mds_addr w

  -- An upload that succeeds has stored the content at some replica of the file that it has made: the
  -- replica's node has a file with these bytes at the replica's path. The replicas are at different
  -- addresses.
  pub put_file-SomeStored :
      (mds_addr path : String) (mode : CreateMode) (w : World) (replicas : List Replica) (b : Bool)
      → (create_at net mds_addr
          (record { path = path; size = pos (length content); create_mode = mode })
          w).1
        ≡ returns replicas
      → AreDistinct (map addr_of replicas)
      → (put_file net mds_addr (returns content) path mode w).1 ≡ returns b
      → SomeStored (put_file net mds_addr (returns content) path mode w).0 content replicas
  unfolding put_file
  put_file-SomeStored mds_addr path mode w replicas b made distinct =
      let start : World =
        (create_at net mds_addr
          (record { path = path; size = pos (length content); create_mode = mode }) w).0 in
      let stores = on_replicas (store_replica net content) replicas start in
      rw (made, put_file)
        (if_both (λ (v : World × Result Bool). v.1 ≡ returns b → SomeStored v.0 content replicas)
          (length stores.1 - failures stores.1 == 0) (λ lost h. cc)
          (λ some_left h.
            SomeStored-nodes stores.0 (complete_file_at net mds_addr path stores.0).0 content
              replicas (completed-nodes mds_addr path stores.0)
              (stores-SomeStored replicas start distinct
                (λ gone. ground (arith, some_left, gone)))))
