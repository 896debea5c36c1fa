-- ===== src/Client/Files.antt =====
-- Whole files and directories (internal/client/client.go). What the local file system does is an
-- argument. The stores of an upload, which the source makes at the same time at different nodes,
-- stand one behind the other here.
pub mod Downloads
pub mod Redirects
pub mod Uploads
mod Tests
use fstorex.Base.{
  ℕ, zero, suc, ◌+◌, ◌-◌, ◌/◌, ◌%◌, String, ◌<>◌, Bool, true, false, not, ◌&&◌, ◌||◌, Option, none,
  some, List, [], ◌∷◌, length, ltb, ◌==◌, string_eq, nat_eq, if◌then◌else◌,
}
use fstorex.Base.Text.{decimal}
use fstorex.Base.Text
use fstorex.Types.{
  ℤ, pos, Replica, FileInfo, FileLocation, CreateMode, create_if_not_exist, CreateFileArgs,
  DeleteReply, RenameArgs,
}
use fstorex.Metadata.State.{MetadataServer, status_pending, status_recovering}
use fstorex.Metadata.Server.{
  Raft, Handled, answer, as_leader, mkdir, create_file, delete, rename, stat, get_file_location,
}
use fstorex.Metadata.Gc.{trigger_gc}
use fstorex.Metadata.Listing.{list_dir, list_data_nodes}
use fstorex.DataNode.Bytes.{Bytes}
use fstorex.DataNode.Service.{store_data, get_data, delete_data}
use fstorex.Client.World.{World, Net, Result, returns, fails}
use fstorex.Client.Calls.{call_mds, ask_mds, call_node, ask_node, file_location, update_size_at}
use fstorex.Client.Handle.{
  Client, FileHandle, on_replicas, failures, first_failure, shown, truncate_all_replicas,
  complete_file_at,
}

-- An error with what failed in front of it.
abbrev pub wrapped {ℓ} : {A : Type ℓ} → String → Result A → Result A
wrapped what (returns a) = returns a
wrapped what (fails text) = fails (what <> text)

-- `Mkdir`
unfoldable pub mkdir_path : Net → String → String → World → World × Result Bool
mkdir_path net mds_addr path w =
    let (after, result) =
      call_mds net "MetadataService.Mkdir" (λ raft. mkdir raft net.new_id path) mds_addr w in
    (after, wrapped "mkdir failed: " result)

-- The remote call of a creation.
unfoldable pub create_at : Net → String → CreateFileArgs → World → World × Result (List Replica)
create_at net mds_addr args w =
    call_mds net "MetadataService.CreateFile" (λ raft. create_file raft net.new_id args) mds_addr w

-- The cleanup of a deleted file's replicas; what fails there is only logged.
unfoldable pub delete_replicas : Net → List Replica → World → World
delete_replicas net [] w = w
delete_replicas net (replica ∷ rest) w =
    delete_replicas net rest
      (call_node net "" 1 replica.addr (λ f. delete_data f replica.remote_path) w).0

-- `Delete`
unfoldable pub delete_path : Net → String → String → World → World × Result Bool
delete_path net mds_addr path w =
    let (after, result) =
      call_mds net "MetadataService.Delete" (λ raft. delete raft path) mds_addr w in
    elim result [
      | fails text ↦ (after, fails ("delete metadata failed: " <> text))
      | returns reply ↦ (
        (if not reply.is_dir && ltb 0 (length reply.replicas)
            then delete_replicas net reply.replicas after
            else after),
        returns true,
      )
    ]

-- The store of a replica in `PutFile`.
unfoldable pub store_replica : Net → Bytes → Replica → World → World × Result Bool
store_replica net content replica w =
    call_node net "store data failed: " 0 replica.addr
      (λ f. store_data f net.now (record { path = replica.remote_path; content = content })) w

-- `PutFile`; the first argument but two is what `os.ReadFile` gives.
unfoldable pub put_file :
    Net → String → Result Bytes → String → CreateMode → World → World × Result Bool
put_file net mds_addr (fails text) path mode w = (w, fails ("read local file failed: " <> text))
put_file net mds_addr (returns content) path mode w =
    let (made, result) =
      create_at net mds_addr
        (record { path = path; size = pos (length content); create_mode = mode }) w in
    elim result [
      | fails text ↦ (made, fails ("create metadata failed: " <> text))
      | returns replicas ↦
          let (after, results) = on_replicas (store_replica net content) replicas made in
          if length results - failures results == 0
          then (
            (delete_path net mds_addr path after).0,
            fails (
                "all "
                <> decimal (length replicas)
                <> " replica stores failed: "
                <> shown (first_failure results)),
          )
          else ((complete_file_at net mds_addr path after).0, returns true)
    ]

-- The loop of `GetFile` over the replicas that are left.
unfoldable pub download_from : Net → World → ℕ → Option String → List Replica → Result Bytes
download_from net w replicas last_err [] =
    fails ("all " <> decimal replicas <> " replicas failed, last error: " <> shown last_err)
download_from net w replicas last_err (replica ∷ rest) =
    elim (ask_node net "" 0 replica.addr (λ f. get_data f replica.remote_path) w) [
      | fails text ↦ download_from net w replicas (some text) rest
      | returns bytes ↦ elim (net.received bytes) [
        | some content ↦ returns content
        | none ↦
            fails ("all " <> decimal replicas <> " replicas failed, last error: " <> shown last_err)
      ]
    ]

-- `os.WriteFile`, whose error is an argument, of what goes into the local file.
abbrev pub save_local : (Bytes → Option String) → Bytes → Result Bytes
save_local save content = elim (save content) [
  | none ↦ returns content
  | some text ↦ fails ("write local file failed: " <> text)
]

-- `GetFile`, with what goes into the local file.
unfoldable pub get_file : Net → String → String → (Bytes → Option String) → World → Result Bytes
get_file net mds_addr path save w =
    elim (ask_mds net "MetadataService.GetFileLocation" "get file location failed: "
      (get_file_location path) mds_addr w) [
        | fails text ↦ fails text
        | returns loc ↦
            if loc.status == status_pending
            then save_local save []
            else elim (download_from net w (length loc.replicas) none loc.replicas) [
              | fails text ↦ fails text
              | returns content ↦ save_local save content
            ]
      ]

-- `ListDir`
unfoldable pub list_dir_at : Net → String → String → World → Result (List FileInfo)
list_dir_at net mds_addr path w =
    ask_mds net "MetadataService.ListDir" "list dir failed: " (list_dir path) mds_addr w

-- `Stat`
unfoldable pub stat_at : Net → String → String → World → Result FileInfo
stat_at net mds_addr path w =
    ask_mds net "MetadataService.Stat" "stat failed: " (stat path) mds_addr w

-- `GetReplicas`
unfoldable pub get_replicas : Net → String → String → World → Result (List Replica)
get_replicas net mds_addr path w =
    elim (ask_mds net "MetadataService.GetFileLocation" "get file location failed: "
      (get_file_location path) mds_addr w) [
        | fails text ↦ fails text
        | returns loc ↦ returns loc.replicas
      ]

-- `ListDataNodes`
unfoldable pub list_data_nodes_at : Net → String → World → Result (List String)
list_data_nodes_at net mds_addr w =
    ask_mds net "MetadataService.ListDataNodes" "list data nodes failed: " list_data_nodes mds_addr
      w

-- `TriggerGC`
unfoldable pub trigger_gc_at : Net → String → World → World × Result Bool
trigger_gc_at net mds_addr w =
    let (after, result) = call_mds net "MetadataService.TriggerGC" trigger_gc mds_addr w in
    (after, wrapped "trigger GC failed: " result)

-- `Rename`
unfoldable pub rename_path : Net → String → String → String → World → World × Result Bool
rename_path net mds_addr src dst w =
    let (after, result) =
      call_mds net "MetadataService.Rename"
        (λ raft. rename raft (record { src_path = src; dst_path = dst })) mds_addr w in
    (after, wrapped "rename failed: " result)
