-- ===== src/Metadata/Server.antt =====
-- The handlers of the metadata service (internal/metadata/mds.go). The Raft node is a parameter,
-- and what `generateFileID` draws is an argument, `none` where it fails.
pub mod Leader
pub mod Placement
pub mod Filling
pub mod Follower
pub mod Creation
mod Tests
use Prim.Native.Char.{Char, code}
use Prim.Native.String
use fstorex.Base.{
  ℕ, zero, suc, ◌+◌, ◌-◌, ◌*◌, ◌%◌, ◌^◌, String, ◌<>◌, Bool, true, false, not, ◌||◌, Option, none,
  some, List, [], ◌∷◌, ltb, ◌==◌, string_eq, if◌then◌else◌, length, get_elem?, contains,
}
use fstorex.Types.{
  ℤ, is_negative, Replica, FileInfo, FileLocation, CreateFileArgs, DeleteReply, RenameArgs,
  UpdateSizeArgs,
}
use fstorex.Metadata.Paths.{split_path}
use fstorex.Metadata.Tree.{Attrs, Entry, attrs, is_dir, walk_dirs}
use fstorex.Metadata.State.{
  CommandPayload, no_payload, MetadataServer, op_heartbeat, op_mkdir, op_create_file,
  op_complete_file, op_delete, op_rename, op_update_size,
}
use fstorex.Metadata.Apply.{split_last, lookup}

-- The Raft node: `IsLeader`, `GetLeader` and `Do`, with the text of its error
-- if it returns one.
pub record Raft : Type 0 where
  pub is_leader : Bool
  pub leader : String
  pub propose : CommandPayload → MetadataServer → MetadataServer × Option String

-- The errors of the handlers, one constructor for each message.
pub data ServerError : Type 0 where
  not_leader : String → ServerError
  no_file_id : ServerError
  raft_failed : String → ServerError
  no_data_nodes : ServerError
  bad_path : String → ServerError
  no_parent : String → ServerError
  no_path : String → ServerError
  no_file : String → ServerError
  no_directory : String → ServerError
  is_directory : String → ServerError
  not_directory : String → ServerError
  empty_names : ServerError
  empty_path : ServerError
  renames_root : ServerError
  negative_size : ServerError

-- The texts of the errors; what goes wrong with the source of random bytes is not in them.
unfoldable pub message : ServerError → String
message (not_leader leader) = "not leader, redirect to " <> leader
message no_file_id = "generate file id failed"
message (raft_failed text) = "raft do failed: " <> text
message no_data_nodes = "no data nodes registered"
message (bad_path path) = "invalid path: " <> path
message (no_parent path) = "parent directory not found: " <> path
message (no_path path) = "path not found: " <> path
message (no_file path) = "file not found: " <> path
message (no_directory path) = "directory not found: " <> path
message (is_directory path) = path <> " is a directory"
message (not_directory path) = path <> " is not a directory"
message empty_names = "src_path and dst_path must not be empty"
message renames_root = "cannot rename root"
message empty_path = "path must not be empty"
message negative_size = "size must not be negative"

pub data Answer {ℓ} (A : Type ℓ) : Type ℓ where
  answer : A → Answer A
  refuse : ServerError → Answer A

abbrev pub Handled {ℓ} : Type ℓ → Type ℓ
Handled A = MetadataServer × Answer A

-- The guard of every write, `checkLeader`, in front of the rest of a handler.
abbrev pub as_leader {ℓ} : {A : Type ℓ} → Raft → MetadataServer → Handled A → Handled A
as_leader raft mds rest = if raft.is_leader then rest else (mds, refuse (not_leader raft.leader))

-- `submitCommand`, and the answer behind it.
abbrev pub submit {ℓ} : {A : Type ℓ} → Raft → CommandPayload → A → MetadataServer → Handled A
submit raft p reply mds =
    let (after, problem) = raft.propose p mds in
    (after, elim problem [ none ↦ answer reply | some text ↦ refuse (raft_failed text) ])

-- `Heartbeat`
unfoldable pub heartbeat : Raft → String → MetadataServer → Handled Bool
heartbeat raft addr mds =
    as_leader raft mds (submit raft (record no_payload { op = op_heartbeat; addr = addr }) true mds)

-- `Mkdir`
unfoldable pub mkdir : Raft → Option String → String → MetadataServer → Handled Bool
mkdir raft new_id path mds = as_leader raft mds (elim new_id [
  | none ↦ (mds, refuse no_file_id)
  | some id ↦ submit raft (record no_payload { op = op_mkdir; path = path; file_id = id }) true mds
])

-- The hash of a path in an `int` of 64 bits, as the natural number with its bits.
unfoldable pub path_hash : ℕ → String → ℕ
path_hash hash String.[] = hash
path_hash hash (String.◌∷◌ c s) = path_hash ((hash * 31 + code c) % 2 ^ 64) s

-- The remainder of the hash without its sign.
unfoldable pub start_index : String → ℕ → ℕ
unfolding path_hash
start_index path n =
    let hash = path_hash 0 path in if ltb hash (2 ^ 63) then hash % n else (2 ^ 64 - hash) % n

-- The loop over the nodes from the first index on: how many turns are left, the turn, and `seen`.
unfoldable pub select_from : List String → ℕ → String → ℕ → ℕ → List String → List Replica
select_from nodes start remote_path zero i seen = []
select_from nodes start remote_path (suc n) i seen =
    elim (get_elem? nodes ((start + i) % length nodes)) [
      | none ↦ []
      | some addr ↦ elim (contains seen addr) [
        | true ↦ select_from nodes start remote_path n (i + 1) seen
        | false ↦
            (record { addr = addr; remote_path = remote_path })
            ∷ select_from nodes start remote_path n (i + 1) (addr ∷ seen)
      ]
    ]

abbrev pub replicas_wanted : ℕ → ℕ → ℕ
replicas_wanted replica_count nodes =
    let n = if ltb nodes replica_count then nodes else replica_count in if ltb n 1 then 1 else n

-- `selectDataNodes`, of at least one node.
unfoldable pub select_data_nodes : String → String → ℕ → MetadataServer → List Replica
unfolding start_index select_from
select_data_nodes path file_id replica_count mds =
    select_from mds.data_nodes (start_index path (length mds.data_nodes)) ("/data/" <> file_id)
      (replicas_wanted replica_count (length mds.data_nodes)) 0 []

-- `CreateFile`
unfoldable pub create_file :
    Raft → Option String → CreateFileArgs → MetadataServer → Handled (List Replica)
create_file raft new_id args mds = as_leader raft mds (elim new_id [
  | none ↦ (mds, refuse no_file_id)
  | some id ↦
      if ltb 0 (length mds.data_nodes)
      then elim (split_last (split_path args.path)) [
        | none ↦ (mds, refuse (bad_path args.path))
        | some (dir_parts, name) ↦ elim (walk_dirs dir_parts mds.root) [
          | none ↦ (mds, refuse (no_parent args.path))
          | some parent ↦
              let replicas = select_data_nodes args.path id mds.replica_count mds in
              submit raft
                (record no_payload {
                  op = op_create_file;
                  path = args.path;
                  size = args.size;
                  replicas = replicas;
                  create_mode = args.create_mode;
                  file_id = id;
                })
                replicas mds
        ]
      ]
      else (mds, refuse no_data_nodes)
])

-- `CompleteFile`
unfoldable pub complete_file : Raft → String → MetadataServer → Handled Bool
complete_file raft path mds =
    as_leader raft mds
      (submit raft (record no_payload { op = op_complete_file; path = path }) true mds)

-- `Delete`
unfoldable pub delete : Raft → String → MetadataServer → Handled DeleteReply
delete raft path mds = as_leader raft mds (elim (lookup mds path) [
  | none ↦ (mds, refuse (no_path path))
  | some target ↦
      let replicas = (attrs target).replicas in
      submit raft
        (record no_payload {
          op = op_delete;
          path = path;
          is_dir = is_dir target;
          replicas = replicas;
        })
        (record { replicas = replicas; is_dir = is_dir target }) mds
])

-- `Rename`
unfoldable pub rename : Raft → RenameArgs → MetadataServer → Handled Bool
rename raft args mds = as_leader raft mds (
    if args.src_path == "" || args.dst_path == ""
    then (mds, refuse empty_names)
    else if args.src_path == "/" || args.dst_path == "/"
    then (mds, refuse renames_root)
    else if args.src_path == args.dst_path
    then (mds, answer true)
    else submit raft
        (record no_payload { op = op_rename; path = args.src_path; dst_path = args.dst_path }) true
        mds)

-- `UpdateSize`
unfoldable pub update_size : Raft → UpdateSizeArgs → MetadataServer → Handled Bool
update_size raft args mds = as_leader raft mds (
    if args.path == ""
    then (mds, refuse empty_path)
    else if is_negative args.size
    then (mds, refuse negative_size)
    else submit raft
        (record no_payload { op = op_update_size; path = args.path; new_size = args.size }) true
        mds)

-- `GetFileLocation`
unfoldable pub get_file_location : String → MetadataServer → Answer FileLocation
get_file_location path mds = elim (lookup mds path) [
  | none ↦ refuse (no_file path)
  | some e ↦
      if is_dir e
      then refuse (is_directory path)
      else answer (record {
        file_id = (attrs e).file_id;
        replicas = (attrs e).replicas;
        status = (attrs e).status;
      })
]

-- `Stat`
unfoldable pub stat : String → MetadataServer → Answer FileInfo
stat path mds = elim (lookup mds path) [
  | none ↦ refuse (no_path path)
  | some e ↦ answer (record {
    name = (attrs e).name;
    path = path;
    is_dir = is_dir e;
    size = (attrs e).size;
    mode = (attrs e).mode;
    created_at = (attrs e).created_at;
    mod_time = (attrs e).mod_time;
    file_id = (attrs e).file_id;
  })
]
