-- ===== src/DataNode/Replicate.antt =====
-- `ReplicateFile` (internal/datanode/datanode.go): a data node pulls a copy of a file from another
-- one, chunk by chunk. No other handler of the node touches the file in between.
pub mod Copies
use fstorex.Base.{
  ℕ, zero, suc, ◌+◌, ◌-◌, String, Bool, true, false, ◌&&◌, Option, none, some, [], ltb, string_eq,
  if◌then◌else◌, length, take,
}
use mathlib.Core.Option
use fstorex.Base.Dict.{insert}
use fstorex.Types.{ℤ, pos, negsuc, Time}
use fstorex.DataNode.Bytes.{Bytes, write_at}
use fstorex.DataNode.Paths.{resolve_path}
use fstorex.DataNode.Disk.{
  DataNode, Faults, DataError, invalid_path, create_parent_failed, open_failed, write_failed,
  sync_failed, source_unreachable, source_read_failed, Reply, ok, err, panicked,
}
use fstorex.DataNode.Service.{RangeReadArgs, RangeReadReply, Served, refused, on_disk}

-- `ReplicateFileArgs`, without the source's address, which has been dialled.
pub record ReplicateFileArgs : Type 0 where
  pub source_remote_path : String
  pub target_remote_path : String
  pub file_size : ℤ

-- The source's `RangeRead`, as a remote call answers it.
abbrev pub Source : Type 0
Source = RangeReadArgs → Reply RangeReadReply

-- `replicateChunkSize`
abbrev pub replicate_chunk_size : ℕ
replicate_chunk_size = 1048576

unfoldable pub chunk_len : ℕ → ℕ → ℕ
chunk_len offset size =
    if ltb size (offset + replicate_chunk_size) then size - offset else replicate_chunk_size

-- The loop; `none` where the fuel, one for each test of its condition, is used up.
unfoldable pub replicate_loop :
    Source → Faults → String → ℕ → ℕ → ℕ → Bytes → Option (Bytes × Reply Bool)
unfolding chunk_len
replicate_loop source f path size zero offset content = none
replicate_loop source f path size (suc fuel) offset content = elim (ltb offset size) [
  | false ↦ some (content, ok true)
  | true ↦
      elim (source
        (record { path = path; offset = pos offset; length = pos (chunk_len offset size) })) [
          | err e ↦ some (content, err (source_read_failed e))
          | panicked ↦ some (content, err source_unreachable)
          | ok reply ↦ elim (f.write && ltb 0 (length reply.bytes)) [
            | true ↦ some (write_at content offset (take f.kept reply.bytes), err write_failed)
            | false ↦
                replicate_loop source f path size fuel (offset + length reply.bytes)
                  (write_at content offset reply.bytes)
          ]
        ]
]

-- A negative size is met at once.
abbrev pub loop_size : ℤ → ℕ
loop_size (pos n) = n
loop_size (negsuc n) = 0

-- The file that is left behind the loop, and the last step of a loop that has succeeded.
abbrev pub finish : Faults → Time → String → DataNode → Bytes × Reply Bool → Served
finish f now real_path dn (content, reply) =
    let left : DataNode =
      on_disk dn (insert real_path (record { content = content; mod_time = now }) dn.disk) in
    elim reply [
      | err e ↦ refused left e
      | panicked ↦ (left, panicked)
      | ok b ↦ if f.sync then refused left sync_failed else (left, ok true)
    ]

-- `ReplicateFile`; there is no source where the dial fails.
unfoldable pub replicate_file :
    ℕ → Option Source → Faults → Time → ReplicateFileArgs → DataNode → Option Served
unfolding replicate_loop
replicate_file fuel none f now args dn = some (refused dn source_unreachable)
replicate_file fuel (some source) f now args dn =
    elim (resolve_path dn.data_dir args.target_remote_path) [
      | none ↦ some (refused dn (invalid_path args.target_remote_path))
      | some real_path ↦
          if f.mkdir
          then some (refused dn create_parent_failed)
          else if f.open_file
          then some (refused dn open_failed)
          else Option.map (finish f now real_path dn)
              (replicate_loop source f args.source_remote_path (loop_size args.file_size) fuel 0 [])
    ]
