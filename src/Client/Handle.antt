-- ===== src/Client/Handle.antt =====
-- An open file (internal/client/file_handle.go). The calls that the source makes at the same time
-- go to different data nodes, or only read: they stand one behind the other here.
pub mod Reading
pub mod Joined
pub mod Parallel
pub mod Replicas
pub mod Writing
pub mod Updates
pub mod Session
use fstorex.Base.{
  ℕ, zero, suc, ◌+◌, ◌-◌, ◌/◌, ◌%◌, String, ◌<>◌, Bool, true, false, not, ◌&&◌, ◌||◌, Option, none,
  some, List, [], ◌∷◌, ◌++◌, length, ltb, ◌==◌, string_eq, nat_eq, if◌then◌else◌, take, drop,
  get_elem?, map,
}
use fstorex.Base.Text.{decimal}
use fstorex.Types.{ℤ, pos, negsuc, is_negative, ltb_ℤ, int64, Replica, FileLocation}
use fstorex.Metadata.State.{status_pending}
use fstorex.Metadata.Server.{complete_file}
use fstorex.DataNode.Bytes.{Bytes}
use fstorex.Client.World.{World, Net, Result, returns, fails}
use fstorex.Client.Calls.{
  call_mds, range_read_from, partial_write_to, truncate_replica, sync_replica, file_location,
  update_size_at,
}

-- `Client`
pub record Client : Type 0 where
  pub mds_addr : String

-- `FileHandle`
pub record FileHandle : Type 0 where
  pub client : Client
  pub path : String
  pub file_id : String
  pub flags : ℕ
  pub replicas : List Replica
  pub size : ℤ
  pub status : String

-- `minParallelReadSize`
abbrev pub min_parallel_read_size : ℕ
min_parallel_read_size = 4096

-- The buffer of a read, how many bytes it got, and whether the error is `io.EOF`.
pub record ReadOut : Type 0 where
  pub buf : Bytes
  pub count : ℕ
  pub eof : Bool

-- `copy`
abbrev pub copy_into : Bytes → Bytes → Bytes
copy_into buf bytes = take (length buf) bytes ++ drop (length bytes) buf

-- What a successful `rangeRead` makes of a buffer.
abbrev pub filled : Bytes → Bytes × Bool → ReadOut
filled buf (bytes, eof) = record { buf = copy_into buf bytes; count = length bytes; eof = eof }

-- The loop of `readAtSerial` over the replicas that are left.
unfoldable pub serial_from : Net → World → ℕ → Bytes → ℕ → String → List Replica → Result ReadOut
serial_from net w replicas buf off last_err [] =
    fails ("readat: all " <> decimal replicas <> " replicas failed, last error: " <> last_err)
serial_from net w replicas buf off last_err (replica ∷ rest) =
    elim (range_read_from net 0 replica off (length buf) w) [
      | returns got ↦ returns (filled buf got)
      | fails text ↦ serial_from net w replicas buf off text rest
    ]

-- `readAtSerial`
abbrev pub read_at_serial : Net → World → FileHandle → Bytes → ℕ → Result ReadOut
read_at_serial net w fh buf off = serial_from net w (length fh.replicas) buf off "" fh.replicas

-- The loop of `readSegmentWithFailover`: the turns that are left, and the turn.
unfoldable pub segment_tries :
    Net → World → List Replica → Bytes → ℕ → ℕ → ℕ → ℕ → String → Result ReadOut
segment_tries net w replicas buf off start zero k last_err = fails (
    "all " <> decimal (length replicas) <> " replicas failed for segment, last error: " <> last_err)
segment_tries net w replicas buf off start (suc turns) k last_err =
    elim (get_elem? replicas ((start + k) % length replicas)) [
      | none ↦ fails last_err
      | some replica ↦ elim (range_read_from net start replica off (length buf) w) [
        | returns got ↦ returns (filled buf got)
        | fails text ↦ segment_tries net w replicas buf off start turns (k + 1) text
      ]
    ]

-- `readSegmentWithFailover`
abbrev pub read_segment : Net → World → List Replica → Bytes → ℕ → ℕ → Result ReadOut
read_segment net w replicas buf off start =
    segment_tries net w replicas buf off start (length replicas) 0 ""

-- The results of the segments that are left: each takes `seg_size` bytes of the buffer, the last
-- one all that remains.
unfoldable pub segment_results :
    Net → World → List Replica → ℕ → ℕ → ℕ → ℕ → Bytes → List (Result ReadOut)
segment_results net w replicas seg_size zero idx off buf = []
segment_results net w replicas seg_size (suc zero) idx off buf =
    read_segment net w replicas buf off idx ∷ []
segment_results net w replicas seg_size (suc (suc k)) idx off buf =
    read_segment net w replicas (take seg_size buf) off idx
    ∷ segment_results net w replicas seg_size (suc k) (idx + 1) (off + seg_size) (drop seg_size buf)

-- The loop that adds up the results, from a segment on.
unfoldable pub gather : ℕ → List (Result ReadOut) → Result ReadOut
gather i [] = returns (record { buf = []; count = 0; eof = false })
gather i (fails text ∷ results) = fails ("readat: segment " <> decimal i <> " failed: " <> text)
gather i (returns out ∷ results) = elim (gather (i + 1) results) [
  | fails text ↦ fails text
  | returns rest ↦ returns (record {
    buf = out.buf ++ rest.buf;
    count = out.count + rest.count;
    eof = out.eof || rest.eof;
  })
]

-- `readAtParallel`. The offsets are those below 2 ^ 63: that `start` wraps round is left out.
unfoldable pub read_at_parallel : Net → World → FileHandle → Bytes → ℕ → Result ReadOut
unfolding segment_results gather
read_at_parallel net w fh buf off =
    let seg_size = length buf / length fh.replicas in
    if seg_size == 0
    then read_at_serial net w fh buf off
    else elim (gather 0
        (segment_results net w fh.replicas seg_size (length fh.replicas) 0 off buf)) [
          | fails text ↦ fails text
          | returns out ↦ returns (record out { eof = out.eof || ltb out.count (length buf) })
        ]

-- `ReadAt`
unfoldable pub read_at : Net → World → FileHandle → Bytes → ℤ → Result ReadOut
read_at net w fh buf (negsuc n) = fails "readat: negative offset"
read_at net w fh buf (pos off) =
    if length fh.replicas == 0
    then fails ("readat: no replicas for file " <> fh.path)
    else if length buf == 0
    then returns (record { buf = buf; count = 0; eof = false })
    else if length fh.replicas == 1 || ltb (length buf) min_parallel_read_size
    then read_at_serial net w fh buf off
    else read_at_parallel net w fh buf off

-- A call for every replica, and its results.
unfoldable pub on_replicas :
    (Replica → World → World × Result Bool) → List Replica → World → World × List (Result Bool)
on_replicas call [] w = (w, [])
on_replicas call (replica ∷ rest) w =
    let (after, result) = call replica w in
    let (last, results) = on_replicas call rest after in (last, result ∷ results)

unfoldable pub failures : List (Result Bool) → ℕ
failures [] = 0
failures (returns b ∷ results) = failures results
failures (fails text ∷ results) = suc (failures results)

unfoldable pub first_failure : List (Result Bool) → Option String
first_failure [] = none
first_failure (returns b ∷ results) = first_failure results
first_failure (fails text ∷ results) = some text

-- `%w` of the first error, where there is one.
abbrev pub shown : Option String → String
shown none = "%!w(<nil>)"
shown (some text) = text

abbrev pub replicas_failed : String → List (Result Bool) → String
replicas_failed what results =
    what
    <> ": "
    <> decimal (failures results)
    <> "/"
    <> decimal (length results)
    <> " replicas failed, first error: "
    <> shown (first_failure results)

-- `WriteAt`; an error of the update of the size is only logged.
unfoldable pub write_at : Net → FileHandle → Bytes → ℤ → World → (World × FileHandle) × Result ℕ
write_at net fh bytes (negsuc n) w = ((w, fh), fails "writeat: negative offset")
write_at net fh bytes (pos off) w =
    if length fh.replicas == 0
    then ((w, fh), fails ("writeat: no replicas for file " <> fh.path))
    else let (after, results) =
        on_replicas (λ replica. partial_write_to net replica off bytes) fh.replicas w in
      if not (failures results == 0)
      then ((after, fh), fails (replicas_failed "writeat" results))
      else let new_end = int64 (off + length bytes) in
        if ltb_ℤ fh.size new_end
        then (
          (
            (update_size_at net fh.client.mds_addr fh.path new_end after).0,
            record fh { size = new_end },
          ),
          returns (length bytes),
        )
        else ((after, fh), returns (length bytes))

-- `truncateAllReplicas`
unfoldable pub truncate_all_replicas : Net → String → String → ℤ → World → World × Result Bool
truncate_all_replicas net mds_addr path size w = elim (file_location net mds_addr path w) [
  | fails text ↦ (w, fails text)
  | returns loc ↦
      let (after, results) =
        on_replicas (λ replica. truncate_replica net replica size) loc.replicas w in
      (after, elim (first_failure results) [ none ↦ returns true | some text ↦ fails text ])
]

-- `Truncate`
unfoldable pub truncate_handle : Net → FileHandle → ℤ → World → (World × FileHandle) × Result Bool
truncate_handle net fh size w =
    if is_negative size
    then ((w, fh), fails "truncate: negative size")
    else let (cut, result) = truncate_all_replicas net fh.client.mds_addr fh.path size w in
      elim result [
        | fails text ↦ ((cut, fh), fails ("truncate: replica truncate failed: " <> text))
        | returns b ↦
            let (after, updated) = update_size_at net fh.client.mds_addr fh.path size cut in
            elim updated [
              | fails text ↦ ((after, fh), fails ("truncate: update size failed: " <> text))
              | returns b ↦ ((after, record fh { size = size }), returns true)
            ]
      ]

-- `CompleteFile`
unfoldable pub complete_file_at : Net → String → String → World → World × Result Bool
complete_file_at net mds_addr path w =
    let (after, result) =
      call_mds net "MetadataService.CompleteFile" (λ raft. complete_file raft path) mds_addr w in
    (
      after,
      elim result [ fails text ↦ fails ("complete file failed: " <> text) | returns b ↦ returns b ],
    )

-- `Close`
unfoldable pub close : Net → FileHandle → World → World × Result Bool
close net fh w =
    if not (fh.status == status_pending)
    then (w, returns true)
    else let (after, result) = complete_file_at net fh.client.mds_addr fh.path w in
      (
        after,
        elim result [
          | fails text ↦ fails ("close: complete file failed: " <> text)
          | returns b ↦ returns true
        ],
      )

-- `Sync`
unfoldable pub sync_handle : Net → FileHandle → World → Result Bool
sync_handle net fh w =
    let results = map (λ replica. sync_replica net replica w) fh.replicas in
    if not (failures results == 0) then fails (replicas_failed "sync" results) else returns true
