-- ===== src/DataNode/Service/Ranges.antt =====
-- Reads of ranges, and what writes and truncations leave for them.
use fstorex.Base.{
  ℕ, suc, String, ◌+◌, ◌≡◌, refl, true, ◌&&◌, Option, none, some, [], ◌∷◌, arith, string_eq,
  if◌then◌else◌, Option-cases, inl, inr, zero, ==_refl, length, get_elem?, ltb, max,
}
use fstorex.Base.Dict.{lookup, insert, lookup-insert}
use fstorex.Types.{Time, pos}
use fstorex.DataNode.Bytes.{Bytes, read_at, resize}
use fstorex.DataNode.Bytes.Laws.{
  after_write, get_elem?-read_at, length-read_at, get_elem?-overwrite, get_elem?-resize,
  length-overwrite, length-resize,
}
use fstorex.DataNode.Paths.{resolve_path}
use fstorex.DataNode.Disk.{File, DataNode, Faults, no_faults, ok}
use fstorex.DataNode.Service.{
  RangeReadReply, PartialWriteArgs, TruncateArgs, range_read, partial_write, truncate, opened,
  written, on_disk,
}

-- The read of a range of a file answers with the bytes `byte`, in a file of `size` bytes.
abbrev pub Reads : DataNode → String → (ℕ → Option ℕ) → ℕ → Type 0
Reads dn path byte size =
    (off len : ℕ)
    → (reply : RangeReadReply) × (range_read no_faults
          (record { path = path; offset = pos off; length = pos len }) dn
        ≡ ok reply)
      × ((i : ℕ) → get_elem? reply.bytes i ≡ (if ltb i len then byte (off + i) else none))
      × (reply.eof ≡ ltb 0 len && ltb size (off + len))

-- A read of any range of a file on the disk finds the file's bytes there, and reports the end of
-- the file exactly where a range that is not empty goes beyond it.
pub range_read-Reads :
    (path real_path : String) (file : File) (dn : DataNode)
    → resolve_path dn.data_dir path ≡ some real_path
    → lookup real_path dn.disk ≡ some file
    → Reads dn path (get_elem? file.content) (length file.content)
unfolding range_read
range_read-Reads path real_path file dn here there off len = (
  record {
    bytes = read_at file.content off len;
    eof = ltb (length (read_at file.content off len)) len;
  },
  ground (arith, here, there),
  (λ i. get_elem?-read_at file.content off len i),
  ground (arith, length-read_at file.content off len),
)

-- The bytes of a file after a write of any bytes.
abbrev pub byte_after : Bytes → ℕ → Bytes → ℕ → Option ℕ
byte_after content off [] i = get_elem? content i
byte_after content off (b ∷ bs) i = after_write content off (b ∷ bs) i

abbrev pub size_after : Bytes → ℕ → Bytes → ℕ
size_after content off [] = length content
size_after content off (b ∷ bs) = max (length content) (off + length (b ∷ bs))

Reads-congr :
    (dn : DataNode) (path : String) (byte byte' : ℕ → Option ℕ) (size size' : ℕ)
    → ((i : ℕ) → byte i ≡ byte' i)
    → size ≡ size'
    → Reads dn path byte size
    → Reads dn path byte' size'
Reads-congr dn path byte byte' size size' same_byte same_size reads off len =
    let (reply, answered, bytes, eof) = reads off len in
    (
      reply,
      answered,
      (λ i. ground (arith, bytes i, same_byte (off + i))),
      ground (arith, eof, same_size),
    )

get_elem?-written :
    (now : Time) (off : ℕ) (bs : Bytes) (file : File) (i : ℕ)
    → get_elem? (written now off bs file).content i ≡ byte_after file.content off bs i
get_elem?-written now off [] file i = refl
get_elem?-written now off (b ∷ bs) file i = get_elem?-overwrite file.content off (b ∷ bs) i

length-written :
    (now : Time) (off : ℕ) (bs : Bytes) (file : File)
    → length (written now off bs file).content ≡ size_after file.content off bs
length-written now off [] file = refl
length-written now off (b ∷ bs) file = length-overwrite file.content off (b ∷ bs)

abbrev pub write_args : String → ℕ → Bytes → PartialWriteArgs
write_args path off bs = record { path = path; offset = pos off; bytes = bs }

pub partial_write-disk :
    (f : Faults) (now : Time) (path real_path : String) (off : ℕ) (bs : Bytes) (dn : DataNode)
    → resolve_path dn.data_dir path ≡ some real_path
    → (partial_write f now (write_args path off bs) dn).1 ≡ ok true
    → (partial_write f now (write_args path off bs) dn).0
      ≡ on_disk dn (insert real_path (written now off bs (opened now real_path dn.disk)) dn.disk)
unfolding partial_write
partial_write-disk f now path real_path off bs dn here wrote = ground (arith, here, wrote)

-- After a write of a range that succeeds, a read of any range of the path finds the written bytes
-- in it, the earlier bytes elsewhere, and zeros between the earlier end and the write.
pub partial_write-Reads :
    (f : Faults) (now : Time) (path real_path : String) (off : ℕ) (bs : Bytes) (dn : DataNode)
    → resolve_path dn.data_dir path ≡ some real_path
    → (partial_write f now (write_args path off bs) dn).1 ≡ ok true
    → Reads
        (partial_write f now (write_args path off bs) dn).0
        path
        (byte_after (opened now real_path dn.disk).content off bs)
        (size_after (opened now real_path dn.disk).content off bs)
partial_write-Reads f now path real_path off bs dn here wrote =
    let file : File = opened now real_path dn.disk in
    let new : File = written now off bs file in
    rw (partial_write-disk f now path real_path off bs dn here wrote) (
      Reads-congr (on_disk dn (insert real_path new dn.disk)) path (get_elem? new.content)
        (byte_after file.content off bs) (length new.content) (size_after file.content off bs)
        (get_elem?-written now off bs file) (length-written now off bs file)
        (range_read-Reads path real_path new (on_disk dn (insert real_path new dn.disk)) here
          (ground (arith, lookup-insert real_path real_path new dn.disk, ==_refl real_path))))

-- A byte of a file of a new size.
abbrev pub byte_resized : Bytes → ℕ → ℕ → Option ℕ
byte_resized content size i =
    if ltb i size then if ltb i (length content) then get_elem? content i else some 0 else none

abbrev pub truncate_args : String → ℕ → TruncateArgs
truncate_args path size = record { path = path; size = pos size }

pub truncate-lookup :
    (f : Faults) (now : Time) (path real_path : String) (size : ℕ) (dn : DataNode)
    → resolve_path dn.data_dir path ≡ some real_path
    → (truncate f now (truncate_args path size) dn).1 ≡ ok true
    → ((truncate f now (truncate_args path size) dn).0.data_dir ≡ dn.data_dir)
      × (lookup real_path (truncate f now (truncate_args path size) dn).0.disk
          ≡ some (record {
            content = resize (opened now real_path dn.disk).content size;
            mod_time = now;
          }))
unfolding truncate
truncate-lookup f now path real_path zero dn here cut =
    elim (Option-cases (lookup real_path dn.disk)) [
      | inl gone ↦ ground (arith, here, cut, gone)
      | inr (file, there) ↦ ground (
        arith,
        here,
        cut,
        there,
        ==_refl real_path,
        lookup-insert real_path real_path
            (record { content = resize file.content 0; mod_time = now }) dn.disk,
      )
    ]
truncate-lookup f now path real_path (suc n) dn here cut =
    let old : File = opened now real_path dn.disk in
    let new : File = record { content = resize old.content (suc n); mod_time = now } in
    ground (
      arith,
      here,
      cut,
      ==_refl real_path,
      lookup-insert real_path real_path old dn.disk,
      lookup-insert real_path real_path new (insert real_path old dn.disk),
    )

-- After a truncation that succeeds, a read of any range of the path finds a file of the new size,
-- with the earlier bytes up to it, and zeros where there were none.
pub truncate-Reads :
    (f : Faults) (now : Time) (path real_path : String) (size : ℕ) (dn : DataNode)
    → resolve_path dn.data_dir path ≡ some real_path
    → (truncate f now (truncate_args path size) dn).1 ≡ ok true
    → Reads
        (truncate f now (truncate_args path size) dn).0
        path
        (byte_resized (opened now real_path dn.disk).content size)
        size
truncate-Reads f now path real_path size dn here cut =
    let old : Bytes = (opened now real_path dn.disk).content in
    let (same_dir, there) = truncate-lookup f now path real_path size dn here cut in
    Reads-congr (truncate f now (truncate_args path size) dn).0 path (get_elem? (resize old size))
      (byte_resized old size) (length (resize old size)) size (get_elem?-resize old size)
      (length-resize old size)
      (range_read-Reads path real_path (record { content = resize old size; mod_time = now })
        (truncate f now (truncate_args path size) dn).0 (ground (arith, same_dir, here)) there)
