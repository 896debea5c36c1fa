-- ===== src/DataNode/Service.antt =====
-- The handlers of the data service (internal/datanode/datanode.go). Each takes the faults of its
-- run, and one that writes takes the time and returns the state that it leaves.
pub mod Store
pub mod Ranges
pub mod Untouched
use fstorex.Base.{
  ℕ, zero, suc, String, ◌<>◌, Bool, true, false, ◌&&◌, Option, none, some, List, [], ◌∷◌, ltb, ◌==◌,
  string_eq, if◌then◌else◌, length, take,
}
use fstorex.Base.Text
use fstorex.Base.Dict.{lookup, insert, erase}
use fstorex.Types.{ℤ, pos, negsuc, Time, NodeFile}
use fstorex.DataNode.Bytes.{Bytes, read_at, write_at, resize}
use fstorex.DataNode.Paths.{resolve_path}
use fstorex.DataNode.Disk.{
  File, Disk, DataNode, Faults, DataError, invalid_path, create_parent_failed, write_failed,
  rename_failed, data_not_found, read_failed, delete_failed, open_failed, truncate_failed,
  sync_failed, walk_failed, Reply, ok, err, panicked,
}

-- `StoreArgs`
pub record StoreArgs : Type 0 where
  pub path : String
  pub content : Bytes

-- `RangeReadArgs`
pub record RangeReadArgs : Type 0 where
  pub path : String
  pub offset : ℤ
  pub length : ℤ

-- `RangeReadReply`
pub record RangeReadReply : Type 0 where
  pub bytes : Bytes
  pub eof : Bool

-- `PartialWriteArgs`
pub record PartialWriteArgs : Type 0 where
  pub path : String
  pub offset : ℤ
  pub bytes : Bytes

-- `TruncateArgs`
pub record TruncateArgs : Type 0 where
  pub path : String
  pub size : ℤ

abbrev pub Served : Type 0
Served = DataNode × Reply Bool

abbrev pub on_disk : DataNode → Disk → DataNode
on_disk dn disk = record dn { disk = disk }

abbrev pub refused : DataNode → DataError → Served
refused dn e = (dn, err e)

abbrev pub temporary : String → String
temporary real_path = real_path <> ".tmp"

-- `StoreData`: the content goes to a temporary file, which then takes the file's name.
unfoldable pub store_data : Faults → Time → StoreArgs → DataNode → Served
store_data f now args dn = elim (resolve_path dn.data_dir args.path) [
  | none ↦ refused dn (invalid_path args.path)
  | some real_path ↦
      let tmp_path = temporary real_path in
      let with_tmp = λ (content : Bytes).
        insert tmp_path (record { content = content; mod_time = now }) dn.disk in
      if f.mkdir
      then refused dn create_parent_failed
      else if f.open_file
      then refused dn write_failed
      else if f.write
      then refused (on_disk dn (with_tmp (take f.kept args.content))) write_failed
      else if f.rename
      then refused
          (on_disk dn
            (if f.remove then with_tmp args.content else erase tmp_path (with_tmp args.content)))
          rename_failed
      else (
        on_disk dn (
            insert real_path (record { content = args.content; mod_time = now })
              (erase tmp_path (with_tmp args.content))),
        ok true,
      )
]

-- `GetData`
unfoldable pub get_data : Faults → String → DataNode → Reply Bytes
get_data f path dn = elim (resolve_path dn.data_dir path) [
  | none ↦ err (invalid_path path)
  | some real_path ↦ if f.open_file then err read_failed else elim (lookup real_path dn.disk) [
    | none ↦ err (data_not_found path)
    | some file ↦ if f.read then err read_failed else ok file.content
  ]
]

-- `DeleteData`
unfoldable pub delete_data : Faults → String → DataNode → Served
delete_data f path dn = elim (resolve_path dn.data_dir path) [
  | none ↦ refused dn (invalid_path path)
  | some real_path ↦
      if f.remove then refused dn delete_failed else elim (lookup real_path dn.disk) [
        | none ↦ (dn, ok true)
        | some file ↦ (on_disk dn (erase real_path dn.disk), ok true)
      ]
]

-- `HealthCheck`
abbrev pub health_check : Reply Bool
health_check = ok true

-- What the walk of `ListAllPaths` appends for a file of the disk.
unfoldable pub listed : String → String → File → Option NodeFile
listed data_dir real_path file = elim (Text.strip_prefix real_path (data_dir <> "/")) [
  | none ↦ none
  | some rel ↦
      if Text.has_suffix real_path ".tmp"
      then none
      else some (record { path = "/" <> rel; mod_time = file.mod_time })
]

unfoldable pub listing : String → Disk → List NodeFile
listing data_dir [] = []
listing data_dir ((real_path, file) ∷ disk) = elim (listed data_dir real_path file) [
  | none ↦ listing data_dir disk
  | some node_file ↦ node_file ∷ listing data_dir disk
]

-- `ListAllPaths`
unfoldable pub list_all_paths : Faults → DataNode → Reply (List NodeFile)
list_all_paths f dn = if f.walk then err walk_failed else ok (listing dn.data_dir dn.disk)

-- `RangeRead`. A buffer of a negative length panics, and so does one of a length for which there is
-- no memory, the fault `buffer`.
unfoldable pub range_read : Faults → RangeReadArgs → DataNode → Reply RangeReadReply
range_read f args dn = elim (resolve_path dn.data_dir args.path) [
  | none ↦ err (invalid_path args.path)
  | some real_path ↦ if f.open_file then err open_failed else elim (lookup real_path dn.disk) [
    | none ↦ ok (record { bytes = []; eof = true })
    | some file ↦ elim args.length [
      | negsuc n ↦ panicked
      | pos len ↦ if f.buffer then panicked else elim args.offset [
        | negsuc n ↦ err read_failed
        | pos off ↦
            if f.read && ltb 0 len
            then err read_failed
            else let found = read_at file.content off len in
              ok (record { bytes = found; eof = ltb (length found) len })
      ]
    ]
  ]
]

-- `os.OpenFile` with `O_CREATE`: the file, an empty one where there was none.
abbrev pub opened : Time → String → Disk → File
opened now real_path disk = elim (lookup real_path disk) [
  | none ↦ record { content = []; mod_time = now }
  | some file ↦ file
]

-- The file after a `WriteAt`.
abbrev pub written : Time → ℕ → Bytes → File → File
written now off [] file = file
written now off (b ∷ bs) file = record {
  content = write_at file.content off (b ∷ bs);
  mod_time = now;
}

-- `PartialWrite`
unfoldable pub partial_write : Faults → Time → PartialWriteArgs → DataNode → Served
partial_write f now args dn = elim (resolve_path dn.data_dir args.path) [
  | none ↦ refused dn (invalid_path args.path)
  | some real_path ↦
      let file = opened now real_path dn.disk in
      let stored = λ (file : File). on_disk dn (insert real_path file dn.disk) in
      if f.mkdir
      then refused dn create_parent_failed
      else if f.open_file
      then refused dn open_failed
      else elim args.offset [
        | negsuc n ↦ refused (stored file) write_failed
        | pos off ↦
            if f.write && ltb 0 (length args.bytes)
            then refused (stored (written now off (take f.kept args.bytes) file)) write_failed
            else (stored (written now off args.bytes file), ok true)
      ]
]

-- `os.Truncate` behind the creation of the file, on the disk that this leaves.
abbrev pub truncate_existing : Faults → Time → ℤ → String → DataNode → Served
truncate_existing f now size real_path dn = elim (lookup real_path dn.disk) [
  | none ↦ refused dn truncate_failed
  | some file ↦ elim size [
    | negsuc n ↦ refused dn truncate_failed
    | pos n ↦ if f.truncate then refused dn truncate_failed else (
      on_disk dn
          (insert real_path (record { content = resize file.content n; mod_time = now }) dn.disk),
      ok true,
    )
  ]
]

-- `Truncate`
unfoldable pub truncate : Faults → Time → TruncateArgs → DataNode → Served
truncate f now args dn = elim (resolve_path dn.data_dir args.path) [
  | none ↦ refused dn (invalid_path args.path)
  | some real_path ↦ elim args.size [
    | negsuc n ↦ truncate_existing f now (negsuc n) real_path dn
    | pos zero ↦ truncate_existing f now (pos zero) real_path dn
    | pos (suc n) ↦
        if f.mkdir
        then refused dn create_parent_failed
        else if f.open_file
        then refused dn open_failed
        else truncate_existing f now (pos (suc n)) real_path
            (on_disk dn (insert real_path (opened now real_path dn.disk) dn.disk))
  ]
]

-- `Sync`
unfoldable pub sync : Faults → String → DataNode → Reply Bool
sync f path dn = elim (resolve_path dn.data_dir path) [
  | none ↦ err (invalid_path path)
  | some real_path ↦ if f.open_file then err open_failed else elim (lookup real_path dn.disk) [
    | none ↦ err (data_not_found path)
    | some file ↦ if f.sync then err sync_failed else ok true
  ]
]
