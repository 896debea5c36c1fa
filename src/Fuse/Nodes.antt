-- ===== src/Fuse/Nodes.antt =====
-- The callbacks of inodes and of open files (internal/fuse/node.go, internal/fuse/file_handle.go).
-- What go-fuse keeps of its own, the tree of inodes and the timeouts, is left out: a callback gives
-- what it hands over to the library.
use Prim.Native.Nat.{bit_and, bit_or}
use fstorex.Base.{
  ℕ, ◌-◌, ◌+◌, ◌%◌, ◌^◌, String, Bool, Option, none, some, List, map, ◌==◌, nat_eq, if◌then◌else◌,
  take,
}
use fstorex.Types.{ℤ, FileInfo}
use fstorex.DataNode.Bytes.{Bytes}
use fstorex.Client.World.{World, Net, Result, returns, fails}
use fstorex.Client.Handle.{
  FileHandle, ReadOut, read_at, write_at, truncate_handle, sync_handle, close,
}
use fstorex.Client.Files.{stat_at, list_dir_at, mkdir_path, delete_path, rename_path}
use fstorex.Client.Open.{o_creat, o_trunc, open_file}
use fstorex.Fuse.{
  Errno, eio, Attr, s_ifdir, s_ifreg, mode_from_info, info_to_attr, join_path, inode_from_id,
  err_to_errno,
}

-- A callback's value, or its error number.
pub data Outcome {ℓ} (A : Type ℓ) : Type ℓ where
  fine : A → Outcome A
  errno : Errno → Outcome A

-- A client's error becomes an error number.
abbrev pub outcome {ℓ κ} : {A : Type ℓ} {B : Type κ} → (A → B) → Result A → Outcome B
outcome f (returns a) = fine (f a)
outcome f (fails text) = errno (err_to_errno text)

-- An error of an open file.
abbrev pub outcome_eio {ℓ κ} : {A : Type ℓ} {B : Type κ} → (A → B) → Result A → Outcome B
outcome_eio f (returns a) = fine (f a)
outcome_eio f (fails text) = errno eio

-- A child that a callback has found or made.
pub record Child : Type 0 where
  pub path : String
  pub mode : ℕ
  pub ino : ℕ
  pub attr : Attr

pub record DirEntry : Type 0 where
  pub name : String
  pub mode : ℕ
  pub ino : ℕ

abbrev pub new_attr : ℕ → ℕ → Attr
new_attr mode nlink = record { mode = mode; size = 0; mtime = 0; nlink = nlink }

-- `Getattr`
unfoldable pub getattr : Net → String → String → World → Outcome Attr
getattr net mds_addr path w = outcome info_to_attr (stat_at net mds_addr path w)

-- The child that `Lookup` gives.
abbrev pub child_of : String → FileInfo → Child
child_of path info = record {
  path = path;
  mode = mode_from_info info;
  ino = inode_from_id info.file_id path;
  attr = info_to_attr info;
}

-- `Lookup`
unfoldable pub lookup_child : Net → String → String → String → World → Outcome Child
lookup_child net mds_addr path name w =
    let child_path = join_path path name in
    outcome (child_of child_path) (stat_at net mds_addr child_path w)

-- `Readdir`
unfoldable pub readdir : Net → String → String → World → Outcome (List DirEntry)
readdir net mds_addr path w =
    let entry_of : FileInfo → DirEntry = λ info. record {
      name = info.name;
      mode = mode_from_info info;
      ino = inode_from_id info.file_id (join_path path info.name);
    } in
    outcome (map entry_of) (list_dir_at net mds_addr path w)

-- `flags &^ syscall.O_APPEND`, in 32 bits.
abbrev pub without_append : ℕ → ℕ
without_append flags = bit_and flags (2 ^ 32 - 1 - 0x400)

-- `Open`
unfoldable pub open_node : Net → String → String → ℕ → World → World × Outcome (FileHandle × ℕ)
open_node net mds_addr path flags w =
    let (after, result) = open_file net mds_addr path flags w in
    (after, outcome (λ fh. (fh, without_append flags)) result)

-- The flags of `Create`.
unfoldable pub create_flags : ℕ → ℕ
create_flags flags =
    let made = bit_or (bit_or flags o_creat) o_trunc in
    if made % 4 == 0 then bit_or made 2 else made

-- `Create`
unfoldable pub create_node :
    Net → String → String → String → ℕ → World → World × Outcome (Child × FileHandle × ℕ)
create_node net mds_addr path name flags w =
    let child_path = join_path path name in
    let (after, result) = open_file net mds_addr child_path (create_flags flags) w in
    (
      after,
      outcome
          (λ fh. (
            record {
              path = child_path;
              mode = s_ifreg + 0o644;
              ino = inode_from_id fh.file_id child_path;
              attr = new_attr (s_ifreg + 0o644) 1;
            },
            fh,
            without_append flags,
          ))
          result,
    )

-- `Mkdir`
unfoldable pub mkdir_node : Net → String → String → String → World → World × Outcome Child
mkdir_node net mds_addr path name w =
    let child_path = join_path path name in
    let (after, result) = mkdir_path net mds_addr child_path w in
    elim result [
      | fails text ↦ (after, errno (err_to_errno text))
      | returns b ↦ (
        after,
        outcome
            (λ (info : FileInfo). record {
              path = child_path;
              mode = s_ifdir + 0o755;
              ino = inode_from_id info.file_id child_path;
              attr = new_attr (s_ifdir + 0o755) 2;
            })
            (stat_at net mds_addr child_path after),
      )
    ]

-- `Unlink`
unfoldable pub unlink : Net → String → String → String → World → World × Outcome Bool
unlink net mds_addr path name w =
    let (after, result) = delete_path net mds_addr (join_path path name) w in
    (after, outcome (λ b. b) result)

-- `Rename`, for a new parent that is a node of this layer.
unfoldable pub rename_node :
    Net → String → String → String → String → String → World → World × Outcome Bool
rename_node net mds_addr path name new_parent new_name w =
    let (after, result) =
      rename_path net mds_addr (join_path path name) (join_path new_parent new_name) w in
    (after, outcome (λ b. b) result)

-- The end of `Setattr`.
abbrev pub sized : Net → String → String → World × Result Bool → World × Outcome Attr
sized net mds_addr path (after, fails text) = (after, errno (err_to_errno text))
sized net mds_addr path (after, returns b) = (after, getattr net mds_addr path after)

-- `Setattr`: the new size, if one is asked for, as an `int64`, and the open file, if there is one,
-- which it leaves changed. The handle of a truncation by path is closed behind the answer.
unfoldable pub setattr :
    Net
    → String
    → String
    → Option FileHandle
    → Option ℤ
    → World
    → (World × Option FileHandle) × Outcome Attr
setattr net mds_addr path fh none w = ((w, fh), getattr net mds_addr path w)
setattr net mds_addr path (some fh) (some size) w =
    let ((after, cut), result) = truncate_handle net fh size w in
    let (last, out) = sized net mds_addr path (after, result) in ((last, some cut), out)
setattr net mds_addr path none (some size) w =
    let (opened, made) = open_file net mds_addr path 2 w in
    elim made [
      | fails text ↦ ((opened, none), errno (err_to_errno text))
      | returns fh ↦
          let ((after, cut), result) = truncate_handle net fh size opened in
          let (last, out) = sized net mds_addr path (after, result) in
          (((close net cut last).0, none), out)
    ]

-- `Read`: what is read of the buffer; the end of the file is no error.
unfoldable pub read_file : Net → World → FileHandle → Bytes → ℤ → Outcome Bytes
read_file net w fh dest off =
    outcome_eio (λ (out : ReadOut). take out.count out.buf) (read_at net w fh dest off)

-- `Write`, with the number of bytes as a `uint32`.
unfoldable pub write_file : Net → FileHandle → Bytes → ℤ → World → (World × FileHandle) × Outcome ℕ
write_file net fh bytes off w =
    let (after, result) = write_at net fh bytes off w in
    (after, outcome_eio (λ n. n % 2 ^ 32) result)

-- `Fsync`
unfoldable pub fsync : Net → FileHandle → World → Outcome Bool
fsync net fh w = outcome_eio (λ b. b) (sync_handle net fh w)

-- `Release`
unfoldable pub release : Net → FileHandle → World → World × Outcome Bool
release net fh w = let (after, result) = close net fh w in (after, outcome_eio (λ b. b) result)
