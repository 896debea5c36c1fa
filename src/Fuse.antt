-- ===== src/Fuse.antt =====
-- The FUSE layer's own functions (internal/fuse/node.go): paths, modes, attributes, inode numbers
-- and error numbers.
pub mod Nodes
pub mod Mount
pub mod Identity
mod Tests
use Prim.Native.Char.{Char, code}
use Prim.Native.Nat.{bit_xor}
use Prim.Native.String
use fstorex.Base.{
  ℕ, ◌+◌, ◌-◌, ◌*◌, ◌/◌, ◌%◌, ◌^◌, String, ◌<>◌, Bool, true, false, ◌||◌, ◌==◌, nat_eq, string_eq,
  if◌then◌else◌,
}
use fstorex.Base.Text.{contains_text}
use fstorex.Types.{ℤ, pos, negsuc, FileInfo}

-- The error numbers that the layer answers with.
pub data Errno : Type 0 where
  enoent eexist enotdir eacces eio : Errno

abbrev pub s_ifdir : ℕ
s_ifdir = 0o040000

abbrev pub s_ifreg : ℕ
s_ifreg = 0o100000

-- `fuse.Attr`, where the layer fills it.
pub record Attr : Type 0 where
  pub mode : ℕ
  pub size : ℕ
  pub mtime : ℕ
  pub nlink : ℕ

-- A conversion of an `int64` to a `uint64`.
abbrev pub as_uint64 : ℤ → ℕ
as_uint64 (pos n) = n
as_uint64 (negsuc n) = 2 ^ 64 - (n + 1)

-- `modeFromInfo`; the two bit sets have no bit in common.
unfoldable pub mode_from_info : FileInfo → ℕ
mode_from_info info = if info.is_dir then s_ifdir + 0o755 else s_ifreg + 0o644

-- `infoToAttr`
unfoldable pub info_to_attr : FileInfo → Attr
unfolding mode_from_info
info_to_attr info = record {
  mode = mode_from_info info;
  size = as_uint64 info.size;
  mtime = info.mod_time / 1_000_000_000;
  nlink = if info.is_dir then 2 else 1;
}

-- `joinPath`
unfoldable pub join_path : String → String → String
join_path parent name = if parent == "/" then "/" <> name else parent <> "/" <> name

-- The loop over the runes of a FileID, in 64 bits.
unfoldable pub hash_runes : ℕ → String → ℕ
hash_runes h String.[] = h
hash_runes h (String.◌∷◌ c s) = hash_runes (bit_xor h (code c) * 1099511628211 % 2 ^ 64) s

-- `inodeFromID`
unfoldable pub inode_from_id : String → String → ℕ
unfolding hash_runes
inode_from_id file_id path =
    if path == "/"
    then 1
    else let h = hash_runes 1469598103934665603 file_id in if h == 0 then 1 else h

-- `errToErrno`
unfoldable pub err_to_errno : String → Errno
err_to_errno msg =
    if contains_text msg "not found" || contains_text msg "no such file"
    then enoent
    else if contains_text msg "already exists"
    then eexist
    else if contains_text msg "is a directory" || contains_text msg "not a directory"
    then enotdir
    else if contains_text msg "permission"
    then eacces
    else eio
