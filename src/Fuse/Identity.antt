-- ===== src/Fuse/Identity.antt =====
-- Inode numbers: their range, and that they follow a file.
use Prim.Native.Char.{code}
use Prim.Native.Nat.{bit_xor}
use native.Mathlib.Nat.{mod-lt}
use fstorex.Base.{
  ℕ, ◌*◌, ◌%◌, ◌^◌, ◌<◌, String, ◌≡◌, ◌≢◌, refl, true, none, some, arith, nat_eq, string_eq,
}
use fstorex.Types.{FileInfo, Time}
use fstorex.Metadata.Tree.{Entry, attrs, is_dir}
use fstorex.Metadata.State.{CommandPayload, MetadataServer}
use fstorex.Metadata.Apply.{lookup}
use fstorex.Metadata.Rename.{renamed, apply_rename}
use fstorex.Metadata.Rename.Outcome.{rename-moves}
use fstorex.Metadata.Server.{answer, stat}
use fstorex.Fuse.{hash_runes, inode_from_id}

abbrev stat_info : String → Entry → FileInfo
stat_info path e = record {
  name = (attrs e).name;
  path = path;
  is_dir = is_dir e;
  size = (attrs e).size;
  mode = (attrs e).mode;
  created_at = (attrs e).created_at;
  mod_time = (attrs e).mod_time;
  file_id = (attrs e).file_id;
}

stat-info :
    (path : String) (mds : MetadataServer) (e : Entry)
    → lookup mds path ≡ some e
    → stat path mds ≡ answer (stat_info path e)
unfolding stat
stat-info path mds e here = ground (arith, here)

hash_runes-lt : (h : ℕ) (s : String) → h < 2 ^ 64 → hash_runes h s < 2 ^ 64
unfolding hash_runes
hash_runes-lt h String.[] small = small
hash_runes-lt h (String.◌∷◌ c s) small =
    hash_runes-lt (bit_xor h (code c) * 1099511628211 % 2 ^ 64) s
      (mod-lt (bit_xor h (code c) * 1099511628211) (omega arith))

-- An inode number is never 0 and fits into 64 bits.
pub inode_from_id-bounds :
    (file_id path : String)
    → (0 < inode_from_id file_id path) × (inode_from_id file_id path < 2 ^ 64)
unfolding inode_from_id
inode_from_id-bounds file_id path =
    ground (arith, hash_runes-lt 1469598103934665603 file_id (omega arith))

-- A rename that succeeds keeps a file's or directory's inode number, FileID and size: `Stat` gives
-- at the new path what it has given at the old one, but for the name, the path and the time of the
-- modification. The root is a directory, and neither path is
-- its path.
pub rename-keeps_inode :
    (p : CommandPayload) (now : Time) (mds : MetadataServer)
    → is_dir mds.root ≡ true
    → (apply_rename p now mds).1 ≡ none
    → p.path ≢ "/"
    → p.dst_path ≢ "/"
    → (before after : FileInfo) × (stat p.path mds ≡ answer before)
      × (stat p.dst_path (apply_rename p now mds).0 ≡ answer after)
      × (inode_from_id after.file_id p.dst_path ≡ inode_from_id before.file_id p.path)
      × (after ≡ record before { name = after.name; path = p.dst_path; mod_time = now })
unfolding inode_from_id
rename-keeps_inode p now mds rooted renames src_below dst_below =
    let (dir, name, e, parts, here, there) = rename-moves p now mds rooted renames in
    (
      stat_info p.path e,
      stat_info p.dst_path (renamed name now e),
      stat-info p.path mds e here,
      stat-info p.dst_path (apply_rename p now mds).0 (renamed name now e) there,
      ground (arith, src_below, dst_below),
      refl,
    )
