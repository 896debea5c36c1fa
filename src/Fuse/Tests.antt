-- ===== src/Fuse/Tests.antt =====
-- A file that is renamed keeps its inode number.
use mathlib.Core.Bool.{false≢true}
use fstorex.Base.{◌≡◌, ◌≢◌, refl, ap, ◌==◌, String, false, none, [], string_eq, nat_eq}
use fstorex.Base.Text.{strip_prefix, trim_prefix, trim_suffix, split}
use fstorex.Types.{pos, FileInfo}
use fstorex.Metadata.Paths.{split_path}
use fstorex.Metadata.Tree.{entry, empty, bind, find, put, remove, walk_dirs, modify}
use fstorex.Metadata.State.{
  CommandPayload, no_payload, MetadataServer, new_metadata_server, root_attrs, status_complete,
  mode_file, op_rename,
}
use fstorex.Metadata.Apply.{split_last}
use fstorex.Metadata.Rename.{meets_source, move, rename_parts, apply_rename}
use fstorex.Metadata.Server.{answer, stat}
use fstorex.Fuse.{inode_from_id}
use fstorex.Fuse.Identity.{rename-keeps_inode}

abbrev server : MetadataServer
server = record (new_metadata_server 1 1) {
  root = entry (root_attrs 1 1) (
      bind "f"
        (entry
          (record {
            name = "f";
            is_dir = false;
            size = pos 3;
            mode = mode_file;
            created_at = 1;
            mod_time = 1;
            status = status_complete;
            file_id = "1";
            replicas = [];
          })
          empty)
        empty);
}

abbrev to_g : CommandPayload
to_g = record no_payload { op = op_rename; path = "/f"; dst_path = "/g" }

renamed_ok : (apply_rename to_g 4 server).1 ≡ none
unfolding apply_rename rename_parts move meets_source split_last split_path trim_prefix trim_suffix
    strip_prefix split find put remove walk_dirs modify string_eq nat_eq
renamed_ok = refl

below_root : ◌≢◌ {A = String} "/f" "/"
unfolding string_eq
below_root p = false≢true (ap (λ s. s == "/") p)

still_below_root : ◌≢◌ {A = String} "/g" "/"
unfolding string_eq
still_below_root p = false≢true (ap (λ s. s == "/") p)

rename-keeps_inode_example :
    (before after : FileInfo) × (stat "/f" server ≡ answer before)
    × (stat "/g" (apply_rename to_g 4 server).0 ≡ answer after)
    × (inode_from_id after.file_id "/g" ≡ inode_from_id before.file_id "/f")
    × (after ≡ record before { name = after.name; path = "/g"; mod_time = 4 })
rename-keeps_inode_example =
    rename-keeps_inode to_g 4 server refl renamed_ok below_root still_below_root
