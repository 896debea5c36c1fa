-- ===== src/Client/Open.antt =====
-- `Open` (internal/client/client.go).
pub mod Opening
use fstorex.Base.{
  ℕ, zero, suc, ◌+◌, ◌-◌, ◌/◌, ◌%◌, String, ◌<>◌, Bool, true, false, not, ◌&&◌, ◌||◌, Option, none,
  some, List, [], ◌∷◌, length, ltb, ◌==◌, string_eq, nat_eq, if◌then◌else◌,
}
use fstorex.Base.Text.{decimal}
use fstorex.Base.Text
use fstorex.Types.{
  ℤ, pos, Replica, FileInfo, FileLocation, CreateMode, create_if_not_exist, CreateFileArgs,
  DeleteReply, RenameArgs,
}
use fstorex.Metadata.State.{MetadataServer, status_pending, status_recovering}
use fstorex.Metadata.Server.{
  Raft, Handled, answer, as_leader, mkdir, create_file, delete, rename, stat, get_file_location,
}
use fstorex.Metadata.Listing.{list_dir, list_data_nodes}
use fstorex.DataNode.Bytes.{Bytes}
use fstorex.DataNode.Service.{store_data, get_data, delete_data}
use fstorex.Client.World.{World, Net, Result, returns, fails}
use fstorex.Client.Calls.{call_mds, ask_mds, call_node, ask_node, file_location, update_size_at}
use fstorex.Client.Handle.{
  Client, FileHandle, on_replicas, failures, first_failure, shown, truncate_all_replicas,
  complete_file_at,
}
use fstorex.Client.Files.{create_at, stat_at}

abbrev pub o_creat : ℕ
o_creat = 0x40

abbrev pub o_excl : ℕ
o_excl = 0x80

abbrev pub o_trunc : ℕ
o_trunc = 0x200

-- `flags&flag != 0`, for a flag of one bit.
unfoldable pub has_flag : ℕ → ℕ → Bool
has_flag flags flag = flags / flag % 2 == 1

-- `flags&(O_WRONLY|O_RDWR) != 0`
unfoldable pub for_writing : ℕ → Bool
for_writing flags = not (flags % 4 == 0)

-- The end of `Open`: the location, the recovering check, and the handle. The replicas and the
-- status are those of a new file, or empty.
unfoldable pub handle_at :
    Net → String → String → ℕ → List Replica → ℤ → String → World → Result FileHandle
handle_at net mds_addr path flags replicas size status w =
    elim (file_location net mds_addr path w) [
      | fails text ↦ fails ("open: get location failed: " <> text)
      | returns loc ↦
          let found = if status == "" then loc.status else status in
          if found == status_recovering && for_writing flags
          then fails ("open: file is recovering, write not allowed: " <> path)
          else returns (record {
            client = record { mds_addr = mds_addr };
            path = path;
            file_id = loc.file_id;
            flags = flags;
            replicas = elim replicas [ [] ↦ loc.replicas | r ∷ rs ↦ r ∷ rs ];
            size = size;
            status = found;
          })
    ]

-- The branch of `Open` for a path that is not there.
unfoldable pub open_new : Net → String → String → ℕ → World → World × Result FileHandle
open_new net mds_addr path flags w =
    if not (has_flag flags o_creat)
    then (w, fails ("open: no such file or directory: " <> path))
    else let (after, result) =
        create_at net mds_addr
          (record { path = path; size = pos 0; create_mode = create_if_not_exist }) w in
      elim result [
        | fails text ↦ (after, fails ("open: create failed: " <> text))
        | returns replicas ↦
            (after, handle_at net mds_addr path flags replicas (pos 0) status_pending after)
      ]

-- The branch for a path that is there.
unfoldable pub open_existing :
    Net → String → String → ℕ → FileInfo → World → World × Result FileHandle
open_existing net mds_addr path flags info w =
    if has_flag flags o_excl
    then (w, fails ("open: file already exists (O_EXCL): " <> path))
    else if info.is_dir
    then (w, fails ("open: is a directory: " <> path))
    else if not (has_flag flags o_trunc)
    then (w, handle_at net mds_addr path flags [] info.size "" w)
    else let (cut, result) = truncate_all_replicas net mds_addr path (pos 0) w in
      elim result [
        | fails text ↦ (cut, fails ("open: truncate replicas failed: " <> text))
        | returns b ↦
            let (after, updated) = update_size_at net mds_addr path (pos 0) cut in
            elim updated [
              | fails text ↦ (after, fails ("open: update size failed: " <> text))
              | returns b ↦ (after, handle_at net mds_addr path flags [] (pos 0) "" after)
            ]
      ]

-- `Open`
unfoldable pub open_file : Net → String → String → ℕ → World → World × Result FileHandle
open_file net mds_addr path flags w = elim (stat_at net mds_addr path w) [
  | returns info ↦ open_existing net mds_addr path flags info w
  | fails text ↦
      if Text.contains_text text "not found"
      then open_new net mds_addr path flags w
      else (w, fails ("open: stat failed: " <> text))
]
