-- ===== src/Client/Open/Opening.antt =====
-- What `Open` gives for a path that is there.
use fstorex.Base.{
  ℕ, String, ◌<>◌, ◌≡◌, refl, ap, ◌∙◌, Bool, true, false, ◌&&◌, some, [], map, arith, ◌==◌,
  string_eq, if◌then◌else◌, All, Bool-cases, inl, inr, ==_refl,
}
use fstorex.Base.Dict.{lookup}
use fstorex.Types.{pos, FileInfo}
use fstorex.Metadata.Tree.{Entry, attrs, is_dir}
use fstorex.Metadata.State.{status_recovering}
use fstorex.Metadata.Apply as Apply
use fstorex.Metadata.Machine.Registry.{AreDistinct}
use fstorex.Metadata.Server.{stat, get_file_location}
use fstorex.DataNode.Bytes.{Bytes, resize}
use fstorex.Client.World.{Site, World, Net, up, Result, returns, fails}
use fstorex.Client.Calls.{ask_mds, file_location, update_size_at}
use fstorex.Client.Handle.{FileHandle, truncate_all_replicas}
use fstorex.Client.Handle.Reading.{Holds}
use fstorex.Client.Handle.Replicas.{addr_of}
use fstorex.Client.Handle.Updates.{Holds-nodes, update_size_at-nodes, truncate_all_replicas-Holds}
use fstorex.Client.Files.{stat_at}
use fstorex.Client.Open.{
  o_excl, o_trunc, has_flag, for_writing, handle_at, open_existing, open_file,
}

-- The handle that an open of a file gives without a truncation.
abbrev pub handle_of : String → String → ℕ → Entry → FileHandle
handle_of mds_addr path flags e = record {
  client = record { mds_addr = mds_addr };
  path = path;
  file_id = (attrs e).file_id;
  flags = flags;
  replicas = (attrs e).replicas;
  size = (attrs e).size;
  status = (attrs e).status;
}

module _ (net : Net) (mds_addr path : String) (flags : ℕ) (w : World) (site : Site) (e : Entry)
    (here : lookup mds_addr w.sites ≡ some site)
    (reached : (method : String) → net.mds method mds_addr ≡ up)
    (there : Apply.lookup site.state path ≡ some e) where
  location :
      is_dir e ≡ false
      → file_location net mds_addr path w
        ≡ returns (record {
          file_id = (attrs e).file_id;
          replicas = (attrs e).replicas;
          status = (attrs e).status;
        })
  unfolding file_location ask_mds get_file_location
  location file = ground (arith, here, reached "MetadataService.GetFileLocation", there, file)

  abbrev info : FileInfo
  info = record {
    name = (attrs e).name;
    path = path;
    is_dir = is_dir e;
    size = (attrs e).size;
    mode = (attrs e).mode;
    created_at = (attrs e).created_at;
    mod_time = (attrs e).mod_time;
    file_id = (attrs e).file_id;
  }

  stat_at-info : stat_at net mds_addr path w ≡ returns info
  unfolding stat_at ask_mds stat
  stat_at-info = ground (arith, here, reached "MetadataService.Stat", there)

  opens : open_file net mds_addr path flags w ≡ open_existing net mds_addr path flags info w
  unfolding open_file
  opens = rw (stat_at-info, open_file) refl

  -- An open of a path that is there, without O_TRUNC, at a server that answers, changes nothing. With O_EXCL it fails, and
  -- so it does on a directory, and for writing on a file that is recovering; otherwise its handle
  -- has the FileID, replicas, size and status that the server has for the path.
  pub open_file-opens :
      has_flag flags o_trunc ≡ false
      → open_file net mds_addr path flags w ≡ (
        w,
        if has_flag flags o_excl
            then fails ("open: file already exists (O_EXCL): " <> path)
            else if is_dir e
            then fails ("open: is a directory: " <> path)
            else if (attrs e).status == status_recovering && for_writing flags
            then fails ("open: file is recovering, write not allowed: " <> path)
            else returns (handle_of mds_addr path flags e),
      )
  unfolding open_existing handle_at
  open_file-opens keep = opens ∙ elim (Bool-cases (is_dir e)) [
    | inl dir ↦ ground (arith, keep, dir)
    | inr file ↦
        ground (arith, keep, file, location file, ==_refl (let empty : String = "" in empty))
  ]

  -- An open with O_TRUNC of a file that is there, and without O_EXCL, empties every replica before
  -- the server is asked for the new size: where that is refused the open fails, and the replicas
  -- are empty nevertheless. The replicas are at different addresses and hold the same bytes, and
  -- all the truncations succeed; the location is read from a server that answers.
  pub open_file-truncates_first :
      (old : Bytes) (b : Bool) (text : String)
      → has_flag flags o_excl ≡ false
      → has_flag flags o_trunc ≡ true
      → is_dir e ≡ false
      → AreDistinct (map addr_of (attrs e).replicas)
      → All (Holds w old) (attrs e).replicas
      → (truncate_all_replicas net mds_addr path (pos 0) w).1 ≡ returns b
      → (update_size_at net mds_addr path
          (pos 0)
          (truncate_all_replicas net mds_addr path (pos 0) w).0).1
        ≡ fails text
      → ((open_file net mds_addr path flags w).1 ≡ fails ("open: update size failed: " <> text))
        × All (Holds (open_file net mds_addr path flags w).0 []) (attrs e).replicas
  unfolding open_existing resize
  open_file-truncates_first old b text shared cuts file distinct holds cut refused =
      let emptied : World = (truncate_all_replicas net mds_addr path (pos 0) w).0 in
      let asked : World × Result Bool = update_size_at net mds_addr path (pos 0) emptied in
      let result : open_file net mds_addr path flags w
          ≡ (asked.0, fails ("open: update size failed: " <> text)) =
        opens ∙ rw (shared, file, cuts, cut, refused) refl in
      (
        ap (λ v. v.1) result,
        rw result (
            Holds-nodes emptied asked.0 [] (attrs e).replicas
              (update_size_at-nodes net mds_addr path (pos 0) emptied)
              (truncate_all_replicas-Holds net mds_addr path w old 0 b _ (location file) distinct
                holds cut)),
      )
