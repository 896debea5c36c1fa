-- ===== src/Metadata/Apply/Outcomes.antt =====
-- What the commands that add and remove names do to the tree, when they succeed.
use fstorex.Base.{
  ◌≡◌, refl, String, true, false, not, Option, none, some, List, ◌⊎◌, inl, inr, if_both,
  option_both, string_eq,
}
use fstorex.Types.{Time, CreateMode, create_if_not_exist, overwrite_if_exists, other_mode}
use fstorex.Metadata.Paths.{split_path}
use fstorex.Metadata.Tree.{Entry, entry, empty, attrs, children, is_dir, find, walk_dirs}
use fstorex.Metadata.State.{CommandPayload, MetadataServer, Applied, mode_file, status_pending}
use fstorex.Metadata.Apply.{
  split_last, lookup, new_dir, overwrites, apply_mkdir, apply_create_file, apply_delete,
}
use fstorex.Metadata.Apply.Named.{looked_up, stored_at, removed_at}

overwriting : (mode : CreateMode) → not (overwrites mode) ≡ false → mode ≡ overwrite_if_exists
overwriting create_if_not_exist h = cc
overwriting overwrite_if_exists h = refl
overwriting (other_mode n) h = cc

module _ (p : CommandPayload) (now : Time) (mds : MetadataServer) where
  -- When a created file counts as created: when the file that it replaces, if any, was.
  abbrev born : Option Entry → Time
  born none = now
  born (some old) = (attrs old).created_at

  -- The FileID of a created file: that of the file that it replaces, if any.
  abbrev identity : Option Entry → String
  identity none = p.file_id
  identity (some old) = (attrs old).file_id

  -- A created file, in place of what stood at its path.
  abbrev pub created_file : String → Option Entry → Entry
  created_file name old =
      entry
        (record {
          name = name;
          is_dir = false;
          size = p.size;
          mode = mode_file;
          created_at = born old;
          mod_time = now;
          status = status_pending;
          file_id = identity old;
          replicas = p.replicas;
        })
        empty

  -- What stood at the path allows the file to be created.
  abbrev pub MayCreate : Option Entry → Type 0
  MayCreate none = Unit
  MayCreate (some old) = (is_dir old ≡ false) × (p.create_mode ≡ overwrite_if_exists)

  -- A file that is created stands at its path, pending, with the size and the replicas of the
  -- request. A file that stood there before gives it its creation time and its FileID, and only a
  -- request to overwrite may replace it; a directory is never replaced.
  pub create_file-lookup :
      (apply_create_file p now mds).1 ≡ none
      → MayCreate (lookup mds p.path)
        × ((dir : List String) × (name : String) × (split_last (split_path p.path)
              ≡ some (dir, name))
            × (lookup (apply_create_file p now mds).0 p.path
                ≡ some (created_file name (lookup mds p.path))))
  unfolding apply_create_file
  create_file-lookup =
      option_both Q (split_last (split_path p.path)) (λ _ h. cc)
        λ (dir, n) parts.
          option_both Q (walk_dirs dir mds.root) (λ _ h. cc)
            λ d walked.
              let stored = stored_at p.path parts mds now walked in
              option_both Q (find n (children d))
                (λ free _.
                  rw (looked_up p.path parts mds walked free) (tt, (dir, n, parts, stored _)))
                λ old here.
                  if_both Q (is_dir old) (λ _ h. cc)
                    λ file.
                      if_both Q (not (overwrites p.create_mode)) (λ _ h. cc)
                        λ over _.
                          rw (looked_up p.path parts mds walked here)
                            ((file, overwriting p.create_mode over), (dir, n, parts, stored _))
    where
      Q : Applied → Type 0
      Q r =
          r.1 ≡ none
          → MayCreate (lookup mds p.path)
            × ((dir : List String) × (name : String) × (split_last (split_path p.path)
                  ≡ some (dir, name))
                × (lookup r.0 p.path ≡ some (created_file name (lookup mds p.path))))

  -- A directory that is made successfully was there before, and then nothing has changed, or there
  -- was nothing at its path, and then an empty directory with the new FileID stands there.
  pub mkdir-lookup :
      (apply_mkdir p now mds).1 ≡ none
      → ((e : Entry) × (lookup mds p.path ≡ some e)
          × (is_dir e ≡ true)
          × ((apply_mkdir p now mds).0 ≡ mds))
        ⊎ ((dir : List String) × (name : String) × (split_last (split_path p.path)
              ≡ some (dir, name))
            × (lookup mds p.path ≡ none)
            × (lookup (apply_mkdir p now mds).0 p.path ≡ some (new_dir name p.file_id now)))
  unfolding apply_mkdir
  mkdir-lookup =
      option_both Q (split_last (split_path p.path)) (λ _ h. cc)
        λ (dir, n) parts.
          option_both Q (walk_dirs dir mds.root) (λ _ h. cc)
            λ d walked.
              option_both Q (find n (children d))
                (λ free _. inr (
                  dir,
                  n,
                  parts,
                  looked_up p.path parts mds walked free,
                  stored_at p.path parts mds now walked (new_dir n p.file_id now),
                ))
                λ c here.
                  if_both Q (is_dir c)
                    (λ kind _. inl (c, looked_up p.path parts mds walked here, kind, refl))
                    (λ _ h. cc)
    where
      Q : Applied → Type 0
      Q r =
          r.1 ≡ none
          → ((e : Entry) × (lookup mds p.path ≡ some e) × (is_dir e ≡ true) × (r.0 ≡ mds))
            ⊎ ((dir : List String) × (name : String) × (split_last (split_path p.path)
                  ≡ some (dir, name))
                × (lookup mds p.path ≡ none)
                × (lookup r.0 p.path ≡ some (new_dir name p.file_id now)))

  -- A path that is deleted successfully led to a file or a directory, empty or not, and leads to
  -- nothing afterwards.
  pub delete-lookup :
      (apply_delete p now mds).1 ≡ none
      → ((e : Entry) × (lookup mds p.path ≡ some e))
        × (lookup (apply_delete p now mds).0 p.path ≡ none)
  unfolding apply_delete
  delete-lookup =
      option_both Q (split_last (split_path p.path)) (λ _ h. cc)
        λ (dir, n) parts.
          option_both Q (walk_dirs dir mds.root) (λ _ h. cc)
            λ d walked.
              option_both Q (find n (children d)) (λ _ h. cc)
                λ c here _. (
                  (c, looked_up p.path parts mds walked here),
                  removed_at p.path parts mds now walked,
                )
    where
      Q : Applied → Type 0
      Q r = r.1 ≡ none → ((e : Entry) × (lookup mds p.path ≡ some e)) × (lookup r.0 p.path ≡ none)
