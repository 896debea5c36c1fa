-- ===== src/DataNode/Service/Store.antt =====
-- What a stored, deleted or listed file is to the other handlers.
use fstorex.Base.{
  ℕ, String, ◌≡◌, ◌≢◌, Bool, true, false, ◌&&◌, Option, some, List, arith, take, ◌==◌, string_eq,
  if◌then◌else◌, Option-cases, ==_refl, inl, inr,
}
use fstorex.Base.Dict.{lookup, insert, erase, lookup-insert, lookup-erase}
use fstorex.Types.{Time}
use fstorex.DataNode.Paths.{resolve_path}
use fstorex.DataNode.Disk.{
  File, Disk, DataNode, Faults, no_faults, data_not_found, Reply, ok, err, panicked,
}
use fstorex.DataNode.Service.{StoreArgs, temporary, store_data, get_data, delete_data}

abbrev pub succeeded : Reply Bool → Bool
succeeded (ok b) = b
succeeded (err e) = false
succeeded panicked = false

-- The file that a lookup finds behind a store.
abbrev pub found_after : String → File → Bool → Disk → String → Option File
found_after real_path file stored disk q =
    if stored && real_path == q then some file else lookup q disk

module _ (f : Faults) (now : Time) (args : StoreArgs) (dn : DataNode) where
  -- A store is all or nothing: whatever call of it fails, every file but the temporary one is as
  -- before, and where none fails, the file at its path has the new content and no other has changed.
  pub store_data-IsAtomic :
      (real_path : String)
      → resolve_path dn.data_dir args.path ≡ some real_path
      → (q : String) → temporary real_path ≢ q
      → lookup q (store_data f now args dn).0.disk
        ≡ found_after real_path
            (record { content = args.content; mod_time = now })
            (succeeded (store_data f now args dn).1)
            dn.disk
            q
  unfolding store_data
  store_data-IsAtomic real_path here q differ = ground (
    arith,
    here,
    differ,
    at_tmp (take f.kept args.content),
    at_tmp args.content,
    lookup-erase q (temporary real_path) (at_tmp_disk args.content),
    lookup-insert q real_path (stored_file args.content)
        (erase (temporary real_path) (at_tmp_disk args.content)),
  )
    where
      stored_file : List ℕ → File
      stored_file content = record { content = content; mod_time = now }

      at_tmp_disk : List ℕ → Disk
      at_tmp_disk content = insert (temporary real_path) (stored_file content) dn.disk

      at_tmp :
          (content : List ℕ)
          → lookup q (at_tmp_disk content)
            ≡ (if temporary real_path == q then some (stored_file content) else lookup q dn.disk)
      at_tmp content = lookup-insert q (temporary real_path) (stored_file content) dn.disk

  -- What has been stored is read back, under every path that resolves as the stored one does.
  pub store_data-get_data :
      (path : String)
      → resolve_path dn.data_dir path ≡ resolve_path dn.data_dir args.path
      → (store_data f now args dn).1 ≡ ok true
      → get_data no_faults path (store_data f now args dn).0 ≡ ok args.content
  unfolding store_data get_data
  store_data-get_data path same stored = elim (Option-cases (resolve_path dn.data_dir args.path)) [
    | inl gone ↦ ground (arith, same, stored, gone)
    | inr (real_path, here) ↦
        let new : File = record { content = args.content; mod_time = now } in
        ground (
          arith,
          same,
          stored,
          here,
          lookup-insert real_path real_path new
              (erase (temporary real_path) (insert (temporary real_path) new dn.disk)),
          ==_refl real_path,
        )
  ]

module _ (f : Faults) (path : String) (dn : DataNode) where
  -- A file that has been deleted is not found, and to delete it again succeeds and changes nothing.
  pub delete_data-get_data :
      (delete_data f path dn).1 ≡ ok true
      → (get_data no_faults path (delete_data f path dn).0 ≡ err (data_not_found path))
        × (delete_data no_faults path (delete_data f path dn).0
            ≡ ((delete_data f path dn).0, ok true))
  unfolding delete_data get_data
  delete_data-get_data deleted = elim (Option-cases (resolve_path dn.data_dir path)) [
    | inl gone ↦ ground (arith, deleted, gone)
    | inr (real_path, here) ↦
        ground (arith, deleted, here, lookup-erase real_path real_path dn.disk, ==_refl real_path)
  ]
