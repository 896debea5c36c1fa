-- ===== src/Metadata/Apply/Untouched.antt =====
-- What the commands that add and remove names leave alone.
use fstorex.Base.{
  ◌≡◌, ◌≢◌, false, List, ◌∷◌, [], ◌++◌, refl, String, not, if_both, option_both, string_eq,
}
use fstorex.Types.{Time}
use fstorex.Metadata.Paths.{split_path}
use fstorex.Metadata.Tree.{Entry, children, is_dir, find, walk_dirs}
use fstorex.Metadata.Tree.Frame.{IsLocal, only, is_prefix}
use fstorex.Metadata.Tree.Modify.{attrs_at}
use fstorex.Metadata.State.{CommandPayload, MetadataServer, Applied}
use fstorex.Metadata.Apply.{
  split_last, touch, attach, detach, new_dir, overwrites, apply_mkdir, apply_create_file,
  apply_delete,
}
use fstorex.Metadata.Apply.Writes.{attach-IsLocal, detach-IsLocal, IsLocal-touch}
use fstorex.Metadata.Apply.Named.{ChangesAt, write-ChangesAt}

module _ (p : CommandPayload) (now : Time) (mds : MetadataServer) where
  put-IsLocal : (n : String) (e : Entry) → IsLocal (only n) (λ x. touch now (attach n e x))
  put-IsLocal n e = IsLocal-touch (only n) (attach n e) now (attach-IsLocal n e)

  mkdir-ChangesAt : ChangesAt p.path mds (apply_mkdir p now mds)
  unfolding apply_mkdir
  mkdir-ChangesAt =
      option_both Q (split_last (split_path p.path)) (λ _ q _ _. refl)
        λ (dir, n) parts.
          option_both Q (walk_dirs dir mds.root) (λ _ q _ _. refl)
            λ d walked.
              option_both Q (find n (children d))
                (λ _. write-ChangesAt p.path parts mds _ (put-IsLocal n (new_dir n p.file_id now)))
                (λ c _. if_both Q (is_dir c) (λ _ q _ _. refl) (λ _ q _ _. refl))
    where
      Q : Applied → Type 0
      Q = ChangesAt p.path mds

  create_file-ChangesAt : ChangesAt p.path mds (apply_create_file p now mds)
  unfolding apply_create_file
  create_file-ChangesAt =
      option_both Q (split_last (split_path p.path)) (λ _ q _ _. refl)
        λ (dir, n) parts.
          option_both Q (walk_dirs dir mds.root) (λ _ q _ _. refl)
            λ d walked.
              let stored = λ (e : Entry). write-ChangesAt p.path parts mds _ (put-IsLocal n e) in
              option_both Q (find n (children d)) (λ _. stored _)
                λ c _.
                  if_both Q (is_dir c) (λ _ q _ _. refl)
                    λ _. if_both Q (not (overwrites p.create_mode)) (λ _ q _ _. refl) λ _. stored _
    where
      Q : Applied → Type 0
      Q = ChangesAt p.path mds

  delete-ChangesAt : ChangesAt p.path mds (apply_delete p now mds)
  unfolding apply_delete
  delete-ChangesAt =
      option_both Q (split_last (split_path p.path)) (λ _ q _ _. refl)
        λ (dir, n) parts.
          option_both Q (walk_dirs dir mds.root) (λ _ q _ _. refl)
            λ d walked.
              option_both Q (find n (children d)) (λ _ q _ _. refl)
                λ c _.
                  write-ChangesAt p.path parts mds _
                    (IsLocal-touch (only n) (detach n) now (detach-IsLocal n))
    where
      Q : Applied → Type 0
      Q = ChangesAt p.path mds

  -- The commands that make a directory, create a file and delete a path, whether they succeed or
  -- fail, change no fields of an entry that does not lie at or below their path and is not its
  -- parent directory.
  pub names-keep_others :
      (q : List String)
      → is_prefix (split_path p.path) q ≡ false
      → ((n : String) → split_path p.path ≢ q ++ n ∷ [])
      → (attrs_at q (apply_mkdir p now mds).0.root ≡ attrs_at q mds.root)
        × (attrs_at q (apply_create_file p now mds).0.root ≡ attrs_at q mds.root)
        × (attrs_at q (apply_delete p now mds).0.root ≡ attrs_at q mds.root)
  names-keep_others q off not_parent = (
    mkdir-ChangesAt q off not_parent,
    create_file-ChangesAt q off not_parent,
    delete-ChangesAt q off not_parent,
  )
