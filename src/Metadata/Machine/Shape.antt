-- ===== src/Metadata/Machine/Shape.antt =====
-- Every command keeps the directory tree well formed.
use fstorex.Base.{
  ◌≡◌, refl, ◌∙◌, sym, String, true, not, Option, List, [], ◌∷◌, inl, inr, subst, if_both,
  option_both, Option-cases, string_eq,
}
use mathlib.Core.Option.{some-injective}
use fstorex.Types.{Time}
use fstorex.Metadata.Paths.{split_path}
use fstorex.Metadata.Paths.Split.{IsName}
use fstorex.Metadata.Tree.{Attrs, Entry, entry, attrs, children, is_dir, find, walk_dirs}
use fstorex.Metadata.Tree.Modify.{walk_dirs-lookup}
use fstorex.Metadata.Tree.Shape.{
  IsWellFormed, children-AllWellFormed, find-IsWellFormed, lookup-IsWellFormed,
}
use fstorex.Metadata.State.{CommandPayload, MetadataServer, Applied, Error}
use fstorex.Metadata.Apply.{
  split_last, lookup, touch, attach, detach, new_dir, new_file, overwrites, on_file,
  apply_heartbeat, apply_remove_data_node, apply_mkdir, apply_create_file, apply_complete_file,
  apply_delete, apply_update_size, apply_update_replicas, apply_update_status, no_test,
  complete_write, size_test, size_write, replicas_test, replicas_write, status_test, status_write,
}
use fstorex.Metadata.Apply.Parts.{last-IsName}
use fstorex.Metadata.Apply.Trees.{
  IsTree, touch-KeepsShape, attach-KeepsShape, detach-KeepsShape, KeepsShape-touch, modify-IsTree,
  attach-IsTree, fields-KeepsShape,
}
use fstorex.Metadata.Rename.{renamed, move, apply_rename}
use fstorex.Metadata.Rename.Moved.{IsMovable, dst_still}
use fstorex.Metadata.Rename.Outcome.{rename-IsMove}
use fstorex.Metadata.Machine.{LogEntry, apply, replay}
use fstorex.Metadata.Machine.Errors.{rename-IsAtomic}
use fstorex.Metadata.Machine.Cases.{apply_cases}

-- Trees stay trees.
abbrev pub KeepsTree : MetadataServer → Applied → Type 0
KeepsTree mds r = IsTree mds.root → IsTree r.0.root

on_file-KeepsTree :
    (mds : MetadataServer) (path : String) (test : Attrs → Option Error) (write : Attrs → Attrs)
    → ((a : Attrs) → (write a).name ≡ a.name)
    → ((a : Attrs) → (write a).is_dir ≡ a.is_dir)
    → KeepsTree mds (on_file mds path test write)
on_file-KeepsTree mds path test write name kind t =
    option_both Q (lookup mds path) (λ _. t)
      λ e _.
        if_both Q (is_dir e) (λ _. t)
          λ _.
            option_both Q (test (attrs e))
              (λ _.
                modify-IsTree (split_path path) _ mds.root
                  (λ x _. fields-KeepsShape write name kind x) (λ x. kind (attrs x)) t)
              (λ _ _. t)
  where
    Q : Applied → Type 0
    Q r = IsTree r.0.root

renamed-IsWellFormed :
    (name : String) (now : Time) (e : Entry) → IsWellFormed e → IsWellFormed (renamed name now e)
renamed-IsWellFormed name now (entry a cs) w = w

-- The writes of a permitted rename keep a tree well formed.
move-IsTree :
    (src_dir : List String) (src_name : String) (dst_dir : List String) (dst_name : String)
    (e : Entry) (now : Time) (root : Entry)
    → IsMovable src_dir src_name dst_dir dst_name e root
    → IsName dst_name
    → IsTree root
    → IsTree (move src_dir src_name dst_dir dst_name e now root)
unfolding move
move-IsTree src_dir src_name dst_dir dst_name e now root m valid t =
    let (d, there, kind) = dst_still src_dir src_name dst_dir dst_name e now root m in
    let v =
      find-IsWellFormed src_name (children m.src_parent)
        (children-AllWellFormed m.src_parent
          (lookup-IsWellFormed src_dir root t.shape (walk_dirs-lookup src_dir root m.src_walk)))
        m.src_here in
    modify-IsTree dst_dir (touch now) _ (λ x _. touch-KeepsShape now x) (λ x. refl)
      (modify-IsTree src_dir (touch now) _ (λ x _. touch-KeepsShape now x) (λ x. refl)
        (modify-IsTree dst_dir (attach dst_name (renamed dst_name now e)) _
          (λ x here.
            attach-KeepsShape dst_name (renamed dst_name now e) x
              (subst (λ y. is_dir y ≡ true) (some-injective _ _ (sym there ∙ here)) kind)
              (record { key_is_name = refl; valid = valid })
              (renamed-IsWellFormed dst_name now e v))
          (λ x. refl)
          (modify-IsTree src_dir (detach src_name) _ (λ x _. detach-KeepsShape src_name x)
            (λ x. refl)
            (modify-IsTree dst_dir (detach dst_name) root (λ x _. detach-KeepsShape dst_name x)
              (λ x. refl) t))))

module _ (p : CommandPayload) (now : Time) (mds : MetadataServer) where
  mkdir-KeepsTree : KeepsTree mds (apply_mkdir p now mds)
  unfolding apply_mkdir
  mkdir-KeepsTree t =
      option_both Q (split_last (split_path p.path)) (λ _. t)
        λ (dir, last) parts.
          option_both Q (walk_dirs dir mds.root) (λ _. t)
            λ d walked.
              option_both Q (find last (children d))
                (λ _.
                  attach-IsTree dir last (new_dir last p.file_id now) now mds.root walked
                    (record { key_is_name = refl; valid = last-IsName p.path parts })
                    (λ leaf. cc, tt) t)
                (λ c _. if_both Q (is_dir c) (λ _. t) (λ _. t))
    where
      Q : Applied → Type 0
      Q r = IsTree r.0.root

  create_file-KeepsTree : KeepsTree mds (apply_create_file p now mds)
  unfolding apply_create_file
  create_file-KeepsTree t =
      option_both Q (split_last (split_path p.path)) (λ _. t)
        λ (dir, last) parts.
          option_both Q (walk_dirs dir mds.root) (λ _. t)
            λ d walked.
              let stored = λ (created : Time) (id : String).
                attach-IsTree dir last (new_file last p created id now) now mds.root walked
                  (record { key_is_name = refl; valid = last-IsName p.path parts })
                  (λ leaf. refl, tt) t in
              option_both Q (find last (children d)) (λ _. stored now p.file_id)
                λ c _.
                  if_both Q (is_dir c) (λ _. t)
                    λ _.
                      if_both Q (not (overwrites p.create_mode)) (λ _. t)
                        λ _. stored (attrs c).created_at (attrs c).file_id
    where
      Q : Applied → Type 0
      Q r = IsTree r.0.root

  delete-KeepsTree : KeepsTree mds (apply_delete p now mds)
  unfolding apply_delete
  delete-KeepsTree t =
      option_both Q (split_last (split_path p.path)) (λ _. t)
        λ (dir, last) parts.
          option_both Q (walk_dirs dir mds.root) (λ _. t)
            λ d walked.
              option_both Q (find last (children d)) (λ _. t)
                λ _ _.
                  modify-IsTree dir (λ x. touch now (detach last x)) mds.root
                    (λ x _. KeepsShape-touch now (detach last) x (detach-KeepsShape last x))
                    (λ x. refl) t
    where
      Q : Applied → Type 0
      Q r = IsTree r.0.root

  complete_file-KeepsTree : KeepsTree mds (apply_complete_file p now mds)
  unfolding apply_complete_file
  complete_file-KeepsTree =
      on_file-KeepsTree mds p.path no_test (complete_write now) (λ a. refl) (λ a. refl)

  update_size-KeepsTree : KeepsTree mds (apply_update_size p now mds)
  unfolding apply_update_size
  update_size-KeepsTree =
      on_file-KeepsTree mds p.path (size_test p) (size_write p now) (λ a. refl) (λ a. refl)

  update_replicas-KeepsTree : KeepsTree mds (apply_update_replicas p now mds)
  unfolding apply_update_replicas
  update_replicas-KeepsTree =
      on_file-KeepsTree mds p.path (replicas_test p) (replicas_write p now) (λ a. refl) (λ a. refl)

  update_status-KeepsTree : KeepsTree mds (apply_update_status p now mds)
  unfolding apply_update_status
  update_status-KeepsTree =
      on_file-KeepsTree mds p.path (status_test p) (status_write p now) (λ a. refl) (λ a. refl)

  heartbeat-KeepsTree : KeepsTree mds (apply_heartbeat p now mds)
  unfolding apply_heartbeat
  heartbeat-KeepsTree t = t

  pub rename-KeepsTree : KeepsTree mds (apply_rename p now mds)
  rename-KeepsTree t = elim (Option-cases (apply_rename p now mds).1) [
    | inr (problem, here) ↦ rw (rename-IsAtomic p now mds (λ e. cc (e, here))) t
    | inl ok ↦
        let (src_dir, src_name, dst_dir, dst_name, src, dst, m) =
          rename-IsMove p now mds t.root_is_dir ok in
        rw m.outcome (
          move-IsTree src_dir src_name dst_dir dst_name m.moved now mds.root m.movable
            (last-IsName p.dst_path dst) t)
  ]

remove_data_node-KeepsTree :
    (p : CommandPayload) (mds : MetadataServer) → KeepsTree mds (apply_remove_data_node p mds)
unfolding apply_remove_data_node
remove_data_node-KeepsTree p mds t = t

-- Every entry of the log, whether it applies or fails, keeps the directory tree well formed: the
-- root is a directory, a file has no children, no name stands twice in a directory, and every
-- entry's name is its key, is not empty and has no '/'.
pub apply-IsTree : (e : LogEntry) (mds : MetadataServer) → KeepsTree mds (apply e mds)
apply-IsTree = apply_cases KeepsTree (record {
  failure = λ mds e t. t;
  heartbeat = heartbeat-KeepsTree;
  remove_data_node = remove_data_node-KeepsTree;
  mkdir = mkdir-KeepsTree;
  create_file = create_file-KeepsTree;
  complete_file = complete_file-KeepsTree;
  delete = delete-KeepsTree;
  rename = rename-KeepsTree;
  update_size = update_size-KeepsTree;
  update_replicas = update_replicas-KeepsTree;
  update_status = update_status-KeepsTree;
})

-- A log applied to a well-formed directory tree, whatever it holds and however much of it fails,
-- leaves the tree well formed.
pub replay-IsTree :
    (log : List LogEntry) (mds : MetadataServer) → IsTree mds.root → IsTree (replay log mds).root
unfolding replay
replay-IsTree [] mds t = t
replay-IsTree (e ∷ log) mds t = replay-IsTree log (apply e mds).0 (apply-IsTree e mds t)
