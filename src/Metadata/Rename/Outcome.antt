-- ===== src/Metadata/Rename/Outcome.antt =====
-- `applyRename` as a whole: what its success says of the tree before and after.
use fstorex.Base.{
  ◌≡◌, ◌≢◌, refl, ap, ◌∙◌, sym, String, true, false, ◌&&◌, none, some, List, [], ◌∷◌, ◌++◌, arith,
  Option-cases, inl, inr, subst, string_eq, if_both, option_both,
}
use fstorex.Types.{Time}
use fstorex.Metadata.Paths.{split_path}
use fstorex.Metadata.Tree.{Entry, entry, attrs, children, is_dir, find, walk_dirs}
use fstorex.Metadata.Tree.Modify.{walk_dirs-lookup, attrs_at}
use fstorex.Metadata.Tree.Frame.{is_prefix}
use fstorex.Metadata.State.{CommandPayload, MetadataServer, Applied}
use fstorex.Metadata.Apply.{split_last, lookup}
use fstorex.Metadata.Apply.Parts.{split_last-append}
use fstorex.Metadata.Apply.Writes.{lookup_last}
use fstorex.Metadata.Rename.{move, meets_source, rename_parts, apply_rename}
use fstorex.Metadata.Rename.Cycle.{not_below_source}
use fstorex.Metadata.Rename.Moved.{IsMovable, lookup-move-dst, lookup-move-src, attrs_at-move}

-- A rename that succeeded was a permitted move.
pub record IsMove (src_dir : List String) (src_name : String) (dst_dir : List String)
    (dst_name : String) (now : Time) (mds : MetadataServer) (r : Applied) : Type 0 where
  pub moved : Entry
  pub movable : IsMovable src_dir src_name dst_dir dst_name moved mds.root
  pub outcome :
      r.0 ≡ record mds { root = move src_dir src_name dst_dir dst_name moved now mds.root }

module _ (src_dir : List String) (src_name : String) (dst_dir : List String) (dst_name : String)
    (p : CommandPayload) (now : Time) (mds : MetadataServer) (top : is_dir mds.root ≡ true) where
  rename_parts-IsMove :
      (rename_parts src_dir src_name dst_dir dst_name p now mds).1 ≡ none
      → IsMove src_dir src_name dst_dir dst_name now mds
          (rename_parts src_dir src_name dst_dir dst_name p now mds)
  unfolding rename_parts
  rename_parts-IsMove =
      option_both Q (walk_dirs src_dir mds.root) (λ _ h. cc)
        λ src_parent src_walk.
          option_both Q (find src_name (children src_parent)) (λ _ h. cc)
            λ e src_here.
              if_both Q
                (is_dir e && meets_source (some (src_dir ++ src_name ∷ [])) dst_dir mds.root)
                (λ _ h. cc)
                λ pass.
                  option_both Q (walk_dirs dst_dir mds.root) (λ _ h. cc)
                    λ dst_parent dst_walk.
                      let move_of =
                        λ (free : (x : Entry)
                            → find dst_name (children dst_parent) ≡ some x
                            → is_dir x ≡ false).
                          let movable : IsMovable src_dir src_name dst_dir dst_name e mds.root =
                            record {
                              src_parent = src_parent;
                              dst_parent = dst_parent;
                              top = top;
                              src_walk = src_walk;
                              src_here = src_here;
                              dst_walk = dst_walk;
                              apart =
                                  not_below_source src_dir src_name dst_dir mds.root top src_walk
                                    src_here dst_walk pass;
                              dst_free = free;
                            } in
                          let result : IsMove src_dir src_name dst_dir dst_name now mds (
                            record mds {
                              root = move src_dir src_name dst_dir dst_name e now mds.root;
                            },
                            none,
                          ) =
                            record { moved = e; movable = movable; outcome = refl } in
                          result in
                      option_both Q (find dst_name (children dst_parent))
                        (λ free _. move_of (λ x h. cc))
                        λ old here. if_both Q (is_dir old) (λ _ h. cc) λ file _. move_of (λ x h. cc)
    where
      Q : Applied → Type 0
      Q r = r.1 ≡ none → IsMove src_dir src_name dst_dir dst_name now mds r

apply_rename_parts :
    (p : CommandPayload) (now : Time) (mds : MetadataServer) {src_dir : List String}
    {src_name : String} {dst_dir : List String} {dst_name : String}
    → split_last (split_path p.path) ≡ some (src_dir, src_name)
    → split_last (split_path p.dst_path) ≡ some (dst_dir, dst_name)
    → apply_rename p now mds ≡ rename_parts src_dir src_name dst_dir dst_name p now mds
unfolding apply_rename
apply_rename_parts p now mds src dst = rw (src, apply_rename) (rw dst)

apply_rename_total :
    (p : CommandPayload) (now : Time) (mds : MetadataServer)
    → (apply_rename p now mds).1 ≡ none
    → (split_last (split_path p.path) ≢ none) × (split_last (split_path p.dst_path) ≢ none)
unfolding apply_rename
apply_rename_total p now mds h = (ground arith, ground arith)

module _ (p : CommandPayload) (now : Time) (mds : MetadataServer) (top : is_dir mds.root ≡ true)
    (ok : (apply_rename p now mds).1 ≡ none) where
  -- The parts of both paths, and the move between them.
  pub rename-IsMove :
      (src_dir : List String) × (src_name : String) × (dst_dir : List String) × (dst_name : String)
      × (split_last (split_path p.path) ≡ some (src_dir, src_name))
      × (split_last (split_path p.dst_path) ≡ some (dst_dir, dst_name))
      × IsMove src_dir src_name dst_dir dst_name now mds (apply_rename p now mds)
  rename-IsMove = elim (Option-cases (split_last (split_path p.path))) [
    | inl gone ↦ absurd ((apply_rename_total p now mds ok).0 gone)
    | inr ((src_dir, src_name), src) ↦ elim (Option-cases (split_last (split_path p.dst_path))) [
      | inl gone ↦ absurd ((apply_rename_total p now mds ok).1 gone)
      | inr ((dst_dir, dst_name), dst) ↦
          let e = apply_rename_parts p now mds src dst in
          (
            src_dir,
            src_name,
            dst_dir,
            dst_name,
            src,
            dst,
            subst (IsMove src_dir src_name dst_dir dst_name now mds) (sym e) (
                rename_parts-IsMove src_dir src_name dst_dir dst_name p now mds top
                  (sym (ap (λ (r : Applied). r.1) e) ∙ ok)),
          )
    ]
  ]

  -- A rename that succeeds puts the entry found at the source, with all below it, at the
  -- destination: only its name and its modification time change.
  pub rename-moves :
      (dir : List String) × (name : String) × (e : Entry) × (split_last (split_path p.dst_path)
        ≡ some (dir, name))
      × (lookup mds p.path ≡ some e)
      × (lookup (apply_rename p now mds).0 p.dst_path
          ≡ some (entry (record (attrs e) { name = name; mod_time = now }) (children e)))
  unfolding lookup
  rename-moves =
      let (src_dir, src_name, dst_dir, dst_name, src, dst, m) = rename-IsMove in
      let src' = split_last-append (split_path p.path) src in
      let dst' = split_last-append (split_path p.dst_path) dst in
      (
        dst_dir,
        dst_name,
        m.moved,
        dst,
        rw src' (
            lookup_last src_dir src_name mds.root
              (walk_dirs-lookup src_dir mds.root m.movable.src_walk)
            ∙ m.movable.src_here),
        rw (dst', m.outcome)
            (lookup-move-dst src_dir src_name dst_dir dst_name m.moved now mds.root m.movable),
      )

  -- A rename that succeeds leaves nothing at the source, unless both paths have the same parts.
  pub rename-leaves_source :
      split_path p.path ≢ split_path p.dst_path → lookup (apply_rename p now mds).0 p.path ≡ none
  unfolding lookup
  rename-leaves_source ne =
      let (src_dir, src_name, dst_dir, dst_name, src, dst, m) = rename-IsMove in
      let src' = split_last-append (split_path p.path) src in
      let dst' = split_last-append (split_path p.dst_path) dst in
      rw (src', m.outcome)
        (lookup-move-src src_dir src_name dst_dir dst_name m.moved now mds.root m.movable
          (λ same. ne (src' ∙ same ∙ sym dst')))

  -- A rename that succeeds changes no fields of an entry that lies neither at or below the source,
  -- nor at or below the destination, and is not the parent of either.
  pub rename-frame :
      (q : List String)
      → is_prefix (split_path p.path) q ≡ false
      → is_prefix (split_path p.dst_path) q ≡ false
      → ((n : String) → split_path p.path ≢ q ++ n ∷ [])
      → ((n : String) → split_path p.dst_path ≢ q ++ n ∷ [])
      → attrs_at q (apply_rename p now mds).0.root ≡ attrs_at q mds.root
  rename-frame q off_src off_dst not_src not_dst =
      let (src_dir, src_name, dst_dir, dst_name, src, dst, m) = rename-IsMove in
      let src' = split_last-append (split_path p.path) src in
      let dst' = split_last-append (split_path p.dst_path) dst in
      rw m.outcome (
        attrs_at-move src_dir src_name dst_dir dst_name m.moved now mds.root m.movable q
          (subst (λ r. is_prefix r q ≡ false) src' off_src)
          (subst (λ r. is_prefix r q ≡ false) dst' off_dst)
          (λ same. not_src src_name (rw same src')) (λ same. not_dst dst_name (rw same dst')))
