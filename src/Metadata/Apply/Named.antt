-- ===== src/Metadata/Apply/Named.antt =====
-- The writes of the commands that add and remove names, at the path's directory and last part.
use fstorex.Base.{
  ◌≡◌, ◌≢◌, ap, ◌∙◌, sym, String, false, Option, none, some, List, [], ◌∷◌, ◌++◌, subst, string_eq,
  ==_refl,
}
use fstorex.Types.{Time}
use fstorex.Metadata.Paths.{split_path}
use fstorex.Metadata.Tree.{Entry, children, find, lookup_parts, walk_dirs, modify}
use fstorex.Metadata.Tree.Modify.{
  walk_dirs-lookup, attrs_at, lookup-modify, find-put_self, find-remove,
}
use fstorex.Metadata.Tree.Frame.{IsLocal, is_prefix, only, hits-only, attrs_at-modify}
use fstorex.Metadata.State.{MetadataServer, Applied}
use fstorex.Metadata.Apply.{split_last, lookup, touch, attach, detach}
use fstorex.Metadata.Apply.Parts.{split_last-append}
use fstorex.Metadata.Apply.Writes.{lookup_last, lookup_one}

-- What the walk's directory holds under a name is what the path leads to.
find-walked :
    (dir : List String) (n : String) (root : Entry) {d : Entry}
    → walk_dirs dir root ≡ some d
    → find n (children d) ≡ lookup_parts (dir ++ n ∷ []) root
find-walked dir n root walked = sym (lookup_last dir n root (walk_dirs-lookup dir root walked))

module _ (dir : List String) (n : String) (now : Time) (root : Entry) {d : Entry}
    (walked : walk_dirs dir root ≡ some d) where
  lookup-attach :
      (e : Entry)
      → lookup_parts (dir ++ n ∷ []) (modify dir (λ x. touch now (attach n e x)) root) ≡ some e
  lookup-attach e =
      lookup-modify dir (n ∷ []) (λ x. touch now (attach n e x)) root
      ∙ rw (walk_dirs-lookup dir root walked) (lookup_one n _ ∙ find-put_self n e (children d))

  lookup-detach :
      lookup_parts (dir ++ n ∷ []) (modify dir (λ x. touch now (detach n x)) root) ≡ none
  lookup-detach =
      lookup-modify dir (n ∷ []) (λ x. touch now (detach n x)) root
      ∙ rw (walk_dirs-lookup dir root walked)
          (lookup_one n _ ∙ rw (find-remove n n (children d), ==_refl n))

-- Only what lies at or below a path, and its parent directory, may change.
abbrev pub ChangesAt : String → MetadataServer → Applied → Type 0
ChangesAt path mds r =
    (q : List String)
    → is_prefix (split_path path) q ≡ false
    → ((n : String) → split_path path ≢ q ++ n ∷ [])
    → attrs_at q r.0.root ≡ attrs_at q mds.root

module _ (path : String) {dir : List String} {n : String}
    (parts : split_last (split_path path) ≡ some (dir, n)) (mds : MetadataServer) where
  pub write-ChangesAt :
      (f : Entry → Entry)
      → IsLocal (only n) f
      → ChangesAt path mds (record mds { root = modify dir f mds.root }, none)
  write-ChangesAt f local q off ne =
      let parts' = split_last-append (split_path path) parts in
      attrs_at-modify (only n) f local dir q mds.root
        (hits-only dir q n ∙ subst (λ r. is_prefix r q ≡ false) parts' off)
        (λ same. ne n (parts' ∙ ap (λ (r : List String). r ++ n ∷ []) (sym same)))

  -- What the path leads to, by the directory that the walk reaches.
  pub looked_up :
      {d : Entry}
      → walk_dirs dir mds.root ≡ some d
      → {o : Option Entry} → find n (children d) ≡ o
      → lookup mds path ≡ o
  unfolding lookup
  looked_up walked here =
      ap (λ r. lookup_parts r mds.root) (split_last-append (split_path path) parts)
      ∙ sym (find-walked dir n mds.root walked)
      ∙ here

  pub stored_at :
      (now : Time) {d : Entry}
      → walk_dirs dir mds.root ≡ some d
      → (e : Entry)
      → lookup (record mds { root = modify dir (λ x. touch now (attach n e x)) mds.root }) path
        ≡ some e
  unfolding lookup
  stored_at now walked e =
      rw (split_last-append (split_path path) parts) (lookup-attach dir n now mds.root walked e)

  pub removed_at :
      (now : Time) {d : Entry}
      → walk_dirs dir mds.root ≡ some d
      → lookup (record mds { root = modify dir (λ x. touch now (detach n x)) mds.root }) path ≡ none
  unfolding lookup
  removed_at now walked =
      rw (split_last-append (split_path path) parts) (lookup-detach dir n now mds.root walked)
