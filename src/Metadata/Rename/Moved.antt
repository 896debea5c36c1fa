-- ===== src/Metadata/Rename/Moved.antt =====
-- What the writes of a rename leave, once its checks have passed.
use fstorex.Base.{
  ◌≡◌, ◌≢◌, ◌∙◌, sym, String, true, false, none, some, List, [], ◌∷◌, ◌++◌, arith, Option-cases,
  Bool-cases, inl, inr, string_eq, ==_refl,
}
use fstorex.Types.{Time}
use fstorex.Metadata.Tree.{Entry, children, is_dir, find, lookup_parts, walk_dirs, modify}
use fstorex.Metadata.Tree.Modify.{
  walk_dirs-lookup, attrs_at, lookup-modify, find-put_self, find-remove,
}
use fstorex.Metadata.Tree.Frame.{
  is_prefix, kind_at, only, nothing, hits-only, hits-nothing, is_prefix-longer, is_prefix-last,
  attrs_at-modify, kind_at-modify, lookup_parts-modify,
}
use fstorex.Metadata.Apply.{touch, attach, detach}
use fstorex.Metadata.Apply.Parts.{walk_dirs-is_dir}
use fstorex.Metadata.Apply.Writes.{
  touch-IsLocal, attach-IsLocal, detach-IsLocal, lookup_last, lookup_one,
}
use fstorex.Metadata.Rename.{renamed, move}
use fstorex.Metadata.Rename.Cycle.{walk_dirs-prefix}

-- What the checks of a rename have established of the tree.
pub record IsMovable (src_dir : List String) (src_name : String) (dst_dir : List String)
    (dst_name : String) (e : Entry) (root : Entry) : Type 0 where
  pub src_parent : Entry
  pub dst_parent : Entry
  pub top : is_dir root ≡ true
  pub src_walk : walk_dirs src_dir root ≡ some src_parent
  pub src_here : find src_name (children src_parent) ≡ some e
  pub dst_walk : walk_dirs dst_dir root ≡ some dst_parent
  pub apart : is_prefix (src_dir ++ src_name ∷ []) dst_dir ≡ false
  pub dst_free : (x : Entry) → find dst_name (children dst_parent) ≡ some x → is_dir x ≡ false

module _ (src_dir : List String) (src_name : String) (dst_dir : List String) (dst_name : String)
    (e : Entry) (now : Time) (root : Entry)
    (m : IsMovable src_dir src_name dst_dir dst_name e root) where
  abbrev src : List String
  src = src_dir ++ src_name ∷ []

  abbrev dst : List String
  dst = dst_dir ++ dst_name ∷ []

  abbrev cleared : Entry
  cleared = modify dst_dir (detach dst_name) root

  abbrev detached : Entry
  detached = modify src_dir (detach src_name) cleared

  abbrev attached : Entry
  attached = modify dst_dir (attach dst_name (renamed dst_name now e)) detached

  abbrev touched : Entry
  touched = modify src_dir (touch now) attached

  -- The destination is no directory above the source.
  dst_not_above : is_prefix dst src_dir ≡ false
  dst_not_above = elim (Bool-cases (is_prefix dst src_dir)) [
    | inr apart ↦ apart
    | inl above ↦
        let (y, through) = walk_dirs-prefix dst src_dir root m.src_walk above in
        let there =
          sym (lookup_last dst_dir dst_name root (walk_dirs-lookup dst_dir root m.dst_walk))
          ∙ walk_dirs-lookup dst root through in
        cc (walk_dirs-is_dir dst root m.top through, m.dst_free y there)
  ]

  detached_kind : kind_at dst_dir detached ≡ kind_at dst_dir root
  detached_kind =
      kind_at-modify (only src_name) (detach src_name) (detach-IsLocal src_name) src_dir dst_dir
        cleared (hits-only src_dir dst_dir src_name ∙ m.apart)
      ∙ kind_at-modify (only dst_name) (detach dst_name) (detach-IsLocal dst_name) dst_dir dst_dir
          root (hits-only dst_dir dst_dir dst_name ∙ is_prefix-longer dst_dir dst_name)

  -- The destination's parent is still a directory when the source is attached.
  pub dst_still : (d : Entry) × (lookup_parts dst_dir detached ≡ some d) × (is_dir d ≡ true)
  unfolding kind_at
  dst_still =
      let here = walk_dirs-lookup dst_dir root m.dst_walk in
      let kind = walk_dirs-is_dir dst_dir root m.top m.dst_walk in
      elim (Option-cases (lookup_parts dst_dir detached)) [
        | inl gone ↦ absurd (ground (arith, detached_kind))
        | inr (d, there) ↦ (d, there, ground (arith, detached_kind))
      ]

  -- The whole subtree stands at the destination.
  pub lookup-move-dst :
      lookup_parts dst (move src_dir src_name dst_dir dst_name e now root)
      ≡ some (renamed dst_name now e)
  unfolding move
  lookup-move-dst =
      let (d, there, _) = dst_still in
      lookup_parts-modify nothing (touch now) (touch-IsLocal now) dst_dir dst touched
        (hits-nothing dst_dir dst) (is_prefix-longer dst_dir dst_name)
      ∙ lookup_parts-modify nothing (touch now) (touch-IsLocal now) src_dir dst attached
          (hits-nothing src_dir dst) dst_not_above
      ∙ lookup-modify dst_dir (dst_name ∷ []) (attach dst_name (renamed dst_name now e)) detached
      ∙ rw there
          (lookup_one dst_name _ ∙ find-put_self dst_name (renamed dst_name now e) (children d))

  kind_at-touches :
      (q : List String)
      → kind_at q (move src_dir src_name dst_dir dst_name e now root) ≡ kind_at q attached
  unfolding move
  kind_at-touches q =
      kind_at-modify nothing (touch now) (touch-IsLocal now) dst_dir q touched
        (hits-nothing dst_dir q)
      ∙ kind_at-modify nothing (touch now) (touch-IsLocal now) src_dir q attached
          (hits-nothing src_dir q)

  detached-src : kind_at src detached ≡ none
  unfolding kind_at
  detached-src =
      rw (lookup-modify src_dir (src_name ∷ []) (detach src_name) cleared)
        (elim (Option-cases (lookup_parts src_dir cleared)) [
          | inl gone ↦ rw gone
          | inr (d, there) ↦
              rw (there, lookup_one src_name (detach src_name d), find-remove, ==_refl src_name)
        ])

  -- Nothing is left at the source, unless it is the destination.
  pub lookup-move-src :
      src ≢ dst → lookup_parts src (move src_dir src_name dst_dir dst_name e now root) ≡ none
  lookup-move-src ne =
      let elsewhere : is_prefix dst src ≡ false = elim (Bool-cases (is_prefix dst src)) [
        | inr off ↦ off
        | inl below ↦ absurd (ne (sym (is_prefix-last dst src_dir src_name below dst_not_above)))
      ] in
      let gone =
        kind_at-touches src
        ∙ kind_at-modify (only dst_name) _ (attach-IsLocal dst_name (renamed dst_name now e))
            dst_dir src detached (hits-only dst_dir src dst_name ∙ elsewhere)
        ∙ detached-src in
      unfold kind_at in ground (arith, gone)

  -- Nothing else changes, but the times of the two parents.
  pub attrs_at-move :
      (q : List String)
      → is_prefix src q ≡ false
      → is_prefix dst q ≡ false
      → q ≢ src_dir
      → q ≢ dst_dir
      → attrs_at q (move src_dir src_name dst_dir dst_name e now root) ≡ attrs_at q root
  unfolding move
  attrs_at-move q off_src off_dst not_src not_dst =
      attrs_at-modify nothing (touch now) (touch-IsLocal now) dst_dir q touched
        (hits-nothing dst_dir q) not_dst
      ∙ attrs_at-modify nothing (touch now) (touch-IsLocal now) src_dir q attached
          (hits-nothing src_dir q) not_src
      ∙ attrs_at-modify (only dst_name) _ (attach-IsLocal dst_name (renamed dst_name now e)) dst_dir
          q detached (hits-only dst_dir q dst_name ∙ off_dst) not_dst
      ∙ attrs_at-modify (only src_name) _ (detach-IsLocal src_name) src_dir q cleared
          (hits-only src_dir q src_name ∙ off_src) not_src
      ∙ attrs_at-modify (only dst_name) _ (detach-IsLocal dst_name) dst_dir q root
          (hits-only dst_dir q dst_name ∙ off_dst) not_dst
