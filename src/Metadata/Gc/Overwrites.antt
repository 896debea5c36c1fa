-- ===== src/Metadata/Gc/Overwrites.antt =====
-- What becomes of the data of a file that is overwritten: the creation keeps the file's FileID, but
-- places its replicas under a new one.
use fstorex.Base.{
  String, ◌≡◌, refl, sym, ap, ◌∙◌, false, not, none, some, Option, List, [], ◌∷◌, arith, string_eq,
  contains, ◌==◌, contains-append, Option-cases, if_both, option_both, inl, inr,
}
use mathlib.Core.Option.{some-injective}
use fstorex.Metadata.Tree.{
  Attrs, Entry, entry, Children, empty, bind, attrs, children, is_dir, find, put, modify,
  lookup_parts, walk_dirs,
}
use fstorex.Metadata.Tree.Modify.{modify-step, modify-gone, lookup-step, walk_dirs-lookup}
use fstorex.Types.{Time}
use fstorex.Metadata.Paths.{split_path}
use fstorex.Metadata.State.{CommandPayload, MetadataServer, Applied}
use fstorex.Metadata.Apply.{
  touch, attach, lookup, split_last, overwrites, new_file, apply_create_file,
}
use fstorex.Metadata.Apply.Named.{looked_up}
use fstorex.Metadata.Gc.{collect_file_ids, collect_children}

-- Two entries with the same FileIDs.
abbrev pub SameIds : String → Entry → Entry → Type 0
SameIds id d e = contains (collect_file_ids d) id ≡ contains (collect_file_ids e) id

contains-put :
    (id p : String) (c d : Entry) (cs : Children)
    → find p cs ≡ some c
    → SameIds id d c
    → contains (collect_children (put p d cs)) id ≡ contains (collect_children cs) id
unfolding put find collect_file_ids
contains-put id p c d empty here same = ground (arith, here)
contains-put id p c d (bind j e cs) here same =
    if_both (λ ds. contains (collect_children ds) id ≡ contains (collect_children (bind j e cs)) id)
      (j == p)
      (λ first.
        let found : e ≡ c = some-injective e c (ground (arith, here, first)) in
        ground (
          arith,
          same,
          ap (λ x. contains (collect_file_ids x) id) found,
          contains-append (collect_file_ids d) (collect_children cs) id,
          contains-append (collect_file_ids e) (collect_children cs) id,
        ))
      (λ later. ground (
        arith,
        contains-append (collect_file_ids e) (collect_children (put p d cs)) id,
        contains-append (collect_file_ids e) (collect_children cs) id,
        contains-put id p c d cs (ground (arith, here, later)) same,
      ))

contains-entry :
    (id : String) (a : Attrs) (cs ds : Children)
    → contains (collect_children cs) id ≡ contains (collect_children ds) id
    → SameIds id (entry a cs) (entry a ds)
unfolding collect_file_ids
contains-entry id a cs ds same = ground (arith, same)

contains-modify :
    (id : String) (ps : List String) (f : Entry → Entry) (e : Entry)
    → ((x : Entry) → lookup_parts ps e ≡ some x → SameIds id (f x) x)
    → SameIds id (modify ps f e) e
contains-modify id [] f e same = unfold modify lookup_parts in same e refl
contains-modify id (p ∷ ps) f (entry a cs) same = elim (Option-cases (find p cs)) [
  | inl gone ↦ rw (modify-gone p ps a cs f gone) refl
  | inr (c, here) ↦ rw (modify-step p ps a cs f here) (
      contains-entry id a (put p (modify ps f c) cs) cs (
        contains-put id p c (modify ps f c) cs here
          (contains-modify id ps f c (λ x there. same x (lookup-step p ps a cs here ∙ there)))))
]

files-SameIds :
    (id : String) (d e : Entry)
    → is_dir d ≡ false
    → is_dir e ≡ false
    → (attrs d).file_id ≡ (attrs e).file_id
    → SameIds id d e
unfolding collect_file_ids
files-SameIds id (entry a cs) (entry b ds) left right same = ground (arith, left, right, same)

-- A directory with a file put in the place of one that has its FileID.
attached-SameIds :
    (id name : String) (now : Time) (d file old : Entry)
    → find name (children d) ≡ some old
    → is_dir old ≡ false
    → is_dir file ≡ false
    → (attrs file).file_id ≡ (attrs old).file_id
    → SameIds id (touch now (attach name file d)) d
unfolding collect_file_ids
attached-SameIds id name now (entry a cs) file old here was is same =
    ground (arith, contains-put id name old file cs here (files-SameIds id file old is was same))

absurd_at : {o : Option Entry} {e : Entry} {A : Type 0} → o ≡ none → o ≡ some e → A
absurd_at gone there = cc

module _ (p : CommandPayload) (now : Time) (mds : MetadataServer) (id : String) where
  -- What a command leaves has the FileIDs of what it met.
  abbrev pub KeepsIds : Applied → Type 0
  KeepsIds r = SameIds id r.0.root mds.root

  -- A creation that replaces a file brings no FileID into the tree, and takes none out.
  pub overwriting-KeepsIds :
      (old : Entry) → lookup mds p.path ≡ some old → KeepsIds (apply_create_file p now mds)
  unfolding apply_create_file
  overwriting-KeepsIds old there =
      option_both KeepsIds (split_last (split_path p.path)) (λ _. refl)
        λ (dir, n) parts.
          option_both KeepsIds (walk_dirs dir mds.root) (λ _. refl)
            λ d walked.
              option_both KeepsIds (find n (children d))
                (λ free. absurd_at (looked_up p.path parts mds walked free) there)
                λ e here.
                  if_both KeepsIds (is_dir e) (λ _. refl)
                    λ was.
                      if_both KeepsIds (not (overwrites p.create_mode)) (λ _. refl)
                        λ over.
                          contains-modify id dir
                            (λ x. touch now (
                              attach n (new_file n p (attrs e).created_at (attrs e).file_id now) x))
                            mds.root
                            (λ x found.
                              attached-SameIds id n now x
                                (new_file n p (attrs e).created_at (attrs e).file_id now) e
                                (ap (λ y. find n (children y))
                                    (some-injective x d
                                      (sym found ∙ walk_dirs-lookup dir mds.root walked))
                                  ∙ here)
                                was refl refl)
