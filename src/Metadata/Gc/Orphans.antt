-- ===== src/Metadata/Gc/Orphans.antt =====
-- Every FileID that the collector takes from a tree is that of a file there.
use fstorex.Base.{
  String, ◌≡◌, refl, ◌∙◌, true, false, some, none, List, [], ◌∷◌, arith, string_eq, contains,
  contains-append, Bool-cases, inl, inr, ◌⊎◌,
}
use fstorex.Metadata.Tree.{
  Attrs, Entry, entry, Children, empty, bind, attrs, is_dir, find, lookup_parts,
}
use fstorex.Metadata.Tree.Modify.{lookup-step}
use fstorex.Metadata.Tree.Shape.{IsWellFormed, AllWellFormed}
use fstorex.Metadata.Gc.{collect_file_ids, collect_children}

-- A file below an entry with a FileID.
abbrev pub FileOf : Entry → String → Type 0
FileOf root id =
    (ps : List String) × (e : Entry) × (lookup_parts ps root ≡ some e)
    × (is_dir e ≡ false)
    × ((attrs e).file_id ≡ id)

-- The child under whose name it stands.
abbrev ChildOf : Children → String → Type 0
ChildOf cs id = (n : String) × (d : Entry) × (find n cs ≡ some d) × FileOf d id

collected_either :
    (n id : String) (e : Entry) (cs : Children)
    → contains (collect_children (bind n e cs)) id ≡ true
    → (contains (collect_file_ids e) id ≡ true) ⊎ (contains (collect_children cs) id ≡ true)
unfolding collect_file_ids
collected_either n id e cs inside = elim (Bool-cases (contains (collect_file_ids e) id)) [
  | inl here ↦ inl here
  | inr away ↦
      inr (
        ground (arith, inside, away, contains-append (collect_file_ids e) (collect_children cs) id))
]

find-first : (n : String) (e : Entry) (cs : Children) → find n (bind n e cs) ≡ some e
unfolding find
find-first n e cs = ground arith

find-later :
    (n m : String) (e : Entry) (cs : Children) {d : Entry}
    → find n cs ≡ none
    → find m cs ≡ some d
    → find m (bind n e cs) ≡ some d
unfolding find
find-later n m e cs fresh there = ground arith

own_file :
    (a : Attrs) (cs : Children) (id : String)
    → a.is_dir ≡ false
    → contains (collect_file_ids (entry a cs)) id ≡ true
    → FileOf (entry a cs) id
unfolding collect_file_ids lookup_parts
own_file a cs id file inside = ([], entry a cs, refl, file, ground (arith, file, inside))

below :
    (a : Attrs) (cs : Children) (id : String)
    → a.is_dir ≡ true
    → contains (collect_file_ids (entry a cs)) id ≡ true
    → contains (collect_children cs) id ≡ true
unfolding collect_file_ids
below a cs id dir inside = ground (arith, dir, inside)

step : (a : Attrs) (cs : Children) (id : String) → ChildOf cs id → FileOf (entry a cs) id
step a cs id (n, d, there, (ps, e, here, file, same)) =
    (n ∷ ps, e, lookup-step n ps a cs there ∙ here, file, same)

later :
    (n : String) (e : Entry) (cs : Children) (id : String)
    → find n cs ≡ none
    → ChildOf cs id
    → ChildOf (bind n e cs) id
later n e cs id fresh (m, d, there, deeper) = (m, d, find-later n m e cs fresh there, deeper)

none_collected : (id : String) → contains (collect_children empty) id ≡ true → ChildOf empty id
unfolding collect_file_ids
none_collected id inside = cc

mutual
  pub collected-FileOf :
      (root : Entry) (id : String)
      → IsWellFormed root
      → contains (collect_file_ids root) id ≡ true
      → FileOf root id
  collected-FileOf (entry a cs) id w inside = elim (Bool-cases a.is_dir) [
    | inr file ↦ own_file a cs id file inside
    | inl dir ↦ step a cs id (collected-ChildOf cs id w.1 (below a cs id dir inside))
  ]

  collected-ChildOf :
      (cs : Children) (id : String)
      → AllWellFormed cs
      → contains (collect_children cs) id ≡ true
      → ChildOf cs id
  collected-ChildOf empty id w inside = none_collected id inside
  collected-ChildOf (bind n e cs) id w inside = elim (collected_either n id e cs inside) [
    | inl here ↦ (n, e, find-first n e cs, collected-FileOf e id w.1 here)
    | inr there ↦ later n e cs id w.2 (collected-ChildOf cs id w.3 there)
  ]
