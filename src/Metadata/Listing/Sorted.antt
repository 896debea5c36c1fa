-- ===== src/Metadata/Listing/Sorted.antt =====
-- The order of a listing.

use mathlib.Core.List.{Perm}
use mathlib.Core.List.Perm
use fstorex.Base.{
  ◌<>◌, ◌&&◌, ◌||◌, not, ◌==◌, string_eq, if◌then◌else◌, if_both, String, ◌≡◌, ◌∙◌, refl, ap, subst,
  map, true, false, some, List, [], ◌∷◌, arith, nat_eq, All, Bool-cases, inl, inr,
}
use fstorex.Base.Text.{has_prefix}
use fstorex.DataNode.Paths.{clean_rooted}
use fstorex.Metadata.Paths.{split_path}
use fstorex.Metadata.Paths.Split.{IsName}
use fstorex.Metadata.Tree.Shape.{AllWellFormed, children-AllWellFormed, lookup-IsWellFormed}
use fstorex.Metadata.Apply.Trees.{IsTree}
use fstorex.Metadata.Listing.Paths.{join_clean-name}
use fstorex.Types.{FileInfo}
use fstorex.Metadata.Tree.{Entry, Children, empty, bind, attrs, children, is_dir}
use fstorex.Metadata.State.{MetadataServer}
use fstorex.Metadata.Apply.{lookup}
use fstorex.Metadata.Server.{answer}
use fstorex.Metadata.Listing.{
  text_lt, join_clean, stands_before, insert_info, sort_infos, child_infos, list_dir,
}

-- No info stands before an earlier one.
abbrev pub IsSorted : List FileInfo → Type 0
IsSorted [] = Unit
IsSorted (a ∷ infos) = All (λ b. stands_before b a ≡ false) infos × IsSorted infos

text_lt_antisymm : (s t : String) → text_lt s t ≡ true → text_lt t s ≡ false
unfolding text_lt
text_lt_antisymm s String.[] h = ground (arith, h)
text_lt_antisymm String.[] (String.◌∷◌ d t) h = refl
text_lt_antisymm (String.◌∷◌ c s) (String.◌∷◌ d t) h = ground (arith, h, text_lt_antisymm s t)

text_lt_trans : (s t u : String) → text_lt t s ≡ false → text_lt u t ≡ false → text_lt u s ≡ false
unfolding text_lt
text_lt_trans String.[] t u h k = refl
text_lt_trans (String.◌∷◌ c s) String.[] u h k = ground (arith, h)
text_lt_trans (String.◌∷◌ c s) (String.◌∷◌ d t) String.[] h k = ground (arith, k)
text_lt_trans (String.◌∷◌ c s) (String.◌∷◌ d t) (String.◌∷◌ e u) h k =
    ground (arith, h, k, text_lt_trans s t u)

stands_before_antisymm : (a b : FileInfo) → stands_before a b ≡ true → stands_before b a ≡ false
unfolding stands_before
stands_before_antisymm a b h = ground (arith, h, text_lt_antisymm a.name b.name)

stands_before_trans :
    (a b c : FileInfo)
    → stands_before b a ≡ false
    → stands_before c b ≡ false
    → stands_before c a ≡ false
unfolding stands_before
stands_before_trans a b c h k = ground (arith, h, k, text_lt_trans a.name b.name c.name)

All-behind :
    (a b : FileInfo) (infos : List FileInfo)
    → stands_before b a ≡ false
    → All (λ c. stands_before c b ≡ false) infos
    → All (λ c. stands_before c a ≡ false) infos
All-behind a b [] h all = tt
All-behind a b (c ∷ infos) h all = (stands_before_trans a b c h all.0, All-behind a b infos h all.1)

All-insert_info :
    (P : FileInfo → Type 0) (a : FileInfo) (infos : List FileInfo)
    → P a
    → All P infos
    → All P (insert_info a infos)
unfolding insert_info
All-insert_info P a [] h all = (h, tt)
All-insert_info P a (b ∷ infos) h all = elim (Bool-cases (stands_before b a)) [
  | inl before ↦ rw before (all.0, All-insert_info P a infos h all.1)
  | inr behind ↦ rw behind (h, all)
]

insert_info-IsSorted :
    (a : FileInfo) (infos : List FileInfo) → IsSorted infos → IsSorted (insert_info a infos)
unfolding insert_info
insert_info-IsSorted a [] sorted = (tt, tt)
insert_info-IsSorted a (b ∷ infos) sorted = elim (Bool-cases (stands_before b a)) [
  | inl before ↦ rw before (
    All-insert_info (λ c. stands_before c b ≡ false) a infos (stands_before_antisymm b a before)
        sorted.0,
    insert_info-IsSorted a infos sorted.1,
  )
  | inr behind ↦ rw behind ((behind, All-behind a b infos behind sorted.0), sorted)
]

insert_info-perm : (a : FileInfo) (infos : List FileInfo) → Perm (insert_info a infos) (a ∷ infos)
unfolding insert_info
insert_info-perm a [] = Perm.refl (a ∷ [])
insert_info-perm a (b ∷ infos) = elim (Bool-cases (stands_before b a)) [
  | inl before ↦
      rw before (Perm.trans (Perm.cons b (insert_info-perm a infos)) (Perm.swap a b infos))
  | inr behind ↦ rw behind (Perm.refl (a ∷ (b ∷ infos)))
]

sort_infos-IsSorted : (infos : List FileInfo) → IsSorted (sort_infos infos)
unfolding sort_infos
sort_infos-IsSorted [] = tt
sort_infos-IsSorted (a ∷ infos) =
    insert_info-IsSorted a (sort_infos infos) (sort_infos-IsSorted infos)

sort_infos-perm : (infos : List FileInfo) → Perm (sort_infos infos) infos
unfolding sort_infos
sort_infos-perm [] = Perm.refl []
sort_infos-perm (a ∷ infos) =
    Perm.trans (insert_info-perm a (sort_infos infos)) (Perm.cons a (sort_infos-perm infos))

-- Directories stand before files, and among their like names do not fall.
pub record InOrder (a b : FileInfo) : Type 0 where
  pub dirs_first : b.is_dir ≡ true → a.is_dir ≡ true
  pub by_name : a.is_dir ≡ b.is_dir → text_lt b.name a.name ≡ false

abbrev pub IsListing : List FileInfo → Type 0
IsListing [] = Unit
IsListing (a ∷ infos) = All (InOrder a) infos × IsListing infos

stands_before-InOrder : (a b : FileInfo) → stands_before b a ≡ false → InOrder a b
unfolding stands_before
stands_before-InOrder a b h = record {
  dirs_first = λ dir. ground (arith, h, dir);
  by_name = λ alike. ground (arith, h, alike);
}

All-InOrder :
    (a : FileInfo) (infos : List FileInfo)
    → All (λ b. stands_before b a ≡ false) infos
    → All (InOrder a) infos
All-InOrder a [] all = tt
All-InOrder a (b ∷ infos) all = (stands_before-InOrder a b all.0, All-InOrder a infos all.1)

IsSorted-IsListing : (infos : List FileInfo) → IsSorted infos → IsListing infos
IsSorted-IsListing [] sorted = tt
IsSorted-IsListing (a ∷ infos) sorted =
    (All-InOrder a infos sorted.0, IsSorted-IsListing infos sorted.1)

-- The children of a directory, with their keys.
abbrev pub bindings : Children → List (String × Entry)
bindings empty = []
bindings (bind name child cs) = (name, child) ∷ bindings cs

-- The path of a child: under a rooted path it is the clean path with the child's name behind it,
-- but for the names "." and "..", which `filepath.Join` takes for themselves.
abbrev pub child_path : String → String → String
child_path path name =
    if has_prefix path "/" && not (name == "." || name == "..")
    then clean_rooted path <> "/" <> name
    else join_clean path name

-- What a listing has of a child.
abbrev pub info_for : String → String × Entry → FileInfo
info_for path (name, child) = record {
  name = name;
  path = child_path path name;
  is_dir = (attrs child).is_dir;
  size = (attrs child).size;
  mode = (attrs child).mode;
  created_at = (attrs child).created_at;
  mod_time = (attrs child).mod_time;
  file_id = (attrs child).file_id;
}

join_clean-child_path :
    (path name : String) → IsName name → join_clean path name ≡ child_path path name
join_clean-child_path path name valid =
    if_both (λ q. join_clean path name ≡ q)
      (has_prefix path "/" && not (name == "." || name == ".."))
      (λ plain.
        join_clean-name path name (ground (arith, plain)) valid (λ h. ground (arith, plain, h))
          (λ h. ground (arith, plain, h)))
      (λ _. refl)

child_infos-bindings :
    (path : String) (cs : Children)
    → AllWellFormed cs
    → child_infos path cs ≡ map (info_for path) (bindings cs)
unfolding child_infos
child_infos-bindings path empty w = refl
child_infos-bindings path (bind name child cs) w =
    ap (λ q. record (info_for path (name, child)) { path = q } ∷ child_infos path cs)
      (join_clean-child_path path name w.0.valid)
    ∙ ap (◌∷◌ (info_for path (name, child))) (child_infos-bindings path cs w.3)

-- The listing of a directory of a well-formed tree has each of its children once, with its key as
-- the name, its path, and the child's own fields; every directory stands before every file, and
-- among directories, and among files, no name stands behind a greater one.
pub list_dir-sorts :
    (path : String) (mds : MetadataServer) (e : Entry)
    → IsTree mds.root
    → lookup mds path ≡ some e
    → is_dir e ≡ true
    → (infos : List FileInfo) × (list_dir path mds ≡ answer infos)
      × Perm infos (map (info_for path) (bindings (children e)))
      × IsListing infos
unfolding list_dir lookup
list_dir-sorts path mds e tree here dir =
    let infos : List FileInfo = child_infos path (children e) in
    let named : infos ≡ map (info_for path) (bindings (children e)) =
      child_infos-bindings path (children e) (
        children-AllWellFormed e
          (lookup-IsWellFormed (split_path path) mds.root tree.shape here)) in
    (
      sort_infos infos,
      ground (arith, here, dir),
      subst (Perm (sort_infos infos)) named (sort_infos-perm infos),
      IsSorted-IsListing (sort_infos infos) (sort_infos-IsSorted infos),
    )
