-- ===== src/Metadata/Tree.antt =====
-- The directory tree: `entry` and the walks over it (internal/metadata/mds.go). The pointers of a
-- tree are modelled by its paths: a write through the pointer that a walk has reached is `modify`
-- at the walk's path.
pub mod Modify
pub mod Frame
pub mod Shape
use fstorex.Base.{
  ℕ, String, Bool, true, false, Option, none, some, List, [], ◌∷◌, ◌==◌, string_eq, if◌then◌else◌,
}
use fstorex.Types.{ℤ, Time, Replica}

-- The fields of an `entry` but its children.
pub record Attrs : Type 0 where
  pub name : String
  pub is_dir : Bool
  pub size : ℤ
  pub mode : ℕ
  pub created_at : Time
  pub mod_time : Time
  pub status : String
  pub file_id : String
  pub replicas : List Replica

mutual
  pub data Entry : Type 0 where
    entry : Attrs → Children → Entry

  -- `map[string]*entry`. A nil map is empty.
  pub data Children : Type 0 where
    empty : Children
    bind : String → Entry → Children → Children

abbrev pub attrs : Entry → Attrs
attrs (entry a cs) = a

abbrev pub children : Entry → Children
children (entry a cs) = cs

abbrev pub is_dir : Entry → Bool
is_dir e = (attrs e).is_dir

-- `children[name]`
unfoldable pub find : String → Children → Option Entry
find k empty = none
find k (bind j e cs) = if j == k then some e else find k cs

-- `children[name] = e`
unfoldable pub put : String → Entry → Children → Children
put k e empty = bind k e empty
put k e (bind j d cs) = if j == k then bind k e cs else bind j d (put k e cs)

-- `delete(children, name)`
unfoldable pub remove : String → Children → Children
remove k empty = empty
remove k (bind j e cs) = let rest = remove k cs in if j == k then rest else bind j e rest

-- The walk of `lookup` over the parts of a path.
unfoldable pub lookup_parts : List String → Entry → Option Entry
lookup_parts [] e = some e
lookup_parts (p ∷ ps) e = elim (find p (children e)) [ none ↦ none | some c ↦ lookup_parts ps c ]

-- The walk over parent directories: `!exists || !child.isDir` ends it.
unfoldable pub walk_dirs : List String → Entry → Option Entry
walk_dirs [] e = some e
walk_dirs (p ∷ ps) e = elim (find p (children e)) [
  | none ↦ none
  | some c ↦ let rest = walk_dirs ps c in if is_dir c then rest else none
]

-- A write through the pointer to the entry at a path.
unfoldable pub modify : List String → (Entry → Entry) → Entry → Entry
modify [] f e = f e
modify (p ∷ ps) f e = elim (find p (children e)) [
  | none ↦ e
  | some c ↦ entry (attrs e) (put p (modify ps f c) (children e))
]
