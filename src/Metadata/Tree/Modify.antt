-- ===== src/Metadata/Tree/Modify.antt =====
-- What lookups see after a write: `find` after `put` and `remove`, and walks after `modify`.
use fstorex.Base.{
  String, ◌≡◌, refl, Option, none, some, List, [], ◌∷◌, ◌++◌, arith, ◌==◌, string_eq, if◌then◌else◌,
  Option-cases, ◌∙◌, inl, inr, ==_refl,
}
use fstorex.Metadata.Tree.{
  Attrs, Entry, entry, Children, empty, bind, attrs, children, find, put, remove, lookup_parts,
  walk_dirs, modify,
}

pub find-put :
    (j k : String) (e : Entry) (cs : Children)
    → find j (put k e cs) ≡ (if k == j then some e else find j cs)
unfolding find put
find-put j k e empty = refl
find-put j k e (bind i d cs) = ground (arith, find-put j k e cs)

pub find-put_self : (k : String) (e : Entry) (cs : Children) → find k (put k e cs) ≡ some e
find-put_self k e cs = rw (find-put, ==_refl k)

pub find-remove :
    (j k : String) (cs : Children) → find j (remove k cs) ≡ (if k == j then none else find j cs)
unfolding find remove
find-remove j k empty = ground arith
find-remove j k (bind i d cs) = ground (arith, find-remove j k cs)

-- The next step of a chain of lookups.
abbrev pub and_then {ℓ} : {B : Type ℓ} → Option Entry → (Entry → Option B) → Option B
and_then none f = none
and_then (some e) f = f e

-- The fields of the entry at a path.
unfoldable pub attrs_at : List String → Entry → Option Attrs
attrs_at q e = and_then (lookup_parts q e) (λ x. some (attrs x))

pub find-empty : (n : String) → find n empty ≡ none
unfolding find
find-empty n = refl

-- One step of a walk.
module _ (p : String) (ps : List String) (a : Attrs) (cs : Children) where
  pub lookup-step :
      {c : Entry} → find p cs ≡ some c → lookup_parts (p ∷ ps) (entry a cs) ≡ lookup_parts ps c
  unfolding lookup_parts
  lookup-step here = rw (here, lookup_parts)

  pub lookup-gone : find p cs ≡ none → lookup_parts (p ∷ ps) (entry a cs) ≡ none
  unfolding lookup_parts
  lookup-gone gone = rw (gone, lookup_parts)

  pub modify-step :
      (f : Entry → Entry) {c : Entry}
      → find p cs ≡ some c
      → modify (p ∷ ps) f (entry a cs) ≡ entry a (put p (modify ps f c) cs)
  unfolding modify
  modify-step f here = rw (here, modify)

  pub modify-gone :
      (f : Entry → Entry) → find p cs ≡ none → modify (p ∷ ps) f (entry a cs) ≡ entry a cs
  unfolding modify
  modify-gone f gone = rw (gone, modify)

-- Below a directory, a lookup depends on the one child that it goes through.
pub lookup_congr :
    (j : String) (q : List String) (d e : Entry)
    → find j (children d) ≡ find j (children e)
    → lookup_parts (j ∷ q) d ≡ lookup_parts (j ∷ q) e
unfolding lookup_parts
lookup_congr j q d e h = rw (h, lookup_parts)

pub lookup-append :
    (ps qs : List String) (e : Entry)
    → lookup_parts (ps ++ qs) e ≡ and_then (lookup_parts ps e) (lookup_parts qs)
lookup-append [] qs e = unfold lookup_parts in refl
lookup-append (p ∷ ps) qs (entry a cs) = elim (Option-cases (find p cs)) [
  | inl gone ↦ rw (lookup-gone p (ps ++ qs) a cs gone, lookup-gone p ps a cs gone)
  | inr (c, here) ↦
      rw (lookup-step p (ps ++ qs) a cs here, lookup-step p ps a cs here) (lookup-append ps qs c)
]

-- What a path below a written entry leads to: the lookup goes on from what the write left.
pub lookup-modify :
    (ps qs : List String) (f : Entry → Entry) (e : Entry)
    → lookup_parts (ps ++ qs) (modify ps f e)
      ≡ and_then (lookup_parts ps e) (λ x. lookup_parts qs (f x))
lookup-modify [] qs f e = unfold lookup_parts modify in refl
lookup-modify (p ∷ ps) qs f (entry a cs) = elim (Option-cases (find p cs)) [
  | inl gone ↦
      rw (
        modify-gone p ps a cs f gone,
        lookup-gone p (ps ++ qs) a cs gone,
        lookup-gone p ps a cs gone,
      )
  | inr (c, here) ↦
      rw (modify-step p ps a cs f here, lookup-step p ps a cs here)
        (lookup-step p (ps ++ qs) a _ (find-put_self p (modify ps f c) cs)
          ∙ lookup-modify ps qs f c)
]

-- A directory that the guarded walk reaches is what the plain one finds.
pub walk_dirs-lookup :
    (ps : List String) (e : Entry) {d : Entry}
    → walk_dirs ps e ≡ some d
    → lookup_parts ps e ≡ some d
unfolding lookup_parts walk_dirs
walk_dirs-lookup [] e h = h
walk_dirs-lookup (p ∷ ps) (entry a cs) {d} h = elim (Option-cases (find p cs)) [
  | inl gone ↦ ground arith
  | inr (c, here) ↦ ground (arith, walk_dirs-lookup ps c {d = d})
]
