-- ===== src/Metadata/Apply/Writes.antt =====
-- The writes of the commands are local.
use fstorex.Base.{
  ◌≡◌, refl, Option-cases, inl, inr, String, Bool, some, List, [], ◌∷◌, ◌++◌, arith, string_eq,
}
use fstorex.Types.{Time}
use fstorex.Metadata.Tree.{Entry, children, find, lookup_parts}
use fstorex.Metadata.Tree.Modify.{find-put, find-remove, lookup-append}
use fstorex.Metadata.Tree.Frame.{IsLocal, only, nothing}
use fstorex.Metadata.Apply.{touch, attach, detach}

pub touch-IsLocal : (now : Time) → IsLocal nothing (touch now)
touch-IsLocal now = record { others = λ x j h. refl; same_kind = λ x. refl }

pub attach-IsLocal : (n : String) (e : Entry) → IsLocal (only n) (attach n e)
attach-IsLocal n e = record {
  others = λ x j h. ground (arith, find-put j n e (children x));
  same_kind = λ x. refl;
}

pub detach-IsLocal : (n : String) → IsLocal (only n) (detach n)
detach-IsLocal n = record {
  others = λ x j h. ground (arith, find-remove j n (children x));
  same_kind = λ x. refl;
}

-- A touch after a write adds nothing to what the write changes.
pub IsLocal-touch :
    (c : String → Bool) (f : Entry → Entry) (now : Time)
    → IsLocal c f
    → IsLocal c (λ x. touch now (f x))
IsLocal-touch c f now l = record { others = l.others; same_kind = l.same_kind }

pub lookup_one : (n : String) (d : Entry) → lookup_parts (n ∷ []) d ≡ find n (children d)
unfolding lookup_parts
lookup_one n d = elim (Option-cases (find n (children d))) [
  | inl gone ↦ rw (gone, lookup_parts)
  | inr (c, here) ↦ rw (here, lookup_parts)
]

-- The entry under a name of a directory that a path leads to.
pub lookup_last :
    (ps : List String) (n : String) (root : Entry) {d : Entry}
    → lookup_parts ps root ≡ some d
    → lookup_parts (ps ++ n ∷ []) root ≡ find n (children d)
lookup_last ps n root h = rw (lookup-append ps (n ∷ []) root, h) (lookup_one n _)
