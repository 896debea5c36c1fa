-- ===== src/Metadata/Apply/Trees.antt =====
-- The writes of the commands keep a tree well formed.
use fstorex.Base.{◌≡◌, refl, ◌∙◌, sym, String, true, some, List, [], ◌∷◌, arith, subst, string_eq}
use mathlib.Core.Option.{some-injective}
use fstorex.Types.{Time}
use fstorex.Metadata.Tree.{
  Attrs, Entry, entry, attrs, children, is_dir, remove, lookup_parts, walk_dirs, modify,
}
use fstorex.Metadata.Tree.Modify.{walk_dirs-lookup}
use fstorex.Metadata.Tree.Shape.{
  IsNamed, IsWellFormed, KeepsShape, put-AllWellFormed, remove-AllWellFormed, modify-IsWellFormed,
}
use fstorex.Metadata.Apply.{touch, attach, detach}
use fstorex.Metadata.Apply.Parts.{walk_dirs-is_dir}

-- A tree under a root directory.
pub record IsTree (root : Entry) : Type 0 where
  pub root_is_dir : is_dir root ≡ true
  pub shape : IsWellFormed root

pub touch-KeepsShape : (now : Time) (x : Entry) → KeepsShape (touch now) x
touch-KeepsShape now (entry a cs) = record { well_formed = λ w. w; same_name = refl }

pub attach-KeepsShape :
    (n : String) (e x : Entry)
    → is_dir x ≡ true
    → IsNamed n e
    → IsWellFormed e
    → KeepsShape (attach n e) x
attach-KeepsShape n e (entry a cs) dir named v = record {
  well_formed = λ w. (λ leaf. cc, put-AllWellFormed n e cs named v w.1);
  same_name = refl;
}

pub detach-KeepsShape : (n : String) (x : Entry) → KeepsShape (detach n) x
unfolding remove
detach-KeepsShape n (entry a cs) = record {
  well_formed = λ w. (λ leaf. rw (w.0 leaf), remove-AllWellFormed n cs w.1);
  same_name = refl;
}

touch-IsWellFormed : (now : Time) (x : Entry) → IsWellFormed x → IsWellFormed (touch now x)
touch-IsWellFormed now (entry a cs) w = w

pub KeepsShape-touch :
    (now : Time) (f : Entry → Entry) (x : Entry)
    → KeepsShape f x
    → KeepsShape (λ d. touch now (f d)) x
KeepsShape-touch now f x k = record {
  well_formed = λ w. touch-IsWellFormed now (f x) (k.well_formed w);
  same_name = k.same_name;
}

is_dir-modify :
    (ps : List String) (f : Entry → Entry) (root : Entry)
    → ((x : Entry) → is_dir (f x) ≡ is_dir x)
    → is_dir (modify ps f root) ≡ is_dir root
unfolding modify
is_dir-modify [] f root kind = kind root
is_dir-modify (p ∷ ps) f (entry a cs) kind = ground arith

-- A write at a path keeps a tree if it keeps the entry there well formed, and a directory one.
pub modify-IsTree :
    (ps : List String) (f : Entry → Entry) (root : Entry)
    → ((x : Entry) → lookup_parts ps root ≡ some x → KeepsShape f x)
    → ((x : Entry) → is_dir (f x) ≡ is_dir x)
    → IsTree root
    → IsTree (modify ps f root)
modify-IsTree ps f root k kind t = record {
  root_is_dir = is_dir-modify ps f root kind ∙ t.root_is_dir;
  shape = modify-IsWellFormed ps f root k t.shape;
}

-- A well-formed entry goes into a directory that the walk has reached.
pub attach-IsTree :
    (ps : List String) (n : String) (e : Entry) (now : Time) (root : Entry) {d : Entry}
    → walk_dirs ps root ≡ some d
    → IsNamed n e
    → IsWellFormed e
    → IsTree root
    → IsTree (modify ps (λ x. touch now (attach n e x)) root)
attach-IsTree ps n e now root {d} walked named v t =
    modify-IsTree ps (λ x. touch now (attach n e x)) root
      (λ x here. KeepsShape-touch now (attach n e) x (
        attach-KeepsShape n e x
          (subst (λ y. is_dir y ≡ true)
            (some-injective _ _ (sym (walk_dirs-lookup ps root walked) ∙ here))
            (walk_dirs-is_dir ps root t.root_is_dir walked))
          named v))
      (λ x. refl) t

-- A write to the fields of a file, that leaves its name and kind alone.
pub fields-KeepsShape :
    (write : Attrs → Attrs)
    → ((a : Attrs) → (write a).name ≡ a.name)
    → ((a : Attrs) → (write a).is_dir ≡ a.is_dir)
    → (x : Entry) → KeepsShape (λ y. entry (write (attrs y)) (children y)) x
fields-KeepsShape write name kind (entry a cs) = record {
  well_formed = λ w. (λ leaf. w.0 (sym (kind a) ∙ leaf), w.1);
  same_name = name a;
}
