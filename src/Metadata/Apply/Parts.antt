-- ===== src/Metadata/Apply/Parts.antt =====
-- The last part of a path, and the directory that the walk over the other parts reaches.
use fstorex.Base.{
  ◌≡◌, ◌≢◌, ap, ◌∙◌, sym, String, true, none, some, List, [], ◌∷◌, ◌++◌, arith, All, Option-cases,
  inl, inr, subst,
}
use mathlib.Core.Option.{some-injective}
use fstorex.Metadata.Paths.{split_path}
use fstorex.Metadata.Paths.Split.{IsName, split_path-IsName}
use fstorex.Metadata.Tree.{Entry, entry, is_dir, find, walk_dirs}
use fstorex.Metadata.Apply.{split_last}

split_last_step :
    (p q : String) (ps : List String) {dir : List String} {last : String}
    → split_last (q ∷ ps) ≡ some (dir, last)
    → split_last (p ∷ q ∷ ps) ≡ some (p ∷ dir, last)
unfolding split_last
split_last_step p q ps h = rw (h, split_last)

split_last_total : (p : String) (ps : List String) → split_last (p ∷ ps) ≢ none
unfolding split_last
split_last_total p [] = ground arith
split_last_total p (q ∷ ps) = ground (arith, split_last_total q ps)

-- The parts are the directory's and the last one.
pub split_last-append :
    (ps : List String) {dir : List String} {last : String}
    → split_last ps ≡ some (dir, last)
    → ps ≡ dir ++ last ∷ []
unfolding split_last
split_last-append [] h = cc
split_last-append (p ∷ []) h = ground arith
split_last-append (p ∷ q ∷ ps) {dir} {last} h = elim (Option-cases (split_last (q ∷ ps))) [
  | inl gone ↦ absurd (split_last_total q ps gone)
  | inr ((d, l), here) ↦
      let e = some-injective _ _ (sym (split_last_step p q ps here) ∙ h) in
      ap (λ (r : List String). p ∷ r) (split_last-append (q ∷ ps) here)
      ∙ ap (λ (r : List String × String). r.0 ++ r.1 ∷ []) e
]

pub All_last {ℓ κ} :
    {A : Type ℓ} (P : A → Type κ) (xs : List A) (x : A) → All P (xs ++ x ∷ []) → P x
All_last P [] x h = h.0
All_last P (y ∷ xs) x h = All_last P xs x h.1

-- The last part of a path is a name.
pub last-IsName :
    (path : String) {dir : List String} {last : String}
    → split_last (split_path path) ≡ some (dir, last)
    → IsName last
last-IsName path {dir} {last} h =
    All_last IsName dir last
      (subst (All IsName) (split_last-append (split_path path) h) (split_path-IsName path))

pub walk_dirs-is_dir :
    (ps : List String) (e : Entry) {d : Entry}
    → is_dir e ≡ true
    → walk_dirs ps e ≡ some d
    → is_dir d ≡ true
unfolding walk_dirs
walk_dirs-is_dir [] e {d} dir h = subst (λ x. is_dir x ≡ true) (some-injective _ _ h) dir
walk_dirs-is_dir (p ∷ ps) (entry a cs) {d} dir h = elim (Option-cases (find p cs)) [
  | inl gone ↦ ground arith
  | inr (c, here) ↦ ground (arith, walk_dirs-is_dir ps c {d = d})
]
