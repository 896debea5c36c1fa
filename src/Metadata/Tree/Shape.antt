-- ===== src/Metadata/Tree/Shape.antt =====
-- Well-formed trees: names are file names and keys at once, no key stands twice, and a file has
-- no children.
use fstorex.Base.{
  String, ◌≡◌, refl, false, none, some, List, [], ◌∷◌, arith, ◌==◌, string_eq, Option-cases, inl,
  inr, Bool-cases, if_both, subst, ◌∙◌, ◌⊎◌,
}
use mathlib.Core.Option.{some-injective}
use fstorex.Metadata.Paths.Split.{IsName}
use fstorex.Metadata.Tree.{
  children, Entry, entry, Children, empty, bind, attrs, find, put, remove, lookup_parts, modify,
}
use fstorex.Metadata.Tree.Modify.{
  find-put, find-remove, find-empty, lookup-step, modify-step, modify-gone,
}

-- An entry under its key.
pub record IsNamed (n : String) (e : Entry) : Type 0 where
  pub key_is_name : (attrs e).name ≡ n
  pub valid : IsName n

abbrev mutual
  pub IsWellFormed : Entry → Type 0
  IsWellFormed (entry a cs) = (a.is_dir ≡ false → cs ≡ empty) × AllWellFormed cs

  pub AllWellFormed : Children → Type 0
  AllWellFormed empty = Unit
  AllWellFormed (bind n e cs) = IsNamed n e × IsWellFormed e × (find n cs ≡ none) × AllWellFormed cs

pub children-AllWellFormed : (e : Entry) → IsWellFormed e → AllWellFormed (children e)
children-AllWellFormed (entry a cs) w = w.1

-- What `find` answers stands at the front or further down.
find-bind :
    (n j : String) (d : Entry) (cs : Children) {e : Entry}
    → find n (bind j d cs) ≡ some e
    → ((j ≡ n) × (d ≡ e)) ⊎ (find n cs ≡ some e)
unfolding find
find-bind n j d cs {e} h = elim (Bool-cases (j == n)) [
  | inl same ↦ inl (ground arith, ground arith)
  | inr other ↦ inr (ground arith)
]

pub find-IsNamed :
    (n : String) (cs : Children) {e : Entry} → AllWellFormed cs → find n cs ≡ some e → IsNamed n e
find-IsNamed n empty w h = unfold find in cc
find-IsNamed n (bind j d cs) {e} w h = elim (find-bind n j d cs h) [
  | inl (k, same) ↦ subst (λ i. IsNamed i e) k (subst (IsNamed j) same w.0)
  | inr there ↦ find-IsNamed n cs w.3 there
]

pub find-IsWellFormed :
    (n : String) (cs : Children) {e : Entry}
    → AllWellFormed cs
    → find n cs ≡ some e
    → IsWellFormed e
find-IsWellFormed n empty w h = unfold find in cc
find-IsWellFormed n (bind j d cs) {e} w h = elim (find-bind n j d cs h) [
  | inl (k, same) ↦ subst IsWellFormed same w.1
  | inr there ↦ find-IsWellFormed n cs w.3 there
]

pub put-AllWellFormed :
    (n : String) (e : Entry) (cs : Children)
    → IsNamed n e
    → IsWellFormed e
    → AllWellFormed cs
    → AllWellFormed (put n e cs)
unfolding put
put-AllWellFormed n e empty named v w = (named, v, (unfold find in refl), tt)
put-AllWellFormed n e (bind j d cs) named v w =
    if_both AllWellFormed (j == n)
      (λ same.
        let same' : j ≡ n = ground arith in
        (named, v, subst (λ i. find i cs ≡ none) same' w.2, w.3))
      (λ other.
        (w.0, w.1, rw (find-put j n e cs) (ground arith), put-AllWellFormed n e cs named v w.3))

pub remove-AllWellFormed :
    (n : String) (cs : Children) → AllWellFormed cs → AllWellFormed (remove n cs)
unfolding remove
remove-AllWellFormed n empty w = tt
remove-AllWellFormed n (bind j d cs) w =
    if_both AllWellFormed (j == n) (λ same. remove-AllWellFormed n cs w.3)
      (λ other. (w.0, w.1, rw (find-remove j n cs) (ground arith), remove-AllWellFormed n cs w.3))

pub lookup-IsWellFormed :
    (ps : List String) (e : Entry) {x : Entry}
    → IsWellFormed e
    → lookup_parts ps e ≡ some x
    → IsWellFormed x
unfolding lookup_parts
lookup-IsWellFormed [] e w h = subst IsWellFormed (some-injective _ _ h) w
lookup-IsWellFormed (p ∷ ps) (entry a cs) {x} w h = elim (Option-cases (find p cs)) [
  | inl gone ↦ ground arith
  | inr (c, here) ↦
      lookup-IsWellFormed ps c (find-IsWellFormed p cs w.1 here) (rw (here, lookup_parts) at h)
]

-- A write that keeps an entry well formed, a directory or a file as it was, and its name.
pub record KeepsShape (f : Entry → Entry) (x : Entry) : Type 0 where
  pub well_formed : IsWellFormed x → IsWellFormed (f x)
  pub same_name : (attrs (f x)).name ≡ (attrs x).name

modify_name :
    (ps : List String) (f : Entry → Entry) (e : Entry)
    → ((x : Entry) → lookup_parts ps e ≡ some x → KeepsShape f x)
    → (attrs (modify ps f e)).name ≡ (attrs e).name
unfolding modify lookup_parts
modify_name [] f e k = (k e refl).same_name
modify_name (p ∷ ps) f (entry a cs) k = ground arith

pub modify-IsWellFormed :
    (ps : List String) (f : Entry → Entry) (e : Entry)
    → ((x : Entry) → lookup_parts ps e ≡ some x → KeepsShape f x)
    → IsWellFormed e
    → IsWellFormed (modify ps f e)
modify-IsWellFormed [] f e k w = unfold modify lookup_parts in (k e refl).well_formed w
modify-IsWellFormed (p ∷ ps) f (entry a cs) k w = elim (Option-cases (find p cs)) [
  | inl gone ↦ rw (modify-gone p ps a cs f gone) w
  | inr (c, here) ↦
      let k' : (x : Entry) → lookup_parts ps c ≡ some x → KeepsShape f x =
        λ x h. k x (lookup-step p ps a cs here ∙ h) in
      let named = find-IsNamed p cs w.1 here in
      rw (modify-step p ps a cs f here) (
        λ leaf. cc (w.0 leaf, find-empty p),
        put-AllWellFormed p (modify ps f c) cs
            (record {
              key_is_name = modify_name ps f c k' ∙ named.key_is_name;
              valid = named.valid;
            })
            (modify-IsWellFormed ps f c k' (find-IsWellFormed p cs w.1 here)) w.1,
      )
]
