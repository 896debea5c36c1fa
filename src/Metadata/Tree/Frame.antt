-- ===== src/Metadata/Tree/Frame.antt =====
-- What a local write leaves alone: a write to a directory that touches some of its children.
use fstorex.Base.{
  String, ◌≡◌, ◌≢◌, refl, ap, Bool, true, false, ◌&&◌, Option, some, List, [], ◌∷◌, ◌++◌, arith,
  ◌==◌, string_eq, Option-cases, inl, inr, ==_refl, Bool-cases,
}
use mathlib.Core.Option
use fstorex.Metadata.Tree.{
  Attrs, Entry, entry, Children, attrs, children, is_dir, find, put, lookup_parts, modify,
}
use fstorex.Metadata.Tree.Modify.{
  find-put, find-put_self, and_then, attrs_at, lookup-step, lookup_congr, modify-step, modify-gone,
}

-- `q` lies at or below `p`.
unfoldable pub is_prefix : List String → List String → Bool
is_prefix [] q = true
is_prefix (p ∷ ps) [] = false
is_prefix (p ∷ ps) (q ∷ qs) = p == q && is_prefix ps qs

pub is_prefix_cons :
    (p : String) (ps qs : List String) → is_prefix (p ∷ ps) (p ∷ qs) ≡ is_prefix ps qs
unfolding is_prefix
is_prefix_cons p ps qs = rw (==_refl p)

-- A path below another begins as that one does.
pub is_prefix_head :
    (p q : String) (ps qs : List String)
    → is_prefix (p ∷ ps) (q ∷ qs) ≡ true
    → (p ≡ q) × (is_prefix ps qs ≡ true)
unfolding is_prefix
is_prefix_head p q ps qs h = (ground arith, ground arith)

is_prefix_self : (ps : List String) → is_prefix ps ps ≡ true
unfolding is_prefix
is_prefix_self [] = refl
is_prefix_self (p ∷ ps) = rw (==_refl p) (is_prefix_self ps)

-- `q` goes through a touched child of the directory `ps`.
unfoldable pub hits : List String → (String → Bool) → List String → Bool
hits [] c [] = false
hits [] c (j ∷ q) = c j
hits (p ∷ ps) c [] = false
hits (p ∷ ps) c (j ∷ q) = p == j && hits ps c q

-- The kind of the entry at a path, `none` where there is none.
unfoldable pub kind_at : List String → Entry → Option Bool
kind_at q e = Option.map is_dir (lookup_parts q e)

-- A write that touches no child outside `c` and keeps a directory a directory.
pub record IsLocal (c : String → Bool) (f : Entry → Entry) : Type 0 where
  pub others :
      (x : Entry) (j : String) → c j ≡ false → find j (children (f x)) ≡ find j (children x)
  pub same_kind : (x : Entry) → is_dir (f x) ≡ is_dir x

-- A write that touches the child `n`, and one that touches no child.
abbrev pub only : String → String → Bool
only n j = n == j

abbrev pub nothing : String → Bool
nothing j = false

pub hits-only : (ps q : List String) (n : String) → hits ps (only n) q ≡ is_prefix (ps ++ n ∷ []) q
unfolding hits is_prefix
hits-only [] [] n = refl
hits-only [] (j ∷ q) n = ground arith
hits-only (p ∷ ps) [] n = refl
hits-only (p ∷ ps) (j ∷ q) n = ground (arith, hits-only ps q n)

pub hits-nothing : (ps q : List String) → hits ps nothing q ≡ false
unfolding hits
hits-nothing [] [] = refl
hits-nothing [] (j ∷ q) = refl
hits-nothing (p ∷ ps) [] = refl
hits-nothing (p ∷ ps) (j ∷ q) = ground (arith, hits-nothing ps q)

-- A directory does not lie below its child.
pub is_prefix-longer : (ps : List String) (n : String) → is_prefix (ps ++ n ∷ []) ps ≡ false
unfolding is_prefix
is_prefix-longer [] n = refl
is_prefix-longer (p ∷ ps) n = rw (==_refl p) (is_prefix-longer ps n)

-- A path at or below another but not below its end's parent is that path.
pub is_prefix-last :
    (ps qs : List String) (m : String)
    → is_prefix ps (qs ++ m ∷ []) ≡ true
    → is_prefix ps qs ≡ false
    → ps ≡ qs ++ m ∷ []
is_prefix-last [] qs m below off = unfold is_prefix in cc
is_prefix-last (p ∷ []) [] m below off = unfold is_prefix in ground arith
is_prefix-last (p ∷ r ∷ ps) [] m below off = absurd (unfold is_prefix in ground arith)
is_prefix-last (p ∷ ps) (q ∷ qs) m below off =
    let (same, below') = is_prefix_head p q ps (qs ++ m ∷ []) below in
    let off' : is_prefix ps qs ≡ false = unfold is_prefix in ground arith in
    cc (same, is_prefix-last ps qs m below' off')

-- Nothing that is asked of the entry at `q` shows the write, if the question is not about the
-- children of an entry above the write, nor about what the write changes at `ps` itself.
module _ {ℓ} {B : Type ℓ} (g : Option Entry → B) (c : String → Bool) (f : Entry → Entry) where
  observe-modify :
      IsLocal c f
      → (ps q : List String) (e : Entry) → hits ps c q ≡ false
      → (is_prefix q ps ≡ true
          → (a : Attrs) (cs ds : Children) → g (some (entry a cs)) ≡ g (some (entry a ds)))
      → (q ≡ ps → (x : Entry) → g (some (f x)) ≡ g (some x))
      → g (lookup_parts q (modify ps f e)) ≡ g (lookup_parts q e)
  observe-modify only [] [] e off above self = unfold modify lookup_parts in self refl e
  observe-modify only [] (j ∷ q) e off above self =
      unfold modify in rw (lookup_congr j q (f e) e (only.others e j (unfold hits in off)))
  observe-modify only (p ∷ ps) [] (entry a cs) off above self = elim (Option-cases (find p cs)) [
    | inl gone ↦ rw (modify-gone p ps a cs f gone)
    | inr (d, here) ↦
        rw (modify-step p ps a cs f here)
          (unfold lookup_parts in above (unfold is_prefix in refl) a _ cs)
  ]
  observe-modify only (p ∷ ps) (j ∷ q) (entry a cs) off above self =
      elim (Option-cases (find p cs)) [
        | inl gone ↦ rw (modify-gone p ps a cs f gone)
        | inr (d, here) ↦ rw (modify-step p ps a cs f here) (elim (Bool-cases (p == j)) [
          | inl same ↦
              let same' : p ≡ j = ground arith in
              rw
                (
                  ← same',
                  lookup-step p q a cs here,
                  lookup-step p q a _ (find-put_self p (modify ps f d) cs),
                )
                (observe-modify only ps q d (unfold hits in ground arith)
                  (λ h. above (unfold is_prefix in ground arith)) (λ h. self (cc)))
          | inr other ↦ rw (
              lookup_congr j q (entry a (put p (modify ps f d) cs)) (entry a cs)
                (rw (find-put, other)))
        ])
      ]

module _ (c : String → Bool) (f : Entry → Entry) (only : IsLocal c f) (ps q : List String) where
  -- The fields of what lies elsewhere stay.
  pub attrs_at-modify :
      (e : Entry) → hits ps c q ≡ false → q ≢ ps → attrs_at q (modify ps f e) ≡ attrs_at q e
  unfolding attrs_at
  attrs_at-modify e off ne =
      observe-modify (λ o. and_then o (λ x. some (attrs x))) c f only ps q e off (λ _ a cs ds. refl)
        (λ h. absurd (ne h))

  -- So does the kind of what lies elsewhere, and of the directory itself.
  pub kind_at-modify : (e : Entry) → hits ps c q ≡ false → kind_at q (modify ps f e) ≡ kind_at q e
  unfolding kind_at
  kind_at-modify e off =
      observe-modify (Option.map is_dir) c f only ps q e off (λ _ a cs ds. refl)
        (λ _ x. ap some (only.same_kind x))

  -- So does all that a path leads to which the written directory does not lie at or below.
  pub lookup_parts-modify :
      (e : Entry)
      → hits ps c q ≡ false
      → is_prefix q ps ≡ false
      → lookup_parts q (modify ps f e) ≡ lookup_parts q e
  lookup_parts-modify e off away =
      observe-modify (λ o. o) c f only ps q e off (λ h. cc)
        (λ h. cc (is_prefix_self ps, ap (λ r. is_prefix r ps) h))
