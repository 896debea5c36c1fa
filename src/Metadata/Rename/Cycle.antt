-- ===== src/Metadata/Rename/Cycle.antt =====
-- The walk that keeps a directory out of its own subtree.
use fstorex.Base.{
  ◌≡◌, refl, ◌∙◌, sym, String, true, false, ◌&&◌, none, some, List, [], ◌∷◌, ◌++◌, arith,
  Option-cases, Bool-cases, inl, inr, subst, ◌==◌, string_eq, ==_iff, ==_refl, if_both, option_both,
}
use mathlib.Core.Option.{some-injective}
use fstorex.Metadata.Tree.{
  Attrs, Entry, entry, Children, children, is_dir, find, lookup_parts, walk_dirs,
}
use fstorex.Metadata.Tree.Modify.{walk_dirs-lookup, lookup-step}
use fstorex.Metadata.Tree.Frame.{is_prefix, is_prefix_cons, is_prefix_head}
use fstorex.Metadata.Apply.Parts.{walk_dirs-is_dir}
use fstorex.Metadata.Rename.{meets_source}

-- Off the source's path the walk finds nothing.
meets_source_off : (ps : List String) (e : Entry) → meets_source none ps e ≡ false
unfolding meets_source
meets_source_off [] e = refl
meets_source_off (p ∷ ps) (entry a cs) =
    option_both (λ b. b ≡ false) (find p cs) (λ _. refl)
      λ c _. if_both (λ b. b ≡ false) (is_dir c) (λ _. meets_source_off ps c) (λ _. refl)

-- One step of the guarded walk.
pub walk_dirs_step :
    (p : String) (ps : List String) (a : Attrs) (cs : Children) {d : Entry}
    → walk_dirs (p ∷ ps) (entry a cs) ≡ some d
    → (c : Entry) × (find p cs ≡ some c) × (is_dir c ≡ true) × (walk_dirs ps c ≡ some d)
unfolding walk_dirs
walk_dirs_step p ps a cs {d} h = elim (Option-cases (find p cs)) [
  | inl gone ↦ absurd (ground arith)
  | inr (c, here) ↦ (c, here, ground arith, ground arith)
]

meets_source_on :
    (p : String) (src dst : List String) (a : Attrs) (cs : Children) (c : Entry)
    → find p cs ≡ some c
    → is_dir c ≡ true
    → meets_source (some (p ∷ src)) (p ∷ dst) (entry a cs) ≡ meets_source (some src) dst c
unfolding meets_source
meets_source_on p src dst a cs c here dir = rw (here, meets_source) (rw (dir, ==_refl p))

meets_source_leaves :
    (p q : String) (src dst : List String) (a : Attrs) (cs : Children)
    → (q == p) ≡ false
    → meets_source (some (q ∷ src)) (p ∷ dst) (entry a cs) ≡ false
unfolding meets_source
meets_source_leaves p q src dst a cs other =
    option_both (λ b. b ≡ false) (find p cs) (λ _. refl)
      λ c _.
        if_both (λ b. b ≡ false) (is_dir c) (λ _. rw other (meets_source_off dst c)) (λ _. refl)

meets_source_start : (dst : List String) (e : Entry) → meets_source (some []) dst e ≡ true
unfolding meets_source
meets_source_start [] e = refl
meets_source_start (p ∷ ps) e = refl

walk_dirs_through :
    (p : String) (ps : List String) (a : Attrs) (cs : Children) (c : Entry)
    → find p cs ≡ some c
    → is_dir c ≡ true
    → walk_dirs (p ∷ ps) (entry a cs) ≡ walk_dirs ps c
unfolding walk_dirs
walk_dirs_through p ps a cs c here dir = rw (here, walk_dirs) (rw dir)

-- Where the source is a directory that the walk can reach, the cycle test of a rename says exactly
-- whether the destination's parent lies at or below it.
pub meets_source_lem :
    (src dst : List String) (root : Entry) {d : Entry}
    → walk_dirs src root ≡ some d
    → meets_source (some src) dst root ≡ is_prefix src dst
meets_source_lem [] dst root h = meets_source_start dst root ∙ (unfold is_prefix in refl)
meets_source_lem (q ∷ src) [] root h = unfold meets_source is_prefix in refl
meets_source_lem (q ∷ src) (p ∷ dst) (entry a cs) h = elim (Bool-cases (q == p)) [
  | inl same ↦
      let (c, here, dir, rest) = walk_dirs_step q src a cs h in
      rw (← (==_iff q p).0 same, is_prefix_cons q src dst)
        (meets_source_on q src dst a cs c here dir ∙ meets_source_lem src dst c rest)
  | inr other ↦ unfold is_prefix in rw other (meets_source_leaves p q src dst a cs other)
]

-- A guarded walk passes through all that lies above its end.
pub walk_dirs-prefix :
    (ps qs : List String) (root : Entry) {d : Entry}
    → walk_dirs qs root ≡ some d
    → is_prefix ps qs ≡ true
    → (x : Entry) × (walk_dirs ps root ≡ some x)
walk_dirs-prefix [] qs root h below = (root, (unfold walk_dirs in refl))
walk_dirs-prefix (p ∷ ps) [] root h below = absurd (unfold is_prefix in cc)
walk_dirs-prefix (p ∷ ps) (q ∷ qs) (entry a cs) h below =
    let (c, here, dir, rest) = walk_dirs_step q qs a cs h in
    let (same, below') = is_prefix_head p q ps qs below in
    let (x, there) = walk_dirs-prefix ps qs c rest below' in
    (x, rw same (walk_dirs_through q ps a cs c here dir ∙ there))

walk_dirs_here : (root : Entry) {d : Entry} → walk_dirs [] root ≡ some d → root ≡ d
unfolding walk_dirs
walk_dirs_here root h = some-injective _ _ h

-- The walk to an entry below the one that it has reached.
pub walk_dirs_last :
    (ps : List String) (n : String) (root : Entry) {d c : Entry}
    → walk_dirs ps root ≡ some d
    → find n (children d) ≡ some c
    → (lookup_parts (ps ++ n ∷ []) root ≡ some c)
      × (is_dir c ≡ true → walk_dirs (ps ++ n ∷ []) root ≡ some c)
walk_dirs_last [] n (entry a cs) {d} {c} h here =
    let e = walk_dirs_here (entry a cs) h in
    let here' : find n cs ≡ some c = subst (λ x. find n (children x) ≡ some c) (sym e) here in
    (
      (unfold lookup_parts in rw (here', lookup_parts)),
      λ dir. walk_dirs_through n [] a cs c here' dir ∙ (unfold walk_dirs in refl),
    )
walk_dirs_last (p ∷ ps) n (entry a cs) {d} {c} h here =
    let (x, there, dir, rest) = walk_dirs_step p ps a cs h in
    let (found, walked) = walk_dirs_last ps n x rest here in
    (
      lookup-step p (ps ++ n ∷ []) a cs there ∙ found,
      λ kind. walk_dirs_through p (ps ++ n ∷ []) a cs x there dir ∙ walked kind,
    )

-- After the checks of a rename the destination's parent does not lie at or below the source:
-- a directory's subtree is shut out by the test, and a file has none.
pub not_below_source :
    (src_dir : List String) (src_name : String) (dst_dir : List String) (root : Entry)
    {d c x : Entry}
    → is_dir root ≡ true
    → walk_dirs src_dir root ≡ some d
    → find src_name (children d) ≡ some c
    → walk_dirs dst_dir root ≡ some x
    → (is_dir c && meets_source (some (src_dir ++ src_name ∷ [])) dst_dir root) ≡ false
    → is_prefix (src_dir ++ src_name ∷ []) dst_dir ≡ false
not_below_source src_dir src_name dst_dir root {d} {c} {x} top walked here walked' pass =
    let (found, deeper) = walk_dirs_last src_dir src_name root walked here in
    elim (Bool-cases (is_prefix (src_dir ++ src_name ∷ []) dst_dir)) [
      | inr apart ↦ apart
      | inl below ↦
          let (y, through) =
            walk_dirs-prefix (src_dir ++ src_name ∷ []) dst_dir root walked' below in
          let same =
            some-injective _ _
              (sym (walk_dirs-lookup (src_dir ++ src_name ∷ []) root through) ∙ found) in
          let dir =
            subst (λ z. is_dir z ≡ true) same
              (walk_dirs-is_dir (src_dir ++ src_name ∷ []) root top through) in
          ground (arith, meets_source_lem (src_dir ++ src_name ∷ []) dst_dir root (deeper dir))
    ]
