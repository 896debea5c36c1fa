-- ===== src/Metadata/Replicator/Targets.antt =====
-- The nodes that get a copy.
use fstorex.Base.{
  ℕ, suc, ◌-◌, ◌<◌, String, ◌≡◌, refl, sym, ap, ◌∙◌, subst, true, false, List, [], ◌∷◌, arith,
  length, ltb, ◌==◌, nat_eq, string_eq, if◌then◌else◌, contains, Bool-cases, inl, inr, ==_iff, min,
}
use fstorex.Types.{Replica}
use fstorex.Metadata.Machine.Registry.{AreDistinct}
use fstorex.Metadata.Replicator.{candidates, addrs_of, select_target_nodes}

-- How many of some nodes are not among others.
abbrev pub free_nodes : List String → List String → ℕ
free_nodes taken [] = 0
free_nodes taken (addr ∷ nodes) =
    if contains taken addr then free_nodes taken nodes else suc (free_nodes taken nodes)

candidates-contains :
    (taken : List String) (left : ℕ) (nodes : List String) (addr : String)
    → contains (candidates taken left nodes) addr ≡ true
    → (contains nodes addr ≡ true) × (contains taken addr ≡ false)
unfolding candidates
candidates-contains taken left [] addr h = cc
candidates-contains taken left (a ∷ nodes) addr h = elim (Bool-cases (contains taken a)) [
  | inl used ↦
      let (inside, free) = candidates-contains taken left nodes addr (ground (arith, h, used)) in
      (ground (arith, inside), free)
  | inr fresh ↦ elim (Bool-cases (a == addr)) [
    | inl same ↦
        let here : a ≡ addr = (==_iff a addr).0 same in
        (ground (arith, same), subst (λ x. contains taken x ≡ false) here fresh)
    | inr other ↦ elim (Bool-cases (ltb 1 left)) [
      | inl more ↦
          let (inside, free) =
            candidates-contains taken (left - 1) nodes addr
              (ground (arith, h, fresh, other, more)) in
          (ground (arith, inside), free)
      | inr last ↦ ground (arith, h, fresh, other, last)
    ]
  ]
]

candidates-absent :
    (taken : List String) (left : ℕ) (nodes : List String) (addr : String)
    → contains nodes addr ≡ false
    → contains (candidates taken left nodes) addr ≡ false
candidates-absent taken left nodes addr absent =
    elim (Bool-cases (contains (candidates taken left nodes) addr)) [
      | inl there ↦ ground (arith, absent, (candidates-contains taken left nodes addr there).0)
      | inr gone ↦ gone
    ]

candidates-AreDistinct :
    (taken : List String) (left : ℕ) (nodes : List String)
    → AreDistinct nodes
    → AreDistinct (candidates taken left nodes)
unfolding candidates
candidates-AreDistinct taken left [] d = tt
candidates-AreDistinct taken left (a ∷ nodes) d = elim (Bool-cases (contains taken a)) [
  | inl used ↦
      subst AreDistinct (rw (used, candidates) refl) (candidates-AreDistinct taken left nodes d.1)
  | inr fresh ↦ elim (Bool-cases (ltb 1 left)) [
    | inl more ↦
        subst AreDistinct {x = a ∷ candidates taken (left - 1) nodes}
          (rw (fresh, more, candidates) refl)
          (
            candidates-absent taken (left - 1) nodes a d.0,
            candidates-AreDistinct taken (left - 1) nodes d.1,
          )
    | inr last ↦ subst AreDistinct {x = a ∷ []} (rw (fresh, last, candidates) refl) (refl, tt)
  ]
]

length-candidates :
    (taken : List String) (left : ℕ) (nodes : List String)
    → 0 < left
    → length (candidates taken left nodes) ≡ min left (free_nodes taken nodes)
unfolding candidates
length-candidates taken left [] some_left = omega (arith, some_left)
length-candidates taken left (a ∷ nodes) some_left = elim (Bool-cases (contains taken a)) [
  | inl used ↦ ground (arith, used, length-candidates taken left nodes some_left)
  | inr fresh ↦ elim (Bool-cases (ltb 1 left)) [
    | inl more ↦ ground (arith, fresh, more, length-candidates taken (left - 1) nodes)
    | inr last ↦ ground (arith, fresh, last, some_left)
  ]
]

-- The targets of a repair are alive, no two are the same, and none has a replica yet; there are as
-- many as are missing, or all such nodes where there are fewer. The nodes that are alive are
-- distinct.
pub select_target_nodes-fits :
    (replicas : List Replica) (alive : List String) (count : ℕ)
    → AreDistinct alive
    → ((addr : String)
        → contains (select_target_nodes replicas alive count) addr ≡ true
        → (contains alive addr ≡ true) × (contains (addrs_of replicas) addr ≡ false))
      × AreDistinct (select_target_nodes replicas alive count)
      × (length (select_target_nodes replicas alive count)
          ≡ min count (free_nodes (addrs_of replicas) alive))
select_target_nodes-fits replicas alive count d = elim (Bool-cases (count == 0)) [
  | inl nothing ↦
      let empty : select_target_nodes replicas alive count ≡ [] =
        unfold select_target_nodes in rw nothing refl in
      (
        (λ addr h. ground (arith, h, empty)),
        subst AreDistinct (sym empty) tt,
        ground (arith, nothing, empty),
      )
  | inr some_left ↦
      let same : select_target_nodes replicas alive count
          ≡ candidates (addrs_of replicas) count alive =
        unfold select_target_nodes in rw some_left refl in
      (
        (λ addr h.
            candidates-contains (addrs_of replicas) count alive addr (ground (arith, h, same))),
        subst AreDistinct (sym same) (candidates-AreDistinct (addrs_of replicas) count alive d),
        ap length same
            ∙ length-candidates (addrs_of replicas) count alive (ground (arith, some_left)),
      )
]
