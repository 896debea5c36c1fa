-- ===== src/Metadata/Server/Filling.antt =====
-- How many nodes a new file is placed on.
use fstorex.Base.{
  ℕ, zero, suc, ◌+◌, ◌-◌, ◌%◌, ◌^◌, ◌≤◌, ◌<◌, min, String, ◌<>◌, ◌≡◌, ◌≢◌, refl, ap, ◌∙◌, true,
  false, Option, some, List, [], ◌∷◌, arith, ◌==◌, string_eq, contains, get_elem?, get_elem?-within,
  length, ltb, ==_iff, ==_refl, All, map, if◌then◌else◌, Bool-cases, inl, inr,
}
use mathlib.Core.Bool.{false≢true}
use native.Mathlib.Nat.{mod-lt, mod-eq_of_lt, mod-eq-sub-mod}
use fstorex.Types.{Replica}
use fstorex.Metadata.State.{MetadataServer}
use fstorex.Metadata.Machine.Registry.{AreDistinct, IsRegistry}
use fstorex.Metadata.Server.{
  path_hash, select_from, start_index, replicas_wanted, select_data_nodes,
}
use fstorex.Metadata.Server.Placement.{AreNew, get_elem?-contains, select_data_nodes-placed}

-- Distinct addresses stand at distinct indices.
get_elem?-distinct :
    (nodes : List String) (i j : ℕ) (addr : String)
    → AreDistinct nodes
    → get_elem? nodes i ≡ some addr
    → get_elem? nodes j ≡ some addr
    → i ≡ j
get_elem?-distinct [] i j addr d at_i at_j = ground (arith, at_i)
get_elem?-distinct (n ∷ nodes) zero zero addr d at_i at_j = refl
get_elem?-distinct (n ∷ nodes) zero (suc j) addr d at_i at_j =
    ground (arith, d.0, at_i, at_j, get_elem?-contains nodes j addr)
get_elem?-distinct (n ∷ nodes) (suc i) zero addr d at_i at_j =
    ground (arith, d.0, at_i, at_j, get_elem?-contains nodes i addr)
get_elem?-distinct (n ∷ nodes) (suc i) (suc j) addr d at_i at_j =
    ap suc (get_elem?-distinct nodes i j addr d.1 at_i at_j)

-- The index of a turn, without its remainder.
turn_index :
    (start i len : ℕ)
    → start < len
    → i < len
    → (start + i) % len ≡ (if ltb (start + i) len then start + i else (start + i) - len)
turn_index start i len first turn = elim (Bool-cases (ltb (start + i) len)) [
  | inl below ↦ rw below (mod-eq_of_lt (ground (arith, below)))
  | inr over ↦
      rw over (mod-eq-sub-mod (ground (arith, over)) ∙ mod-eq_of_lt (omega (arith, first, turn)))
]

-- Two turns of the loop meet different indices.
turns_differ :
    (start j i len : ℕ) → start < len → i < len → j < i → (start + j) % len ≢ (start + i) % len
turns_differ start j i len first turn before same = ground (
  arith,
  first,
  turn,
  before,
  same,
  turn_index start j len first (omega (arith, turn, before)),
  turn_index start i len first turn,
)

module _ (nodes : List String) (start : ℕ) (remote_path : String) (distinct : AreDistinct nodes)
    (first : start < length nodes) where
  abbrev node_at : ℕ → Option String
  node_at i = get_elem? nodes ((start + i) % length nodes)

  -- The seen addresses are those of earlier turns.
  abbrev IsSeen : ℕ → List String → Type 0
  IsSeen i seen = (a : String) → contains seen a ≡ true → (j : ℕ) × (j < i) × (node_at j ≡ some a)

  IsSeen-next :
      (i : ℕ) (seen : List String) (addr : String)
      → node_at i ≡ some addr
      → IsSeen i seen
      → IsSeen (i + 1) (addr ∷ seen)
  IsSeen-next i seen addr here earlier a inside = elim (Bool-cases (addr == a)) [
    | inl same ↦ (i, omega arith, here ∙ ap some ((==_iff addr a).0 same))
    | inr other ↦
        let (j, before, there) = earlier a (ground (arith, inside, other)) in
        (j, omega (arith, before), there)
  ]

  select_from-fills :
      (n i : ℕ) (seen : List String)
      → i + n ≤ length nodes
      → IsSeen i seen
      → length (select_from nodes start remote_path n i seen) ≡ n
  unfolding select_from
  select_from-fills zero i seen room earlier = refl
  select_from-fills (suc n) i seen room earlier =
      let len : ℕ = length nodes in
      let (addr, here) =
        get_elem?-within nodes ((start + i) % len) (mod-lt (start + i) (omega (arith, first))) in
      elim (Bool-cases (contains seen addr)) [
        | inl taken ↦
            let (j, before, there) = earlier addr taken in
            absurd (
              turns_differ start j i len first (omega (arith, room)) before (
                get_elem?-distinct nodes ((start + j) % len) ((start + i) % len) addr distinct there
                  here))
        | inr fresh ↦
            rw (here, fresh, select_from)
              (ap suc (
                select_from-fills n (i + 1) (addr ∷ seen) (omega (arith, room))
                  (IsSeen-next i seen addr here earlier)))
      ]

AreNew-absent :
    (seen : List String) (rs : List Replica) (addr : String)
    → contains seen addr ≡ true
    → AreNew seen rs
    → contains (map (λ r. r.addr) rs) addr ≡ false
AreNew-absent seen [] addr there new = refl
AreNew-absent seen (r ∷ rs) addr there new = elim (Bool-cases (r.addr == addr)) [
  | inl same ↦ ground (arith, there, new.0, (==_iff r.addr addr).0 same)
  | inr other ↦
      ground (arith, other, AreNew-absent (r.addr ∷ seen) rs addr (ground (arith, there)) new.1)
]

AreNew-AreDistinct :
    (seen : List String) (rs : List Replica) → AreNew seen rs → AreDistinct (map (λ r. r.addr) rs)
AreNew-AreDistinct seen [] new = tt
AreNew-AreDistinct seen (r ∷ rs) new = (
  AreNew-absent (r.addr ∷ seen) rs r.addr (ground (arith, ==_refl r.addr)) new.1,
  AreNew-AreDistinct (r.addr ∷ seen) rs new.1,
)

start_index-lt : (path : String) (n : ℕ) → 0 < n → start_index path n < n
unfolding start_index
start_index-lt path n some_node =
    let hash : ℕ = path_hash 0 path in
    ground (arith, mod-lt hash some_node, mod-lt (2 ^ 64 - hash) some_node)

-- A new file gets as many replicas as are wanted, or as many as there are registered nodes where
-- these are fewer. All lie on registered nodes, no two on the same one, each under the path of the
-- FileID. Some replica is wanted, some node is registered and none is twice.
pub select_data_nodes-fills :
    (path file_id : String) (replica_count : ℕ) (mds : MetadataServer)
    → IsRegistry mds
    → 0 < replica_count
    → 0 < length mds.data_nodes
    → (length (select_data_nodes path file_id replica_count mds)
        ≡ min replica_count (length mds.data_nodes))
      × AreDistinct (map (λ r. r.addr) (select_data_nodes path file_id replica_count mds))
      × All
          (λ r. (contains mds.data_nodes r.addr ≡ true) × (r.remote_path ≡ "/data/" <> file_id))
          (select_data_nodes path file_id replica_count mds)
unfolding select_data_nodes
select_data_nodes-fills path file_id replica_count mds registry wanted some_node =
    let len : ℕ = length mds.data_nodes in
    let (fresh, placed) = select_data_nodes-placed path file_id replica_count mds in
    (
      select_from-fills mds.data_nodes (start_index path len) ("/data/" <> file_id)
            registry.distinct (start_index-lt path len some_node)
            (replicas_wanted replica_count len) 0 [] (ground (arith, wanted, some_node))
            (λ a none_seen. absurd (false≢true none_seen))
          ∙ ground (arith, wanted, some_node),
      AreNew-AreDistinct [] (select_data_nodes path file_id replica_count mds) fresh,
      placed,
    )
