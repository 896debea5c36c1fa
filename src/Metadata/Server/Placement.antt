-- ===== src/Metadata/Server/Placement.antt =====
-- The nodes that a new file is placed on.
use fstorex.Base.{
  ℕ, zero, suc, ◌+◌, ◌%◌, String, ◌<>◌, ◌≡◌, refl, true, false, some, List, [], ◌∷◌, arith,
  string_eq, contains, get_elem?, length, All, ==_refl, Option-cases, Bool-cases, inl, inr,
}
use fstorex.Types.{Replica}
use fstorex.Metadata.State.{MetadataServer}
use fstorex.Metadata.Server.{select_from, start_index, replicas_wanted, select_data_nodes}

-- No address stands twice, and none is among those that are seen.
abbrev pub AreNew : List String → List Replica → Type 0
AreNew seen [] = Unit
AreNew seen (r ∷ rs) = (contains seen r.addr ≡ false) × AreNew (r.addr ∷ seen) rs

abbrev pub IsReplicaOn : List String → String → Replica → Type 0
IsReplicaOn nodes remote_path r = (contains nodes r.addr ≡ true) × (r.remote_path ≡ remote_path)

pub get_elem?-contains :
    (nodes : List String) (i : ℕ) (addr : String)
    → get_elem? nodes i ≡ some addr
    → contains nodes addr ≡ true
get_elem?-contains [] i addr here = ground (arith, here)
get_elem?-contains (n ∷ nodes) zero addr here = ground (arith, here, ==_refl addr)
get_elem?-contains (n ∷ nodes) (suc i) addr here =
    ground (arith, here, get_elem?-contains nodes i addr)

module _ (nodes : List String) (start : ℕ) (remote_path : String) where
  select_from-placed :
      (n i : ℕ) (seen : List String)
      → AreNew seen (select_from nodes start remote_path n i seen)
        × All (IsReplicaOn nodes remote_path) (select_from nodes start remote_path n i seen)
  unfolding select_from
  select_from-placed zero i seen = (tt, tt)
  select_from-placed (suc n) i seen =
      elim (Option-cases (get_elem? nodes ((start + i) % length nodes))) [
        | inl gone ↦ rw (gone, select_from) (tt, tt)
        | inr (addr, here) ↦
            let on_node : contains nodes addr ≡ true =
              get_elem?-contains nodes ((start + i) % length nodes) addr here in
            elim (Bool-cases (contains seen addr)) [
              | inl taken ↦ rw (here, taken, select_from) (select_from-placed n (i + 1) seen)
              | inr fresh ↦
                  let rest = select_from-placed n (i + 1) (addr ∷ seen) in
                  rw (here, fresh, select_from) ((fresh, rest.0), ((on_node, refl), rest.1))
            ]
      ]

-- The replicas of a new file lie on registered nodes, no two on the same one, and all under the
-- path of its FileID.
pub select_data_nodes-placed :
    (path file_id : String) (replica_count : ℕ) (mds : MetadataServer)
    → AreNew [] (select_data_nodes path file_id replica_count mds)
      × All
          (IsReplicaOn mds.data_nodes ("/data/" <> file_id))
          (select_data_nodes path file_id replica_count mds)
unfolding select_data_nodes
select_data_nodes-placed path file_id replica_count mds =
    select_from-placed mds.data_nodes (start_index path (length mds.data_nodes))
      ("/data/" <> file_id) (replicas_wanted replica_count (length mds.data_nodes)) 0 []
