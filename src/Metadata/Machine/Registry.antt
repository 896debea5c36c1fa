-- ===== src/Metadata/Machine/Registry.antt =====
-- The registry of data nodes: the slice `dataNodes` and the keys of the map `lastHeartbeat`.
use fstorex.Base.{
  String, ◌≡◌, refl, sym, subst, Bool, true, false, not, ◌&&◌, Option, none, some, List, [], ◌∷◌,
  ◌++◌, arith, ◌==◌, string_eq, contains, Bool-cases, Option-cases, if_both, ◌≢◌, ◌||◌, inl, inr,
  contains-append,
}
use fstorex.Base.Dict
use fstorex.Base.Dict.{Dict, lookup-insert, lookup-erase}
use fstorex.Types.{Time}
use fstorex.Metadata.State.{
  CommandPayload, MetadataServer, Applied, op_heartbeat, op_remove_data_node,
}
use fstorex.Metadata.Apply.{
  apply_heartbeat, remove_first, apply_remove_data_node, apply_mkdir, apply_create_file,
  apply_complete_file, apply_delete, apply_update_size, apply_update_replicas, apply_update_status,
}
use fstorex.Metadata.Rename.{rename_parts, apply_rename}
use fstorex.Metadata.Machine.{LogEntry, dispatch, apply, replay}
use fstorex.Metadata.Machine.Cases.{apply_cases}

abbrev pub AreDistinct : List String → Type 0
AreDistinct [] = Unit
AreDistinct (a ∷ rest) = (contains rest a ≡ false) × AreDistinct rest

abbrev pub is_some {ℓ} : {A : Type ℓ} → Option A → Bool
is_some none = false
is_some (some a) = true

-- The keys of a map.
abbrev pub keys {ℓ} : {V : Type ℓ} → Dict String V → List String
keys [] = []
keys ((k, v) ∷ d) = k ∷ keys d

-- No node is registered twice, and the registered nodes are those with a last heartbeat, of which
-- each has one.
pub record IsRegistry (mds : MetadataServer) : Type 0 where
  pub distinct : AreDistinct mds.data_nodes
  pub keyed : AreDistinct (keys mds.last_heartbeat)
  pub heard :
      (addr : String) → contains mds.data_nodes addr ≡ is_some (Dict.lookup addr mds.last_heartbeat)

distinct-append :
    (addr : String) (nodes : List String)
    → AreDistinct nodes
    → contains nodes addr ≡ false
    → AreDistinct (nodes ++ addr ∷ [])
distinct-append addr [] d fresh = (refl, tt)
distinct-append addr (n ∷ nodes) d fresh = (
  ground (arith, d.0, fresh, contains-append nodes (addr ∷ []) n),
  distinct-append addr nodes d.1 (ground (arith, fresh)),
)

pub contains-remove_first :
    (addr a : String) (nodes : List String)
    → AreDistinct nodes
    → contains (remove_first addr nodes) a ≡ (contains nodes a && not (addr == a))
unfolding remove_first
contains-remove_first addr a [] d = refl
contains-remove_first addr a (n ∷ nodes) d =
    ground (arith, d.0, contains-remove_first addr a nodes d.1)

distinct-remove_first :
    (addr : String) (nodes : List String)
    → AreDistinct nodes
    → AreDistinct (remove_first addr nodes)
unfolding remove_first
distinct-remove_first addr [] d = tt
distinct-remove_first addr (n ∷ nodes) d = elim (Bool-cases (n == addr)) [
  | inl same ↦ rw same d.1
  | inr other ↦ rw other (
    ground (arith, d.0, contains-remove_first addr n nodes d.1),
    distinct-remove_first addr nodes d.1,
  )
]

module _ {ℓ} {V : Type ℓ} where
  contains-keys-insert :
      (k j : String) (v : V) (d : Dict String V)
      → contains (keys (Dict.insert k v d)) j ≡ (k == j || contains (keys d) j)
  unfolding Dict.insert
  contains-keys-insert k j v [] = ground arith
  contains-keys-insert k j v ((i, w) ∷ d) = ground (arith, contains-keys-insert k j v d)

  keys-insert :
      (k : String) (v : V) (d : Dict String V)
      → AreDistinct (keys d)
      → AreDistinct (keys (Dict.insert k v d))
  unfolding Dict.insert
  keys-insert k v [] u = (refl, tt)
  keys-insert k v ((i, w) ∷ d) u =
      if_both (λ (e : Dict String V). AreDistinct (keys e)) (i == k)
        (λ same. (ground (arith, u.0, same), u.1))
        (λ other. (ground (arith, u.0, other, contains-keys-insert k i v d), keys-insert k v d u.1))

  contains-keys-erase :
      (k j : String) (d : Dict String V)
      → contains (keys d) j ≡ false
      → contains (keys (Dict.erase k d)) j ≡ false
  unfolding Dict.erase
  contains-keys-erase k j [] fresh = refl
  contains-keys-erase k j ((i, w) ∷ d) fresh = ground (arith, fresh, contains-keys-erase k j d)

  keys-erase :
      (k : String) (d : Dict String V) → AreDistinct (keys d) → AreDistinct (keys (Dict.erase k d))
  unfolding Dict.erase
  keys-erase k [] u = tt
  keys-erase k ((i, w) ∷ d) u =
      if_both (λ (e : Dict String V). AreDistinct (keys e)) (i == k) (λ same. keys-erase k d u.1)
        (λ other. (contains-keys-erase k i d u.0, keys-erase k d u.1))

-- A command that leaves the registry and its timeout as they are.
abbrev pub SameRegistry : MetadataServer → Applied → Type 0
SameRegistry mds r =
    (r.0.data_nodes ≡ mds.data_nodes)
    × (r.0.last_heartbeat ≡ mds.last_heartbeat)
    × (r.0.heartbeat_timeout ≡ mds.heartbeat_timeout)

abbrev pub KeepsRegistry : MetadataServer → Applied → Type 0
KeepsRegistry mds r = IsRegistry mds → IsRegistry r.0

same-KeepsRegistry : (mds : MetadataServer) (r : Applied) → SameRegistry mds r → KeepsRegistry mds r
same-KeepsRegistry mds r same w = record {
  distinct = subst AreDistinct (sym same.0) w.distinct;
  keyed = subst (λ (d : Dict String Time). AreDistinct (keys d)) (sym same.1) w.keyed;
  heard = λ addr. ground (arith, same.0, same.1, w.heard addr);
}

module _ (p : CommandPayload) (now : Time) (mds : MetadataServer) where
  heartbeat-KeepsRegistry : KeepsRegistry mds (apply_heartbeat p now mds)
  unfolding apply_heartbeat
  heartbeat-KeepsRegistry w = elim (Bool-cases (contains mds.data_nodes p.addr)) [
    | inl known ↦ record {
      distinct = rw known w.distinct;
      keyed = keys-insert p.addr now mds.last_heartbeat w.keyed;
      heard = λ addr.
          ground (arith, known, w.heard addr, lookup-insert addr p.addr now mds.last_heartbeat);
    }
    | inr fresh ↦ record {
      distinct = rw fresh (distinct-append p.addr mds.data_nodes w.distinct fresh);
      keyed = keys-insert p.addr now mds.last_heartbeat w.keyed;
      heard = λ addr. ground (
        arith,
        fresh,
        w.heard addr,
        lookup-insert addr p.addr now mds.last_heartbeat,
        contains-append mds.data_nodes (p.addr ∷ []) addr,
      );
    }
  ]

  pub remove_data_node-KeepsRegistry : KeepsRegistry mds (apply_remove_data_node p mds)
  unfolding apply_remove_data_node
  remove_data_node-KeepsRegistry w = record {
    distinct = distinct-remove_first p.addr mds.data_nodes w.distinct;
    keyed = keys-erase p.addr mds.last_heartbeat w.keyed;
    heard = λ addr. ground (
      arith,
      w.heard addr,
      lookup-erase addr p.addr mds.last_heartbeat,
      contains-remove_first p.addr addr mds.data_nodes w.distinct,
    );
  }

  mkdir-SameRegistry : SameRegistry mds (apply_mkdir p now mds)
  unfolding apply_mkdir
  mkdir-SameRegistry = ground arith

  create_file-SameRegistry : SameRegistry mds (apply_create_file p now mds)
  unfolding apply_create_file
  create_file-SameRegistry = ground arith

  complete_file-SameRegistry : SameRegistry mds (apply_complete_file p now mds)
  unfolding apply_complete_file
  complete_file-SameRegistry = ground arith

  delete-SameRegistry : SameRegistry mds (apply_delete p now mds)
  unfolding apply_delete
  delete-SameRegistry = ground arith

  rename-SameRegistry : SameRegistry mds (apply_rename p now mds)
  unfolding apply_rename rename_parts
  rename-SameRegistry = ground arith

  update_size-SameRegistry : SameRegistry mds (apply_update_size p now mds)
  unfolding apply_update_size
  update_size-SameRegistry = ground arith

  update_replicas-SameRegistry : SameRegistry mds (apply_update_replicas p now mds)
  unfolding apply_update_replicas
  update_replicas-SameRegistry = ground arith

  update_status-SameRegistry : SameRegistry mds (apply_update_status p now mds)
  unfolding apply_update_status
  update_status-SameRegistry = ground arith

pub apply-KeepsRegistry : (e : LogEntry) (mds : MetadataServer) → KeepsRegistry mds (apply e mds)
apply-KeepsRegistry = apply_cases KeepsRegistry (record {
  failure = λ mds e w. w;
  heartbeat = heartbeat-KeepsRegistry;
  remove_data_node = λ p mds. remove_data_node-KeepsRegistry p 0 mds;
  mkdir =
      λ p now mds. same-KeepsRegistry mds (apply_mkdir p now mds) (mkdir-SameRegistry p now mds);
  create_file = λ p now mds.
      same-KeepsRegistry mds (apply_create_file p now mds) (create_file-SameRegistry p now mds);
  complete_file = λ p now mds.
      same-KeepsRegistry mds (apply_complete_file p now mds) (complete_file-SameRegistry p now mds);
  delete =
      λ p now mds. same-KeepsRegistry mds (apply_delete p now mds) (delete-SameRegistry p now mds);
  rename =
      λ p now mds. same-KeepsRegistry mds (apply_rename p now mds) (rename-SameRegistry p now mds);
  update_size = λ p now mds.
      same-KeepsRegistry mds (apply_update_size p now mds) (update_size-SameRegistry p now mds);
  update_replicas = λ p now mds.
      same-KeepsRegistry mds (apply_update_replicas p now mds)
        (update_replicas-SameRegistry p now mds);
  update_status = λ p now mds.
      same-KeepsRegistry mds (apply_update_status p now mds) (update_status-SameRegistry p now mds);
})

-- A command that is neither a heartbeat nor a removal leaves the registry as it is.
pub other-SameRegistry :
    (e : LogEntry) (mds : MetadataServer)
    → e.op ≢ op_heartbeat
    → e.op ≢ op_remove_data_node
    → SameRegistry mds (apply e mds)
unfolding apply dispatch
other-SameRegistry e mds beat remove = elim (Option-cases e.payload) [
  | inl gone ↦ ground (arith, gone)
  | inr (p, here) ↦ ground (
    arith,
    here,
    beat,
    remove,
    mkdir-SameRegistry p e.now mds,
    create_file-SameRegistry p e.now mds,
    complete_file-SameRegistry p e.now mds,
    delete-SameRegistry p e.now mds,
    rename-SameRegistry p e.now mds,
    update_size-SameRegistry p e.now mds,
    update_replicas-SameRegistry p e.now mds,
    update_status-SameRegistry p e.now mds,
  )
]

-- A log applied to a server keeps its registry in order, whatever it holds: no node is registered
-- twice, and the registered nodes are those with a last heartbeat, of which each has one.
pub replay-IsRegistry :
    (log : List LogEntry) (mds : MetadataServer) → IsRegistry mds → IsRegistry (replay log mds)
unfolding replay
replay-IsRegistry [] mds w = w
replay-IsRegistry (e ∷ log) mds w =
    replay-IsRegistry log (apply e mds).0 (apply-KeepsRegistry e mds w)
