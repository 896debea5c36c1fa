-- ===== src/Metadata/Gc/Health.antt =====
-- Which data nodes a health check leaves in the registry.
use fstorex.Base.{
  String, ◌≡◌, refl, sym, ◌∙◌, subst, Bool, false, not, ◌&&◌, Option, none, some, List, [], ◌∷◌,
  ◌+◌, arith, ltb, string_eq, contains, if◌then◌else◌,
}
use fstorex.Base.Dict
use fstorex.Base.Dict.{Dict, lookup-erase}
use fstorex.Types.{Time}
use fstorex.Metadata.State.{no_payload, MetadataServer, op_remove_data_node}
use fstorex.Metadata.Apply.{apply_remove_data_node}
use fstorex.Metadata.Machine.{dispatch, apply}
use fstorex.Metadata.Machine.Registry.{
  AreDistinct, keys, IsRegistry, contains-remove_first, remove_data_node-KeepsRegistry,
}
use fstorex.Metadata.Server.{Raft}
use fstorex.Metadata.Server.Leader.{Applies}
use fstorex.Metadata.Gc.{remove_nodes, dead_nodes, check_data_node_health}

-- Whether a time is longer ago than the timeout; `none` is not.
abbrev pub is_over : Time → Time → Option Time → Bool
is_over timeout now none = false
is_over timeout now (some last) = ltb (last + timeout) now

lookup-unkeyed :
    (addr : String) (heard : Dict String Time)
    → contains (keys heard) addr ≡ false
    → Dict.lookup addr heard ≡ none
unfolding Dict.lookup
lookup-unkeyed addr [] fresh = refl
lookup-unkeyed addr ((k, v) ∷ heard) fresh = ground (arith, fresh, lookup-unkeyed addr heard)

contains-dead_nodes :
    (timeout now : Time) (addr : String) (heard : Dict String Time)
    → AreDistinct (keys heard)
    → contains (dead_nodes timeout now heard) addr ≡ is_over timeout now (Dict.lookup addr heard)
unfolding dead_nodes Dict.lookup
contains-dead_nodes timeout now addr [] u = refl
contains-dead_nodes timeout now addr ((k, v) ∷ heard) u =
    ground (arith, u.0, lookup-unkeyed addr heard, contains-dead_nodes timeout now addr heard u.1)

-- What removals leave of the registry.
record IsWithout (mds : MetadataServer) (dead : List String) (after : MetadataServer) : Type 0 where
  registry : IsRegistry after
  nodes :
      (a : String)
      → contains after.data_nodes a ≡ (contains mds.data_nodes a && not (contains dead a))
  heard :
      (a : String)
      → Dict.lookup a after.last_heartbeat
        ≡ (if contains dead a then none else Dict.lookup a mds.last_heartbeat)
  timeout : after.heartbeat_timeout ≡ mds.heartbeat_timeout

module _ (raft : Raft) (now : Time) (applies : Applies raft now) where
  removal :
      (addr : String) (mds : MetadataServer)
      → (raft.propose (record no_payload { op = op_remove_data_node; addr = addr }) mds).0
        ≡ (apply_remove_data_node (record no_payload { addr = addr }) mds).0
  unfolding apply dispatch string_eq apply_remove_data_node
  removal addr mds = (applies (record no_payload { op = op_remove_data_node; addr = addr }) mds).0

  removed-IsWithout :
      (addr : String) (mds : MetadataServer)
      → IsRegistry mds
      → IsWithout mds (addr ∷ []) (apply_remove_data_node (record no_payload { addr = addr }) mds).0
  unfolding apply_remove_data_node
  removed-IsWithout addr mds w = record {
    registry = remove_data_node-KeepsRegistry (record no_payload { addr = addr }) now mds w;
    nodes = λ a. ground (arith, contains-remove_first addr a mds.data_nodes w.distinct);
    heard = λ a. ground (arith, lookup-erase a addr mds.last_heartbeat);
    timeout = refl;
  }

  remove_nodes-IsWithout :
      (dead : List String) (mds : MetadataServer)
      → IsRegistry mds
      → IsWithout mds dead (remove_nodes raft dead mds)
  unfolding remove_nodes
  remove_nodes-IsWithout [] mds w = record {
    registry = w;
    nodes = λ a. ground arith;
    heard = λ a. refl;
    timeout = refl;
  }
  remove_nodes-IsWithout (addr ∷ dead) mds w =
      let next : MetadataServer =
        (raft.propose (record no_payload { op = op_remove_data_node; addr = addr }) mds).0 in
      let one : IsWithout mds (addr ∷ []) next =
        subst (IsWithout mds (addr ∷ [])) (sym (removal addr mds)) (removed-IsWithout addr mds w) in
      let rest : IsWithout next dead (remove_nodes raft dead next) =
        remove_nodes-IsWithout dead next one.registry in
      record {
        registry = rest.registry;
        nodes = λ a. ground (arith, one.nodes a, rest.nodes a);
        heard = λ a. ground (arith, one.heard a, rest.heard a);
        timeout = rest.timeout ∙ one.timeout;
      }

-- What a health check of the leader leaves: the timeout, a registry in order, and in it exactly the
-- nodes whose last heartbeat is not longer ago than the timeout, with their last heartbeats.
pub record IsChecked (mds : MetadataServer) (checked_at : Time) (after : MetadataServer)
    : Type 0 where
  pub registry : IsRegistry after
  pub nodes :
      (a : String)
      → contains after.data_nodes a ≡ (
          contains mds.data_nodes a
          && not (is_over mds.heartbeat_timeout checked_at (Dict.lookup a mds.last_heartbeat)))
  pub heard :
      (a : String)
      → Dict.lookup a after.last_heartbeat ≡ (
          if is_over mds.heartbeat_timeout checked_at (Dict.lookup a mds.last_heartbeat)
          then none
          else Dict.lookup a mds.last_heartbeat)
  pub timeout : after.heartbeat_timeout ≡ mds.heartbeat_timeout

-- A health check of a leader whose Raft node applies every command removes exactly the data nodes
-- whose last heartbeat is longer ago than the timeout, from a registry in order, which stays so.
pub check_data_node_health-IsChecked :
    (raft : Raft) (now checked_at : Time) (mds : MetadataServer)
    → Applies raft now
    → IsRegistry mds
    → IsChecked mds checked_at (check_data_node_health raft checked_at mds)
unfolding check_data_node_health
check_data_node_health-IsChecked raft now checked_at mds applies w =
    let heard : Dict String Time = mds.last_heartbeat in
    let dead : List String = dead_nodes mds.heartbeat_timeout checked_at heard in
    let left : IsWithout mds dead (remove_nodes raft dead mds) =
      remove_nodes-IsWithout raft now applies dead mds w in
    record {
      registry = left.registry;
      nodes = λ a. ground (
        arith,
        left.nodes a,
        contains-dead_nodes mds.heartbeat_timeout checked_at a heard w.keyed,
      );
      heard = λ a. ground (
        arith,
        left.heard a,
        contains-dead_nodes mds.heartbeat_timeout checked_at a heard w.keyed,
      );
      timeout = left.timeout;
    }
