-- ===== src/Metadata/Gc/Membership.antt =====
-- A data node that the leader hears in time, through the commands and the health checks of the
-- leader's log.
mod Tests
use fstorex.Base.{
  String, ◌≡◌, ◌≢◌, ◌≤◌, ◌+◌, refl, sym, ap, ◌∙◌, subst, true, some, arith, string_eq, contains,
  ==_refl,
}
use fstorex.Base.Dict
use fstorex.Base.Dict.{lookup-insert}
use fstorex.Types.{Time}
use fstorex.Metadata.State.{MetadataServer, no_payload, op_heartbeat, op_remove_data_node}
use fstorex.Metadata.Apply.{apply_heartbeat}
use fstorex.Metadata.Machine.{LogEntry, dispatch, apply}
use fstorex.Metadata.Machine.Registry.{
  IsRegistry, is_some, SameRegistry, apply-KeepsRegistry, other-SameRegistry,
}
use fstorex.Metadata.Server.{Raft}
use fstorex.Metadata.Server.Leader.{Applies}
use fstorex.Metadata.Gc.{check_data_node_health}
use fstorex.Metadata.Gc.Health.{IsChecked, is_over, check_data_node_health-IsChecked}

-- The entry of a heartbeat in the log.
abbrev pub beat : String → Time → LogEntry
beat addr now = record {
  op = op_heartbeat;
  payload = some (record no_payload { op = op_heartbeat; addr = addr });
  now = now;
}

-- The states that a leader reaches, with the time of the last heartbeat of a node, while no health
-- check comes later than the timeout behind that heartbeat: the node joins a registry in order; it
-- is heard again; another is heard; another command is applied; the nodes are checked.
pub data StaysHeard (addr : String) (timeout : Time) : Time → MetadataServer → Type 0 where
  joins :
      {now : Time} {mds after : MetadataServer}
      → IsRegistry mds
      → mds.heartbeat_timeout ≡ timeout
      → after ≡ (apply (beat addr now) mds).0
      → StaysHeard addr timeout now after
  hears_again :
      {last now : Time} {mds after : MetadataServer}
      → StaysHeard addr timeout last mds
      → after ≡ (apply (beat addr now) mds).0
      → StaysHeard addr timeout now after
  hears_other :
      {last : Time} {mds after : MetadataServer}
      → StaysHeard addr timeout last mds
      → (other : String) (now : Time) → other ≢ addr
      → after ≡ (apply (beat other now) mds).0
      → StaysHeard addr timeout last after
  works :
      {last : Time} {mds after : MetadataServer}
      → StaysHeard addr timeout last mds
      → (e : LogEntry) → e.op ≢ op_heartbeat
      → e.op ≢ op_remove_data_node
      → after ≡ (apply e mds).0
      → StaysHeard addr timeout last after
  checks :
      {last : Time} {mds after : MetadataServer}
      → StaysHeard addr timeout last mds
      → (raft : Raft) (now checked_at : Time) → Applies raft now
      → checked_at ≤ last + timeout
      → after ≡ check_data_node_health raft checked_at mds
      → StaysHeard addr timeout last after

record IsKnown (addr : String) (timeout last : Time) (mds : MetadataServer) : Type 0 where
  registry : IsRegistry mds
  heard : Dict.lookup addr mds.last_heartbeat ≡ some last
  same_timeout : mds.heartbeat_timeout ≡ timeout

beaten :
    (other : String) (now : Time) (mds : MetadataServer)
    → ((apply (beat other now) mds).0.last_heartbeat ≡ Dict.insert other now mds.last_heartbeat)
      × ((apply (beat other now) mds).0.heartbeat_timeout ≡ mds.heartbeat_timeout)
unfolding apply dispatch apply_heartbeat string_eq
beaten other now mds = (refl, refl)

module _ (addr : String) (timeout : Time) where
  beat-IsKnown :
      (now : Time) (mds : MetadataServer)
      → IsRegistry mds
      → mds.heartbeat_timeout ≡ timeout
      → IsKnown addr timeout now (apply (beat addr now) mds).0
  beat-IsKnown now mds w same = record {
    registry = apply-KeepsRegistry (beat addr now) mds w;
    heard =
        ap (Dict.lookup addr) (beaten addr now mds).0
        ∙ ground (arith, lookup-insert addr addr now mds.last_heartbeat, ==_refl addr);
    same_timeout = (beaten addr now mds).1 ∙ same;
  }

  other-IsKnown :
      (last : Time) (other : String) (now : Time) (mds : MetadataServer)
      → other ≢ addr
      → IsKnown addr timeout last mds
      → IsKnown addr timeout last (apply (beat other now) mds).0
  other-IsKnown last other now mds differ known = record {
    registry = apply-KeepsRegistry (beat other now) mds known.registry;
    heard =
        ap (Dict.lookup addr) (beaten other now mds).0
        ∙ ground (arith, lookup-insert addr other now mds.last_heartbeat, differ);
    same_timeout = (beaten other now mds).1 ∙ known.same_timeout;
  }

  work-IsKnown :
      (last : Time) (e : LogEntry) (mds : MetadataServer)
      → SameRegistry mds (apply e mds)
      → IsKnown addr timeout last mds
      → IsKnown addr timeout last (apply e mds).0
  work-IsKnown last e mds same known = record {
    registry = apply-KeepsRegistry e mds known.registry;
    heard = ap (Dict.lookup addr) same.1 ∙ known.heard;
    same_timeout = same.2 ∙ known.same_timeout;
  }

  checked-IsKnown :
      (last checked_at : Time) (mds after : MetadataServer)
      → checked_at ≤ last + timeout
      → IsChecked mds checked_at after
      → IsKnown addr timeout last mds
      → IsKnown addr timeout last after
  checked-IsKnown last checked_at mds after intime left known = record {
    registry = left.registry;
    heard = ground (arith, intime, left.heard addr, known.heard, known.same_timeout);
    same_timeout = left.timeout ∙ known.same_timeout;
  }

  StaysHeard-IsKnown :
      {last : Time} {mds : MetadataServer}
      → StaysHeard addr timeout last mds
      → IsKnown addr timeout last mds
  StaysHeard-IsKnown {last} (joins {mds = mds} w same next) =
      subst (IsKnown addr timeout last) (sym next) (beat-IsKnown last mds w same)
  StaysHeard-IsKnown {last} (hears_again {mds = mds} before next) =
      let known = StaysHeard-IsKnown before in
      subst (IsKnown addr timeout last) (sym next)
        (beat-IsKnown last mds known.registry known.same_timeout)
  StaysHeard-IsKnown {last} (hears_other {mds = mds} before other now differ next) =
      subst (IsKnown addr timeout last) (sym next)
        (other-IsKnown last other now mds differ (StaysHeard-IsKnown before))
  StaysHeard-IsKnown {last} (works {mds = mds} before e beats removes next) =
      subst (IsKnown addr timeout last) (sym next) (
        work-IsKnown last e mds (other-SameRegistry e mds beats removes)
          (StaysHeard-IsKnown before))
  StaysHeard-IsKnown {last} (checks {mds = mds} before raft now checked_at applies intime next) =
      let known = StaysHeard-IsKnown before in
      subst (IsKnown addr timeout last) (sym next) (
        checked-IsKnown last checked_at mds (check_data_node_health raft checked_at mds) intime
          (check_data_node_health-IsChecked raft now checked_at mds applies known.registry) known)

-- A data node whose heartbeats reach the leader so that no health check comes later than the timeout
-- behind the last of them stays registered, with the time of that heartbeat, whatever other nodes
-- and other commands the leader serves in between.
pub StaysHeard-registered :
    (addr : String) (timeout last : Time) (mds : MetadataServer)
    → StaysHeard addr timeout last mds
    → (contains mds.data_nodes addr ≡ true) × (Dict.lookup addr mds.last_heartbeat ≡ some last)
StaysHeard-registered addr timeout last mds heard =
    let known = StaysHeard-IsKnown addr timeout heard in
    (known.registry.heard addr ∙ ap is_some known.heard, known.heard)
