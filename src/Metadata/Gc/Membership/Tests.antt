-- ===== src/Metadata/Gc/Membership/Tests.antt =====
-- Two data nodes, one of which falls silent.
use fstorex.Base.{
  String, ◌≡◌, ◌≢◌, refl, ap, true, none, some, [], ◌∷◌, arith, string_eq, nat_eq, contains, ◌==◌,
}
use mathlib.Core.Bool.{false≢true}
use fstorex.Base.Dict
use fstorex.Metadata.State.{MetadataServer, new_metadata_server, op_mkdir, no_payload}
use fstorex.Metadata.Apply.{apply_heartbeat, apply_remove_data_node, remove_first}
use fstorex.Metadata.Machine.{LogEntry, dispatch, apply}
use fstorex.Metadata.Machine.Registry.{IsRegistry, apply-KeepsRegistry}
use fstorex.Metadata.Server.{Raft}
use fstorex.Metadata.Server.Leader.{Applies}
use fstorex.Metadata.Gc.{remove_nodes, dead_nodes, check_data_node_health}
use fstorex.Metadata.Gc.Health.{IsChecked, check_data_node_health-IsChecked}
use fstorex.Metadata.Gc.Membership.{
  beat, StaysHeard, joins, hears_again, hears_other, works, checks, StaysHeard-registered,
}

-- A Raft node that applies each command at 0 and never fails.
abbrev committing : Raft
committing = record {
  is_leader = true;
  leader = "m:1";
  propose = λ p mds. ((apply (record { op = p.op; payload = some p; now = 0 }) mds).0, none);
}

committing-Applies : Applies committing 0
committing-Applies p mds = (refl, λ fine. refl)

abbrev fresh : MetadataServer
fresh = new_metadata_server 1 1

fresh-IsRegistry : IsRegistry fresh
unfolding Dict.lookup
fresh-IsRegistry = record { distinct = tt; keyed = tt; heard = λ addr. refl }

-- `a:1` is heard at 1, `b:1` at 2.
abbrev two : MetadataServer
two = (apply (beat "b:1" 2) (apply (beat "a:1" 1) fresh).0).0

two-IsRegistry : IsRegistry two
two-IsRegistry =
    apply-KeepsRegistry (beat "b:1" 2) (apply (beat "a:1" 1) fresh).0
      (apply-KeepsRegistry (beat "a:1" 1) fresh fresh-IsRegistry)

check_data_node_health-IsChecked_example :
    IsChecked two 600_000_000_002 (check_data_node_health committing 600_000_000_002 two)
check_data_node_health-IsChecked_example =
    check_data_node_health-IsChecked committing 0 600_000_000_002 two committing-Applies
      two-IsRegistry

checked_runs : (check_data_node_health committing 600_000_000_002 two).data_nodes ≡ "b:1" ∷ []
unfolding check_data_node_health remove_nodes dead_nodes apply dispatch apply_heartbeat
    apply_remove_data_node remove_first Dict.insert Dict.erase string_eq nat_eq
checked_runs = refl

differ : ◌≢◌ {A = String} "a:1" "b:1"
unfolding string_eq
differ p = false≢true (ap (λ s. s == "b:1") p)

-- `b:1` joins, `a:1` is heard once, a directory is made, `b:1` is heard again, and the nodes are
-- checked.
abbrev joined : MetadataServer
joined = (apply (beat "b:1" 1) fresh).0

abbrev with_a : MetadataServer
with_a = (apply (beat "a:1" 2) joined).0

abbrev mkdir_a : LogEntry
mkdir_a = record { op = op_mkdir; payload = some (record no_payload { path = "/a" }); now = 3 }

abbrev worked : MetadataServer
worked = (apply mkdir_a with_a).0

abbrev again : MetadataServer
again = (apply (beat "b:1" 4) worked).0

no_beat : ◌≢◌ {A = String} op_mkdir "heartbeat"
unfolding string_eq
no_beat p = false≢true (ap (λ s. s == "heartbeat") p)

no_removal : ◌≢◌ {A = String} op_mkdir "remove_dn"
unfolding string_eq
no_removal p = false≢true (ap (λ s. s == "remove_dn") p)

stays : StaysHeard "b:1" 600_000_000_000 4 (check_data_node_health committing 600_000_000_004 again)
stays =
    checks
      (hears_again
        (works (hears_other (joins fresh-IsRegistry refl refl) "a:1" 2 differ refl) mkdir_a no_beat
          no_removal refl)
        refl)
      committing 0 600_000_000_004 committing-Applies (omega arith) refl

StaysHeard-registered_example :
    (contains (check_data_node_health committing 600_000_000_004 again).data_nodes "b:1" ≡ true)
    × (Dict.lookup "b:1" (check_data_node_health committing 600_000_000_004 again).last_heartbeat
        ≡ some 4)
StaysHeard-registered_example =
    StaysHeard-registered "b:1" 600_000_000_000 4
      (check_data_node_health committing 600_000_000_004 again) stays
