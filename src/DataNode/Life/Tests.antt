-- ===== src/DataNode/Life/Tests.antt =====
-- A heartbeat that a follower sends on, and a data node that is stopped twice.
use fstorex.Base.{
  String, ◌≡◌, ◌≢◌, refl, ap, true, false, none, some, [], ◌∷◌, ◌==◌, string_eq, nat_eq,
  if◌then◌else◌,
}
use mathlib.Core.Bool.{false≢true}
use fstorex.Base.Dict.{lookup, insert}
use fstorex.Metadata.State.{MetadataServer, new_metadata_server}
use fstorex.Metadata.Apply.{apply_heartbeat}
use fstorex.Metadata.Machine.{apply, dispatch}
use fstorex.Metadata.Server.{Raft, heartbeat}
use fstorex.Metadata.Server.Leader.{Applies}
use fstorex.Metadata.Gc.Membership.{beat}
use fstorex.DataNode.Heartbeat.{trim_space, trim_left, trim_right}
use fstorex.Client.World.{Site, World, Net, up, lost_answer, no_dial}
use fstorex.DataNode.Life.{
  Daemon, new_data_node, stop, heartbeat_tries, send_heartbeat, heartbeat_loop, start_heartbeat,
  ticks, stops,
}
use fstorex.DataNode.Life.Registers.{heartbeat_tries-eq-mds_tries, send_heartbeat-reaches_leader}
use fstorex.Client.Calls.{mds_tries}

abbrev daemon : Daemon
daemon = record {
  mds_addr = "m:2";
  addr = "a:1";
  heartbeat_interval = 300_000_000_000;
  stop_closed = false;
  stop_done = false;
}

created : new_data_node false "m:2" "a:1" ≡ some daemon
unfolding new_data_node
created = refl

stopped_twice : (d : Daemon) × (stop daemon ≡ some d) × (stop d ≡ some d)
unfolding stop
stopped_twice = (record daemon { stop_closed = true; stop_done = true }, refl, refl)

-- Commands are applied at 7.
abbrev committing : Raft
committing = record {
  is_leader = true;
  leader = "m:1";
  propose = λ p mds. ((apply (record { op = p.op; payload = some p; now = 7 }) mds).0, none);
}

committing-Applies : Applies committing 7
committing-Applies p mds = (refl, λ fine. refl)

abbrev fresh : MetadataServer
fresh = new_metadata_server 1 1

abbrev leader : Site
leader = record { raft = committing; state = fresh }

abbrev follower : Site
follower = record { raft = record committing { is_leader = false }; state = fresh }

abbrev world : World
world = record { sites = ("m:1", leader) ∷ ("m:2", follower) ∷ []; nodes = [] }

abbrev net : Net
net = record {
  mds = λ method addr. up;
  node = λ turn addr. no_dial;
  dial_text = λ addr. "refused";
  lost_text = "EOF";
  data_text = λ e. "failed";
  received = λ bytes. some bytes;
  new_id = some "1";
  now = 7;
}

found_follower : lookup "m:2" world.sites ≡ some follower
unfolding lookup string_eq
found_follower = refl

found_leader : lookup "m:1" world.sites ≡ some leader
unfolding lookup string_eq
found_leader = refl

leader_named : ◌≢◌ {A = String} "m:1" ""
unfolding string_eq
leader_named p = false≢true (ap (λ s. s == "") p)

leader_elsewhere : ◌≢◌ {A = String} "m:1" "m:2"
unfolding string_eq
leader_elsewhere p = false≢true (ap (λ s. s == "m:2") p)

leader_plain : trim_space "m:1" ≡ "m:1"
unfolding trim_space trim_left trim_right string_eq nat_eq
leader_plain = refl

send_heartbeat-reaches_leader_example : lookup "m:1" (send_heartbeat net daemon world).sites ≡ (
    if ◌==◌ {A = String} "m:1" "m:1"
    then some (record leader { state = (apply (beat "a:1" 7) fresh).0 })
    else lookup "m:1" world.sites)
send_heartbeat-reaches_leader_example =
    send_heartbeat-reaches_leader net daemon world follower leader 7 found_follower refl refl
      leader_named leader_elsewhere leader_plain found_leader refl refl committing-Applies "m:1"

-- The first heartbeat registers the node even where its answer is lost; behind the end of the
-- channel none is sent.
registered_once :
    (start_heartbeat
      (λ w. w)
      (record net { mds = λ method addr. lost_answer })
      (record daemon { mds_addr = "m:1" })
      (stops ∷ ticks net ∷ [])
      world).sites
    ≡ ("m:1", record leader { state = (apply (beat "a:1" 7) fresh).0 }) ∷ ("m:2", follower) ∷ []
unfolding start_heartbeat heartbeat_loop send_heartbeat heartbeat_tries heartbeat apply dispatch
    apply_heartbeat lookup insert string_eq
registered_once = refl

heartbeat_tries-eq-mds_tries_example :
    heartbeat_tries net "a:1" 3 "m:2" world
    ≡ (mds_tries net "MetadataService.Heartbeat" (λ raft. heartbeat raft "a:1") 3 "m:2" world).0
heartbeat_tries-eq-mds_tries_example = heartbeat_tries-eq-mds_tries net "a:1" 3 "m:2" world
