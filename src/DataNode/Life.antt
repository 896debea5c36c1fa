-- ===== src/DataNode/Life.antt =====
-- The life of a data node (internal/datanode/datanode.go): its creation, its heartbeats, and its
-- end. The servers that its heartbeats reach are those of a world.
pub mod Registers
pub mod Ends
mod Tests
use fstorex.Base.{
  ℕ, zero, suc, String, Bool, true, false, Option, none, some, List, [], ◌∷◌, if◌then◌else◌,
  string_eq,
}
use fstorex.Base.Dict.{lookup}
use fstorex.Types.{Time}
use fstorex.Metadata.Server.{answer, refuse, message, heartbeat}
use fstorex.DataNode.Heartbeat.{extract_leader_addr}
use fstorex.Client.World.{World, Net, down, lost_answer, up}
use fstorex.Client.Calls.{at_site, redirects}

-- The fields of `DataNode` that are not its data: its addresses, its channel `stopCh`, and whether
-- `stopOnce` has run.
pub record Daemon : Type 0 where
  pub mds_addr : String
  pub addr : String
  pub heartbeat_interval : Time
  pub stop_closed : Bool
  pub stop_done : Bool

-- `heartbeatInterval`, five minutes.
abbrev pub heartbeat_interval : Time
heartbeat_interval = 300_000_000_000

-- `NewDataNode`; the first argument is whether the data directory cannot be made.
unfoldable pub new_data_node : Bool → String → String → Option Daemon
new_data_node true mds_addr addr = none
new_data_node false mds_addr addr = some (record {
  mds_addr = mds_addr;
  addr = addr;
  heartbeat_interval = heartbeat_interval;
  stop_closed = false;
  stop_done = false;
})

-- `Stop`, `none` where the channel is closed a second time, which panics.
unfoldable pub stop : Daemon → Option Daemon
stop d =
    if d.stop_done
    then some d
    else if d.stop_closed
    then none
    else some (record d { stop_closed = true; stop_done = true })

-- The tries of `sendHeartbeat` that are left, and the address of the next.
unfoldable pub heartbeat_tries : Net → String → ℕ → String → World → World
heartbeat_tries net self zero addr w = w
heartbeat_tries net self (suc tries) addr w = elim (lookup addr w.sites) [
  | none ↦ w
  | some site ↦
      let (state, reply) = heartbeat site.raft self site.state in
      let after = at_site addr state site w in
      elim (net.mds "MetadataService.Heartbeat" addr) [
        | down ↦ w
        | lost_answer ↦ after
        | up ↦ elim reply [
          | answer r ↦ after
          | refuse e ↦ elim (redirects (message e) addr) [
            | false ↦ after
            | true ↦ heartbeat_tries net self tries (extract_leader_addr (message e)) after
          ]
        ]
      ]
]

-- `sendHeartbeat`
unfoldable pub send_heartbeat : Net → Daemon → World → World
send_heartbeat net d w = heartbeat_tries net d.addr 3 d.mds_addr w

-- What the loop of the goroutine receives: a tick, with how its heartbeat's calls come out, or the
-- end of `stopCh`.
pub data Received : Type 0 where
  ticks : Net → Received
  stops : Received

-- The loop of the goroutine. The other programs work on the world between its turns.
unfoldable pub heartbeat_loop : (World → World) → Daemon → List Received → World → World
heartbeat_loop others d [] w = w
heartbeat_loop others d (stops ∷ rest) w = w
heartbeat_loop others d (ticks net ∷ rest) w =
    heartbeat_loop others d rest (send_heartbeat net d (others w))

-- `StartHeartbeat`
unfoldable pub start_heartbeat : (World → World) → Net → Daemon → List Received → World → World
start_heartbeat others first d received w =
    heartbeat_loop others d received (send_heartbeat first d w)
