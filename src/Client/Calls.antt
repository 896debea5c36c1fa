-- ===== src/Client/Calls.antt =====
-- The remote calls of the client (internal/client/client.go).
use fstorex.Base.{
  ℕ, zero, suc, String, ◌<>◌, Bool, true, false, not, ◌&&◌, none, some, ◌==◌, string_eq, take,
}
use fstorex.Base.Dict.{lookup, insert}
use fstorex.Types.{ℤ, pos, Replica, FileLocation}
use fstorex.Metadata.State.{MetadataServer}
use fstorex.Metadata.Server.{
  Raft, Answer, answer, refuse, Handled, message, get_file_location, update_size,
}
use fstorex.DataNode.Bytes.{Bytes}
use fstorex.DataNode.Disk.{DataNode, Faults, Reply, ok, err, panicked}
use fstorex.DataNode.Service.{range_read, partial_write, truncate, sync}
use fstorex.DataNode.Heartbeat.{extract_leader_addr}
use fstorex.Client.World.{
  Site, World, down, lost_answer, up, no_dial, lost_reply, served, Net, Result, returns, fails,
}

abbrev pub at_site : String → MetadataServer → Site → World → World
at_site addr state site w = record w { sites = insert addr (record site { state = state }) w.sites }

abbrev pub at_node : String → DataNode → World → World
at_node addr dn w = record w { nodes = insert addr dn w.nodes }

abbrev pub no_mds : Net → String → String
no_mds net addr = "cannot connect to metadata server at " <> addr <> ": " <> net.dial_text addr

abbrev pub no_node : Net → String → String
no_node net addr = "cannot connect to data node at " <> addr <> ": " <> net.dial_text addr

-- Whether an error names another server as the leader.
abbrev pub redirects : String → String → Bool
redirects text addr = not (extract_leader_addr text == "") && not (extract_leader_addr text == addr)

-- The loop of `callMDSWithRedirect`: the tries that are left, and the address of the next.
unfoldable pub mds_tries {ℓ} :
    {A : Type ℓ}
    → Net
    → String
    → (Raft → MetadataServer → Handled A)
    → ℕ
    → String
    → World
    → World × Result A
mds_tries net method handler zero addr w =
    (w, fails ("redirect retries exhausted for method " <> method))
mds_tries net method handler (suc tries) addr w = elim (lookup addr w.sites) [
  | none ↦ (w, fails (no_mds net addr))
  | some site ↦
      let (state, reply) = handler site.raft site.state in
      let after = at_site addr state site w in
      elim (net.mds method addr) [
        | down ↦ (w, fails (no_mds net addr))
        | lost_answer ↦ (after, fails net.lost_text)
        | up ↦ elim reply [
          | answer r ↦ (after, returns r)
          | refuse e ↦ elim (redirects (message e) addr) [
            | false ↦ (after, fails (message e))
            | true ↦ mds_tries net method handler tries (extract_leader_addr (message e)) after
          ]
        ]
      ]
]

-- `callMDSWithRedirect`
abbrev pub call_mds {ℓ} :
    {A : Type ℓ}
    → Net
    → String
    → (Raft → MetadataServer → Handled A)
    → String
    → World
    → World × Result A
call_mds net method handler mds_addr w = mds_tries net method handler 3 mds_addr w

-- `dialMDS` and a call that only reads; `what` stands in front of the text of an error of the call.
unfoldable pub ask_mds {ℓ} :
    {A : Type ℓ} → Net → String → String → (MetadataServer → Answer A) → String → World → Result A
ask_mds net method what handler mds_addr w = elim (lookup mds_addr w.sites) [
  | none ↦ fails (no_mds net mds_addr)
  | some site ↦ elim (net.mds method mds_addr) [
    | down ↦ fails (no_mds net mds_addr)
    | lost_answer ↦ fails (what <> net.lost_text)
    | up ↦ elim (handler site.state) [ answer r ↦ returns r | refuse e ↦ fails (what <> message e) ]
  ]
]

abbrev pub from_node {ℓ} : {A : Type ℓ} → Net → String → Reply A → Result A
from_node net what (ok a) = returns a
from_node net what (err e) = fails (what <> net.data_text e)
from_node net what panicked = fails (what <> net.lost_text)

-- `dialDataNode` and a call; `what` stands in front of the text of an error of the call.
unfoldable pub call_node {ℓ} :
    {A : Type ℓ}
    → Net
    → String
    → ℕ
    → String
    → (Faults → DataNode → DataNode × Reply A)
    → World
    → World × Result A
call_node net what turn addr handler w = elim (lookup addr w.nodes) [
  | none ↦ (w, fails (no_node net addr))
  | some dn ↦ elim (net.node turn addr) [
    | no_dial ↦ (w, fails (no_node net addr))
    | lost_reply f ↦ (at_node addr (handler f dn).0 w, fails (what <> net.lost_text))
    | served f ↦ (at_node addr (handler f dn).0 w, from_node net what (handler f dn).1)
  ]
]

-- The same for a handler that only reads.
unfoldable pub ask_node {ℓ} :
    {A : Type ℓ} → Net → String → ℕ → String → (Faults → DataNode → Reply A) → World → Result A
ask_node net what turn addr handler w = elim (lookup addr w.nodes) [
  | none ↦ fails (no_node net addr)
  | some dn ↦ elim (net.node turn addr) [
    | no_dial ↦ fails (no_node net addr)
    | lost_reply f ↦ fails (what <> net.lost_text)
    | served f ↦ from_node net what (handler f dn)
  ]
]

-- `rangeRead`: the bytes that go to the front of a buffer of a length, and whether the file ends.
unfoldable pub range_read_from : Net → ℕ → Replica → ℕ → ℕ → World → Result (Bytes × Bool)
range_read_from net turn replica off len w =
    elim (ask_node net "range read failed: " turn replica.addr
      (λ f.
        range_read f (record { path = replica.remote_path; offset = pos off; length = pos len }))
      w) [ fails text ↦ fails text | returns reply ↦ returns (take len reply.bytes, reply.eof) ]

-- `partialWrite`
unfoldable pub partial_write_to : Net → Replica → ℕ → Bytes → World → World × Result Bool
partial_write_to net replica off bytes w =
    call_node net "partial write failed: " 0 replica.addr
      (λ f.
        partial_write f net.now
          (record { path = replica.remote_path; offset = pos off; bytes = bytes }))
      w

-- `truncateReplica`
unfoldable pub truncate_replica : Net → Replica → ℤ → World → World × Result Bool
truncate_replica net replica size w =
    call_node net "truncate failed: " 0 replica.addr
      (λ f. truncate f net.now (record { path = replica.remote_path; size = size })) w

-- `syncReplica`
unfoldable pub sync_replica : Net → Replica → World → Result Bool
sync_replica net replica w =
    ask_node net "sync failed: " 0 replica.addr (λ f. sync f replica.remote_path) w

-- `getFileLocation`
unfoldable pub file_location : Net → String → String → World → Result FileLocation
file_location net mds_addr path w =
    ask_mds net "MetadataService.GetFileLocation" "" (get_file_location path) mds_addr w

-- `updateSize`
unfoldable pub update_size_at : Net → String → String → ℤ → World → World × Result Bool
update_size_at net mds_addr path size w =
    call_mds net "MetadataService.UpdateSize"
      (λ raft. update_size raft (record { path = path; size = size })) mds_addr w
