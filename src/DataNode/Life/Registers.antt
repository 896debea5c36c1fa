-- ===== src/DataNode/Life/Registers.antt =====
-- What a heartbeat does to the registries of the metadata servers.
use fstorex.Base.{
  ℕ, zero, suc, String, Bool, ◌≡◌, ◌≢◌, refl, ap, ◌∙◌, true, false, none, some, arith, ◌==◌,
  string_eq, if◌then◌else◌, Option-cases, Bool-cases, inl, inr,
}
use fstorex.Base.Dict.{lookup}
use fstorex.Types.{Time}
use fstorex.Metadata.State.{MetadataServer, no_payload, op_heartbeat}
use fstorex.Metadata.Machine.{dispatch, apply}
use fstorex.Metadata.Apply.{apply_heartbeat}
use fstorex.Metadata.Server.{Raft, Handled, Answer, answer, refuse, not_leader, heartbeat, message}
use fstorex.Metadata.Server.Leader.{Applies}
use fstorex.Metadata.Gc.Membership.{beat}
use fstorex.DataNode.Heartbeat.{trim_space, extract_leader_addr}
use fstorex.Client.World.{Site, World, Net, MdsContact, down, lost_answer, up}
use fstorex.Client.Calls.{at_site, mds_tries, redirects}
use fstorex.Client.Files.Redirects.{call_mds-redirected}
use fstorex.DataNode.Life.{Daemon, heartbeat_tries, send_heartbeat}

abbrev beats : String → Raft → MetadataServer → Handled Bool
beats self raft mds = heartbeat raft self mds

module _ (net : Net) (self : String) (tries : ℕ) (addr : String) (w : World) (site : Site)
    (here : lookup addr w.sites ≡ some site) where
  abbrev after : World
  after = at_site addr (heartbeat site.raft self site.state).0 site w

  -- The next try of a heartbeat is that of the client.
  abbrev GoesOnAlike : Type 0
  GoesOnAlike =
      (next : String)
      → heartbeat_tries net self tries next after
        ≡ (mds_tries net "MetadataService.Heartbeat" (beats self) tries next after).0

  abbrev Alike : Type 0
  Alike =
      heartbeat_tries net self (suc tries) addr w
      ≡ (mds_tries net "MetadataService.Heartbeat" (beats self) (suc tries) addr w).0

  by_reply :
      (reply : Answer Bool)
      → (heartbeat site.raft self site.state).1 ≡ reply
      → net.mds "MetadataService.Heartbeat" addr ≡ up
      → GoesOnAlike
      → Alike
  unfolding heartbeat_tries mds_tries
  by_reply (answer r) said reached alike = ground (arith, here, said, reached)
  by_reply (refuse e) said reached alike = elim (Bool-cases (redirects (message e) addr)) [
    | inl turned ↦
        rw (here, reached, said, turned, heartbeat_tries, mds_tries)
          (alike (extract_leader_addr (message e)))
    | inr ended ↦ ground (arith, here, said, reached, ended)
  ]

  by_contact :
      (contact : MdsContact)
      → net.mds "MetadataService.Heartbeat" addr ≡ contact
      → GoesOnAlike
      → Alike
  unfolding heartbeat_tries mds_tries
  by_contact down reached alike = ground (arith, here, reached)
  by_contact lost_answer reached alike = ground (arith, here, reached)
  by_contact up reached alike = by_reply (heartbeat site.raft self site.state).1 refl reached alike

-- The loop of a heartbeat leaves the world that a client's call with redirects leaves, whatever
-- becomes of its calls.
pub heartbeat_tries-eq-mds_tries :
    (net : Net) (self : String) (tries : ℕ) (addr : String) (w : World)
    → heartbeat_tries net self tries addr w
      ≡ (mds_tries net "MetadataService.Heartbeat" (λ raft. heartbeat raft self) tries addr w).0
unfolding heartbeat_tries mds_tries
heartbeat_tries-eq-mds_tries net self zero addr w = refl
heartbeat_tries-eq-mds_tries net self (suc tries) addr w =
    elim (Option-cases (lookup addr w.sites)) [
      | inl gone ↦ ground (arith, gone)
      | inr (site, here) ↦
          by_contact net self tries addr w site here (net.mds "MetadataService.Heartbeat" addr) refl
            (λ next.
              heartbeat_tries-eq-mds_tries net self tries next
                (after net self tries addr w site here))
    ]

follower_refuses :
    (self : String) (raft : Raft) (mds : MetadataServer)
    → raft.is_leader ≡ false
    → heartbeat raft self mds ≡ (mds, refuse (not_leader raft.leader))
unfolding heartbeat
follower_refuses self raft mds follows = ground (arith, follows)

beat-accepted :
    (self : String) (now : Time) (mds : MetadataServer) → (apply (beat self now) mds).1 ≡ none
unfolding apply dispatch apply_heartbeat string_eq
beat-accepted self now mds = refl

leader_hears :
    (self : String) (raft : Raft) (now : Time) (mds : MetadataServer)
    → raft.is_leader ≡ true
    → Applies raft now
    → heartbeat raft self mds ≡ ((apply (beat self now) mds).0, answer true)
unfolding heartbeat
leader_hears self raft now mds leads applies =
    let (left, works) = applies (record no_payload { op = op_heartbeat; addr = self }) mds in
    ground (arith, leads, left, works (beat-accepted self now mds))

-- A heartbeat that a data node sends to a follower reaches the leader that the follower names: the
-- leader's state becomes that behind the node's heartbeat in the log, and every other server keeps
-- its state. Both servers are up, the leader's Raft node applies every command, and the leader's
-- address is not empty, is not the follower's and has no space around it.
pub send_heartbeat-reaches_leader :
    (net : Net) (d : Daemon) (w : World) (follower leader : Site) (now : Time)
    → lookup d.mds_addr w.sites ≡ some follower
    → follower.raft.is_leader ≡ false
    → net.mds "MetadataService.Heartbeat" d.mds_addr ≡ up
    → follower.raft.leader ≢ ""
    → follower.raft.leader ≢ d.mds_addr
    → trim_space follower.raft.leader ≡ follower.raft.leader
    → lookup follower.raft.leader w.sites ≡ some leader
    → net.mds "MetadataService.Heartbeat" follower.raft.leader ≡ up
    → leader.raft.is_leader ≡ true
    → Applies leader.raft now
    → (q : String)
    → lookup q (send_heartbeat net d w).sites ≡ (
        if follower.raft.leader == q
        then some (record leader { state = (apply (beat d.addr now) leader.state).0 })
        else lookup q w.sites)
unfolding send_heartbeat
send_heartbeat-reaches_leader net d w follower leader now here follows reached named other plain
      there ready leads applies q =
    ap (λ (v : World). lookup q v.sites) (heartbeat_tries-eq-mds_tries net d.addr 3 d.mds_addr w)
    ∙ (call_mds-redirected net "MetadataService.Heartbeat" (beats d.addr) d.mds_addr
          follower.raft.leader w follower leader (apply (beat d.addr now) leader.state).0 true here
          reached (follower_refuses d.addr follower.raft follower.state follows) named other plain
          there ready (leader_hears d.addr leader.raft now leader.state leads applies)).1
        q
