-- ===== src/Client/Files/Redirects.antt =====
-- Writes that a follower sends on to its leader.
use fstorex.Base.{
  ℕ, suc, String, ◌<>◌, ◌≡◌, ◌≢◌, refl, ap, ◌∙◌, true, some, arith, ◌==◌, string_eq, if◌then◌else◌,
}
use fstorex.Base.Dict.{lookup, lookup-insert}
use fstorex.Metadata.State.{MetadataServer}
use fstorex.Metadata.Server.{Raft, Handled, answer, refuse, not_leader, message}
use fstorex.DataNode.Heartbeat.{trim_space, extract_leader_addr, redirect_prefix, extract-redirect}
use fstorex.Client.World.{Site, World, Net, up, returns}
use fstorex.Client.Calls.{at_site, mds_tries, call_mds, redirects}

module _ {A : Type 0} (net : Net) (method : String) (handler : Raft → MetadataServer → Handled A)
    (tries : ℕ) (w : World) where
  mds_tries-refused :
      (addr leader : String) (follower : Site)
      → lookup addr w.sites ≡ some follower
      → net.mds method addr ≡ up
      → handler follower.raft follower.state ≡ (follower.state, refuse (not_leader leader))
      → redirects (redirect_prefix <> leader) addr ≡ true
      → mds_tries net method handler (suc tries) addr w
        ≡ mds_tries net method handler tries
            (extract_leader_addr (redirect_prefix <> leader))
            (at_site addr follower.state follower w)
  unfolding mds_tries message
  mds_tries-refused addr leader follower here reached refused turned =
      let left = ap (λ (h : Handled A). h.0) refused in
      let said = ap (λ (h : Handled A). h.1) refused in
      rw (here, reached, said, turned, left, mds_tries) refl

  mds_tries-did :
      (addr : String) (site : Site) (state : MetadataServer) (r : A)
      → lookup addr w.sites ≡ some site
      → net.mds method addr ≡ up
      → handler site.raft site.state ≡ (state, answer r)
      → mds_tries net method handler (suc tries) addr w ≡ (at_site addr state site w, returns r)
  unfolding mds_tries
  mds_tries-did addr site state r here reached did =
      let left = ap (λ (h : Handled A). h.0) did in
      let said = ap (λ (h : Handled A). h.1) did in rw (here, reached, said, left, mds_tries) refl

-- A write that a client sends to a follower is done by the leader that the follower names, and by
-- no other server: the client has the leader's answer, the leader the state that the work leaves,
-- and every other server the state from before. Both servers are up, the leader's address is not
-- empty and has no space around it, and the handler refuses on the follower as the guard of every
-- write does.
pub call_mds-redirected :
    {A : Type 0} (net : Net) (method : String) (handler : Raft → MetadataServer → Handled A)
    (addr leader : String) (w : World) (follower site : Site) (state : MetadataServer) (r : A)
    → lookup addr w.sites ≡ some follower
    → net.mds method addr ≡ up
    → handler follower.raft follower.state ≡ (follower.state, refuse (not_leader leader))
    → leader ≢ ""
    → leader ≢ addr
    → trim_space leader ≡ leader
    → lookup leader w.sites ≡ some site
    → net.mds method leader ≡ up
    → handler site.raft site.state ≡ (state, answer r)
    → ((call_mds net method handler addr w).1 ≡ returns r)
      × ((q : String)
          → lookup q (call_mds net method handler addr w).0.sites
            ≡ (if leader == q then some (record site { state = state }) else lookup q w.sites))
call_mds-redirected net method handler addr leader w follower site state r here reached refused
      named other plain there ready did =
    let moved : World = at_site addr follower.state follower w in
    let unmoved : lookup leader moved.sites ≡ some site =
      ground (arith, other, there, lookup-insert leader addr follower w.sites) in
    let told : extract_leader_addr (redirect_prefix <> leader) ≡ leader =
      extract-redirect leader ∙ plain in
    let turned : redirects (redirect_prefix <> leader) addr ≡ true =
      ground (arith, told, named, other) in
    let called : call_mds net method handler addr w ≡ (at_site leader state site moved, returns r) =
      mds_tries-refused net method handler 2 w addr leader follower here reached refused turned
      ∙ ap (λ a. mds_tries net method handler 2 a moved) told
      ∙ mds_tries-did net method handler 1 moved leader site state r unmoved ready did in
    (
      ap (λ v. v.1) called,
      λ q.
          ap (λ v. lookup q v.0.sites) called
          ∙ ground (
            arith,
            here,
            lookup-insert q leader (record site { state = state }) moved.sites,
            lookup-insert q addr follower w.sites,
          ),
    )
