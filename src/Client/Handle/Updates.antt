-- ===== src/Client/Handle/Updates.antt =====
-- What the calls of metadata servers, and a truncation of all replicas, leave on the data nodes.
use fstorex.Base.{
  ℕ, suc, zero, String, ◌≡◌, refl, sym, ap, ◌∙◌, subst, Bool, true, none, some, List, [], ◌∷◌, map,
  arith, string_eq, nat_eq, All, Option-cases, Bool-cases, inl, inr,
}
use fstorex.Types.{ℤ, pos, Replica, FileLocation}
use fstorex.Metadata.Machine.Registry.{AreDistinct}
use fstorex.Metadata.State.{MetadataServer}
use fstorex.Metadata.Server.{update_size, Raft, Handled, Answer, answer, refuse, message}
use fstorex.DataNode.Bytes.{Bytes, resize}
use fstorex.DataNode.Heartbeat.{extract_leader_addr}
use fstorex.Base.Dict.{lookup}
use fstorex.Client.World.{
  Site, World, Net, MdsContact, down, lost_answer, up, Result, returns, fails,
}
use fstorex.Client.Calls.{
  at_site, mds_tries, redirects, update_size_at, truncate_replica, file_location,
}
use fstorex.Client.Handle.{on_replicas, failures, first_failure, truncate_all_replicas}
use fstorex.Client.Handle.Reading.{Holds}
use fstorex.Client.Handle.Replicas.{addr_of, on_replicas-turn}
use fstorex.Client.Handle.Writing.{truncate-Turns}

-- No call of a metadata server touches the data nodes.
module _ {ℓ} {A : Type ℓ} (net : Net) (method : String)
    (handler : Raft → MetadataServer → Handled A) where
  -- The induction's step: later tries keep the nodes.
  abbrev pub Keep : ℕ → Type 0
  Keep tries =
      (addr : String) (w : World) → (mds_tries net method handler tries addr w).0.nodes ≡ w.nodes

  by_answer :
      (tries : ℕ) (addr : String) (w : World) (site : Site) (c : MdsContact) (reply : Answer A)
      → Keep tries
      → lookup addr w.sites ≡ some site
      → net.mds method addr ≡ c
      → (handler site.raft site.state).1 ≡ reply
      → (mds_tries net method handler (suc tries) addr w).0.nodes ≡ w.nodes
  unfolding mds_tries
  by_answer tries addr w site down reply keep here called replied =
      rw (here, called, mds_tries) refl
  by_answer tries addr w site lost_answer reply keep here called replied =
      rw (here, called, mds_tries) refl
  by_answer tries addr w site up (answer r) keep here called replied =
      rw (here, called, replied, mds_tries) refl
  by_answer tries addr w site up (refuse e) keep here called replied =
      elim (Bool-cases (redirects (message e) addr)) [
        | inl turned ↦ ground (
          arith,
          here,
          called,
          replied,
          turned,
          keep (extract_leader_addr (message e))
              (at_site addr (handler site.raft site.state).0 site w),
        )
        | inr final ↦ ground (arith, here, called, replied, final)
      ]

  pub mds_tries-nodes : (tries : ℕ) → Keep tries
  unfolding mds_tries
  mds_tries-nodes zero addr w = refl
  mds_tries-nodes (suc tries) addr w = elim (Option-cases (lookup addr w.sites)) [
    | inl gone ↦ ground (arith, gone)
    | inr (site, here) ↦
        by_answer tries addr w site (net.mds method addr) (handler site.raft site.state).1
          (mds_tries-nodes tries) here refl refl
  ]

pub update_size_at-nodes :
    (net : Net) (addr path : String) (size : ℤ) (w : World)
    → (update_size_at net addr path size w).0.nodes ≡ w.nodes
unfolding update_size_at
update_size_at-nodes net addr path size w =
    mds_tries-nodes net "MetadataService.UpdateSize"
      (λ raft. update_size raft (record { path = path; size = size })) 3 addr w

-- Replicas hold what their nodes hold.
pub Holds-nodes :
    (w w' : World) (content : Bytes) (rs : List Replica)
    → w'.nodes ≡ w.nodes
    → All (Holds w content) rs
    → All (Holds w' content) rs
Holds-nodes w w' content [] same holds = tt
Holds-nodes w w' content (r ∷ rs) same holds = (
  (λ dn here. holds.0 dn (ap (λ nodes. lookup r.addr nodes) (sym same) ∙ here)),
  Holds-nodes w w' content rs same holds.1,
)

failures-none : (results : List (Result Bool)) → first_failure results ≡ none → failures results ≡ 0
unfolding failures first_failure
failures-none [] ok = refl
failures-none (returns b ∷ results) ok = failures-none results ok
failures-none (fails text ∷ results) ok = cc

-- A truncation of all replicas that a path has.
module _ (net : Net) (mds_addr path : String) (w : World) (old : Bytes) (size : ℕ) where
  truncate_all_replicas-located :
      (loc : FileLocation)
      → file_location net mds_addr path w ≡ returns loc
      → truncate_all_replicas net mds_addr path (pos size) w ≡ (
        (on_replicas (λ r v. truncate_replica net r (pos size) v) loc.replicas w).0,
        elim (first_failure
            (on_replicas (λ r v. truncate_replica net r (pos size) v) loc.replicas w).1) [
              | none ↦ returns true
              | some text ↦ fails text
            ],
      )
  unfolding truncate_all_replicas
  truncate_all_replicas-located loc located = rw (located, truncate_all_replicas) refl

  pub truncate_all_replicas-Holds :
      (b : Bool) (loc : FileLocation)
      → file_location net mds_addr path w ≡ returns loc
      → AreDistinct (map addr_of loc.replicas)
      → All (Holds w old) loc.replicas
      → (truncate_all_replicas net mds_addr path (pos size) w).1 ≡ returns b
      → All
          (Holds (truncate_all_replicas net mds_addr path (pos size) w).0 (resize old size))
          loc.replicas
  truncate_all_replicas-Holds b loc located distinct holds worked =
      let call = λ (r : Replica) (v : World). truncate_replica net r (pos size) v in
      let called : World × List (Result Bool) = on_replicas call loc.replicas w in
      let done = truncate_all_replicas-located loc located in
      elim (Option-cases (first_failure called.1)) [
        | inr (text, some_failed) ↦ ground (arith, done, some_failed, worked)
        | inl all ↦
            subst (λ v. All (Holds v (resize old size)) loc.replicas)
              (sym (ap (λ (v : World × Result Bool). v.0) done))
              (on_replicas-turn call old (resize old size) (truncate-Turns net old size)
                loc.replicas w distinct holds (failures-none called.1 all))
      ]
