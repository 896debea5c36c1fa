-- ===== src/Client/Handle/Replicas.antt =====
-- What the calls for every replica of a file leave on the data nodes.
use fstorex.Base.{
  ℕ, String, ◌≡◌, ◌≢◌, refl, sym, ◌∙◌, Bool, false, some, List, [], ◌∷◌, map, arith, string_eq, All,
  contains, Option-cases, inl, inr,
}
use fstorex.Base.Dict.{lookup, lookup-insert}
use fstorex.Types.{Replica}
use fstorex.Metadata.Machine.Registry.{AreDistinct}
use fstorex.DataNode.Bytes.{Bytes}
use fstorex.DataNode.Disk.{DataNode, Faults, Reply, ok, err, panicked}
use fstorex.Client.World.{
  World, Net, NodeContact, no_dial, lost_reply, served, Result, returns, Result-cases,
}
use fstorex.Client.Calls.{at_node, call_node}
use fstorex.Client.Handle.{on_replicas, failures}
use fstorex.Client.Handle.Reading.{Holds}

-- The address of a replica.
abbrev pub addr_of : Replica → String
addr_of r = r.addr

Holds-congr :
    (w w' : World) (content : Bytes) (r : Replica)
    → lookup r.addr w'.nodes ≡ lookup r.addr w.nodes
    → Holds w content r
    → Holds w' content r
Holds-congr w w' content r same holds dn here = holds dn (sym same ∙ here)

-- A call for a replica that turns what it holds, and leaves the other nodes alone.
pub record Turns (call : Replica → World → World × Result Bool) (old new : Bytes) : Type 0 where
  pub own :
      (r : Replica) (w : World) (b : Bool)
      → (call r w).1 ≡ returns b
      → Holds w old r
      → Holds (call r w).0 new r
  pub others :
      (r : Replica) (addr : String) (w : World)
      → r.addr ≢ addr
      → lookup addr (call r w).0.nodes ≡ lookup addr w.nodes
  pub sites : (r : Replica) (w : World) → (call r w).0.sites ≡ w.sites

module _ (call : Replica → World → World × Result Bool) (old new : Bytes)
    (turns : Turns call old new) where
  pub on_replicas-others :
      (rs : List Replica) (addr : String) (w : World)
      → contains (map addr_of rs) addr ≡ false
      → lookup addr (on_replicas call rs w).0.nodes ≡ lookup addr w.nodes
  unfolding on_replicas
  on_replicas-others [] addr w fresh = refl
  on_replicas-others (r ∷ rs) addr w fresh =
      on_replicas-others rs addr (call r w).0 (ground (arith, fresh))
      ∙ turns.others r addr w (ground (arith, fresh))

  pub on_replicas-sites :
      (rs : List Replica) (w : World) → (on_replicas call rs w).0.sites ≡ w.sites
  unfolding on_replicas
  on_replicas-sites [] w = refl
  on_replicas-sites (r ∷ rs) w = on_replicas-sites rs (call r w).0 ∙ turns.sites r w

  Holds-others :
      (rs : List Replica) (r : Replica) (w : World)
      → contains (map addr_of rs) r.addr ≡ false
      → All (Holds w old) rs
      → All (Holds (call r w).0 old) rs
  Holds-others [] r w fresh holds = tt
  Holds-others (s ∷ rs) r w fresh holds = (
    Holds-congr w (call r w).0 old s
        (turns.others r s.addr w (λ same. ground (arith, fresh, sym same))) holds.0,
    Holds-others rs r w (ground (arith, fresh)) holds.1,
  )

  -- Where all calls succeed, every replica is turned.
  pub on_replicas-turn :
      (rs : List Replica) (w : World)
      → AreDistinct (map addr_of rs)
      → All (Holds w old) rs
      → failures (on_replicas call rs w).1 ≡ 0
      → All (Holds (on_replicas call rs w).0 new) rs
  unfolding on_replicas failures
  on_replicas-turn [] w distinct holds all = tt
  on_replicas-turn (r ∷ rs) w distinct holds all = elim (Result-cases (call r w).1) [
    | inr (text, failed) ↦ absurd (ground (arith, all, failed))
    | inl (b, worked) ↦ (
      Holds-congr (call r w).0 (on_replicas call rs (call r w).0).0 new r
          (on_replicas-others rs r.addr (call r w).0 distinct.0) (turns.own r w b worked holds.0),
      on_replicas-turn rs (call r w).0 distinct.1 (Holds-others rs r w distinct.0 holds.1)
          (rw (worked, failures) at all),
    )
  ]

-- A call of a data node that succeeds has run its handler there.
pub record Ran {ℓ} (A : Type ℓ) (w : World) (addr : String)
    (handler : Faults → DataNode → DataNode × Reply A) (after : World) (a : A) : Type ℓ where
  pub dn : DataNode
  pub faults : Faults
  pub found : lookup addr w.nodes ≡ some dn
  pub replied : (handler faults dn).1 ≡ ok a
  pub left : after ≡ at_node addr (handler faults dn).0 w

module _ {ℓ} {A : Type ℓ} (net : Net) (what : String) (turn : ℕ) (addr : String)
    (handler : Faults → DataNode → DataNode × Reply A) (w : World) where
  by_reply :
      (dn : DataNode) (f : Faults) (reply : Reply A) (a : A)
      → lookup addr w.nodes ≡ some dn
      → net.node turn addr ≡ served f
      → (handler f dn).1 ≡ reply
      → (call_node net what turn addr handler w).1 ≡ returns a
      → Ran A w addr handler (call_node net what turn addr handler w).0 a
  unfolding call_node
  by_reply dn f (ok b) a here called replied worked = record {
    dn = dn;
    faults = f;
    found = here;
    replied = ground (arith, here, called, replied, worked);
    left = ground (arith, here, called);
  }
  by_reply dn f (err e) a here called replied worked = ground (arith, here, called, replied, worked)
  by_reply dn f panicked a here called replied worked =
      ground (arith, here, called, replied, worked)

  by_contact :
      (dn : DataNode) (c : NodeContact) (a : A)
      → lookup addr w.nodes ≡ some dn
      → net.node turn addr ≡ c
      → (call_node net what turn addr handler w).1 ≡ returns a
      → Ran A w addr handler (call_node net what turn addr handler w).0 a
  unfolding call_node
  by_contact dn no_dial a here called worked = ground (arith, here, called, worked)
  by_contact dn (lost_reply f) a here called worked = ground (arith, here, called, worked)
  by_contact dn (served f) a here called worked =
      by_reply dn f (handler f dn).1 a here called refl worked

  pub call_node-Ran :
      (a : A)
      → (call_node net what turn addr handler w).1 ≡ returns a
      → Ran A w addr handler (call_node net what turn addr handler w).0 a
  unfolding call_node
  call_node-Ran a worked = elim (Option-cases (lookup addr w.nodes)) [
    | inl gone ↦ ground (arith, gone, worked)
    | inr (dn, here) ↦ by_contact dn (net.node turn addr) a here refl worked
  ]

  others_by_contact :
      (q : String) (dn : DataNode) (c : NodeContact)
      → addr ≢ q
      → lookup addr w.nodes ≡ some dn
      → net.node turn addr ≡ c
      → lookup q (call_node net what turn addr handler w).0.nodes ≡ lookup q w.nodes
  unfolding call_node
  others_by_contact q dn no_dial differ here called = ground (arith, here, called)
  others_by_contact q dn (lost_reply f) differ here called =
      ground (arith, differ, here, called, lookup-insert q addr (handler f dn).0 w.nodes)
  others_by_contact q dn (served f) differ here called =
      ground (arith, differ, here, called, lookup-insert q addr (handler f dn).0 w.nodes)

  pub call_node-others :
      (q : String)
      → addr ≢ q
      → lookup q (call_node net what turn addr handler w).0.nodes ≡ lookup q w.nodes
  unfolding call_node
  call_node-others q differ = elim (Option-cases (lookup addr w.nodes)) [
    | inl gone ↦ ground (arith, gone)
    | inr (dn, here) ↦ others_by_contact q dn (net.node turn addr) differ here refl
  ]

  sites_by_contact :
      (dn : DataNode) (c : NodeContact)
      → lookup addr w.nodes ≡ some dn
      → net.node turn addr ≡ c
      → (call_node net what turn addr handler w).0.sites ≡ w.sites
  unfolding call_node
  sites_by_contact dn no_dial here called = ground (arith, here, called)
  sites_by_contact dn (lost_reply f) here called = ground (arith, here, called)
  sites_by_contact dn (served f) here called = ground (arith, here, called)

  pub call_node-sites : (call_node net what turn addr handler w).0.sites ≡ w.sites
  unfolding call_node
  call_node-sites = elim (Option-cases (lookup addr w.nodes)) [
    | inl gone ↦ ground (arith, gone)
    | inr (dn, here) ↦ sites_by_contact dn (net.node turn addr) here refl
  ]
