-- ===== src/Client/Handle/Writing.antt =====
-- Writes and truncations of an open file, against one array of bytes.
use fstorex.Base.{
  ℕ, String, ◌≡◌, refl, sym, ap, ◌∙◌, subst, Bool, true, some, [], ◌∷◌, arith, string_eq, nat_eq,
  Option-cases, inl, inr, ==_refl,
}
use mathlib.Core.Option.{some-injective}
use fstorex.Base.Dict.{lookup, insert, lookup-insert}
use fstorex.Types.{pos, Time, Replica}
use fstorex.DataNode.Bytes.{Bytes, write_at, resize}
use fstorex.DataNode.Paths.{resolve_path}
use fstorex.DataNode.Disk.{File, DataNode, Faults, Reply, ok}
use fstorex.DataNode.Service.{partial_write, truncate, opened, written, on_disk}
use fstorex.DataNode.Service.Ranges.{write_args, truncate_args, partial_write-disk, truncate-lookup}
use fstorex.Client.World.{World, Net}
use fstorex.Client.Calls.{partial_write_to, truncate_replica}
use fstorex.Client.Handle.Reading.{stored, Holds}
use fstorex.Client.Handle.Replicas.{Turns, Ran, call_node-Ran, call_node-others, call_node-sites}

content-written :
    (now : Time) (off : ℕ) (bs : Bytes) (file : File)
    → (written now off bs file).content ≡ write_at file.content off bs
content-written now off [] file = refl
content-written now off (b ∷ bs) file = refl

content-opened :
    (now : Time) (real_path : String) (dn : DataNode)
    → (opened now real_path dn.disk).content ≡ stored (lookup real_path dn.disk)
content-opened now real_path dn = ground arith

-- What a node holds under the path of a replica after a call that succeeds.
abbrev HoldsAt : DataNode → String → Bytes → Type 0
HoldsAt dn path content =
    (real_path : String)
    → resolve_path dn.data_dir path ≡ some real_path
    → stored (lookup real_path dn.disk) ≡ content

HoldsAt-insert :
    (path real_path : String) (file : File) (content : Bytes) (dn : DataNode)
    → resolve_path dn.data_dir path ≡ some real_path
    → file.content ≡ content
    → HoldsAt (on_disk dn (insert real_path file dn.disk)) path content
HoldsAt-insert path real_path file content dn here same q found =
    let at_path : real_path ≡ q = some-injective _ _ (sym here ∙ found) in
    ground (arith, same, at_path, lookup-insert q real_path file dn.disk, ==_refl q)

partial_write-resolves :
    (f : Faults) (now : Time) (path : String) (off : ℕ) (bs : Bytes) (dn : DataNode) (b : Bool)
    → (partial_write f now (write_args path off bs) dn).1 ≡ ok b
    → (real_path : String) × (resolve_path dn.data_dir path ≡ some real_path)
      × ((partial_write f now (write_args path off bs) dn).1 ≡ ok true)
unfolding partial_write
partial_write-resolves f now path off bs dn b worked =
    elim (Option-cases (resolve_path dn.data_dir path)) [
      | inl outside ↦ ground (arith, worked, outside)
      | inr (real_path, here) ↦ (real_path, here, ground (arith, worked, here))
    ]

partial_write-HoldsAt :
    (f : Faults) (now : Time) (path : String) (off : ℕ) (bs : Bytes) (dn : DataNode) (b : Bool)
    (old : Bytes)
    → (partial_write f now (write_args path off bs) dn).1 ≡ ok b
    → HoldsAt dn path old
    → HoldsAt (partial_write f now (write_args path off bs) dn).0 path (write_at old off bs)
partial_write-HoldsAt f now path off bs dn b old worked holds =
    let (real_path, here, wrote) = partial_write-resolves f now path off bs dn b worked in
    subst (λ after. HoldsAt after path (write_at old off bs))
      (sym (partial_write-disk f now path real_path off bs dn here wrote))
      (HoldsAt-insert path real_path (written now off bs (opened now real_path dn.disk))
        (write_at old off bs) dn here
        (content-written now off bs (opened now real_path dn.disk)
          ∙ ap (λ c. write_at c off bs) (content-opened now real_path dn ∙ holds real_path here)))

truncate-resolves :
    (f : Faults) (now : Time) (path : String) (size : ℕ) (dn : DataNode) (b : Bool)
    → (truncate f now (truncate_args path size) dn).1 ≡ ok b
    → (real_path : String) × (resolve_path dn.data_dir path ≡ some real_path)
      × ((truncate f now (truncate_args path size) dn).1 ≡ ok true)
unfolding truncate
truncate-resolves f now path size dn b worked =
    elim (Option-cases (resolve_path dn.data_dir path)) [
      | inl outside ↦ ground (arith, worked, outside)
      | inr (real_path, here) ↦ (real_path, here, ground (arith, worked, here))
    ]

truncate-HoldsAt :
    (f : Faults) (now : Time) (path : String) (size : ℕ) (dn : DataNode) (b : Bool) (old : Bytes)
    → (truncate f now (truncate_args path size) dn).1 ≡ ok b
    → HoldsAt dn path old
    → HoldsAt (truncate f now (truncate_args path size) dn).0 path (resize old size)
truncate-HoldsAt f now path size dn b old worked holds q found =
    let (real_path, here, cut) = truncate-resolves f now path size dn b worked in
    let (same_dir, there) = truncate-lookup f now path real_path size dn here cut in
    let at_path : real_path ≡ q =
      some-injective _ _ (sym here ∙ (ap (λ d. resolve_path d path) (sym same_dir) ∙ found)) in
    ap (λ p. stored (lookup p (truncate f now (truncate_args path size) dn).0.disk)) (sym at_path)
    ∙ ap stored there
    ∙ ap (λ c. resize c size) (content-opened now real_path dn ∙ holds real_path here)

-- What a handler does to the file at its path, it does to a replica.
Ran-Holds :
    (w : World) (r : Replica) (handler : Faults → DataNode → DataNode × Reply Bool) (after : World)
    (b : Bool) (old new : Bytes)
    → Ran Bool w r.addr handler after b
    → ((f : Faults) (dn : DataNode)
        → (handler f dn).1 ≡ ok b
        → HoldsAt dn r.remote_path old
        → HoldsAt (handler f dn).0 r.remote_path new)
    → Holds w old r
    → Holds after new r
Ran-Holds w r handler after b old new ran turned holds dn' here' =
    let there : dn' ≡ (handler ran.faults ran.dn).0 = some-injective _ _ (
      sym here'
      ∙ ap (λ v. lookup r.addr v.nodes) ran.left
      ∙ ground (
        arith,
        lookup-insert r.addr r.addr (handler ran.faults ran.dn).0 w.nodes,
        ==_refl r.addr,
      )) in
    subst (λ d. HoldsAt d r.remote_path new) (sym there)
      (turned ran.faults ran.dn ran.replied (holds ran.dn ran.found))

module _ (net : Net) (old : Bytes) where
  pub write-Turns :
      (off : ℕ) (bs : Bytes) → Turns (λ r. partial_write_to net r off bs) old (write_at old off bs)
  unfolding partial_write_to
  write-Turns off bs = record {
    own = λ r w b worked holds.
        Ran-Holds w r (λ f. partial_write f net.now (write_args r.remote_path off bs))
          (partial_write_to net r off bs w).0 b old (write_at old off bs)
          (call_node-Ran net "partial write failed: " 0 r.addr
            (λ f. partial_write f net.now (write_args r.remote_path off bs)) w b worked)
          (λ f dn replied. partial_write-HoldsAt f net.now r.remote_path off bs dn b old replied)
          holds;
    others = λ r addr w differ.
        call_node-others net "partial write failed: " 0 r.addr
          (λ f. partial_write f net.now (write_args r.remote_path off bs)) w addr differ;
    sites = λ r w.
        call_node-sites net "partial write failed: " 0 r.addr
          (λ f. partial_write f net.now (write_args r.remote_path off bs)) w;
  }

  pub truncate-Turns :
      (size : ℕ) → Turns (λ r. truncate_replica net r (pos size)) old (resize old size)
  unfolding truncate_replica
  truncate-Turns size = record {
    own = λ r w b worked holds.
        Ran-Holds w r (λ f. truncate f net.now (truncate_args r.remote_path size))
          (truncate_replica net r (pos size) w).0 b old (resize old size)
          (call_node-Ran net "truncate failed: " 0 r.addr
            (λ f. truncate f net.now (truncate_args r.remote_path size)) w b worked)
          (λ f dn replied. truncate-HoldsAt f net.now r.remote_path size dn b old replied) holds;
    others = λ r addr w differ.
        call_node-others net "truncate failed: " 0 r.addr
          (λ f. truncate f net.now (truncate_args r.remote_path size)) w addr differ;
    sites = λ r w.
        call_node-sites net "truncate failed: " 0 r.addr
          (λ f. truncate f net.now (truncate_args r.remote_path size)) w;
  }
