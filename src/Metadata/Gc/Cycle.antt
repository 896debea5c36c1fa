-- ===== src/Metadata/Gc/Cycle.antt =====
-- What a whole cycle of the collector leaves on the data nodes.
use fstorex.Base.{
  String, ◌<>◌, ◌≡◌, ◌≤◌, ◌+◌, refl, true, false, some, none, List, [], ◌∷◌, arith, string_eq,
  contains, All, Bool-cases, Option-cases, inl, inr, if◌then◌else◌,
}
use fstorex.Base.Dict
use fstorex.Base.Dict.{Dict, lookup-insert, lookup-erase}
use fstorex.Base.Text.{has_suffix}
use fstorex.DataNode.Paths.{resolve_path}
use fstorex.DataNode.Disk.{DataNode, Faults, File}
use fstorex.DataNode.Service.{listing, listed}
use fstorex.Metadata.Gc.{collect_file_ids, Course, visit, sweep, at_ids, run_gc, gc_safety_window}
use mathlib.Core.Option
use fstorex.Metadata.State.{MetadataServer}
use fstorex.Metadata.Server.{Raft}
use fstorex.Metadata.Machine.Registry.{AreDistinct}
use fstorex.Metadata.Tree.Shape.{IsWellFormed}
use fstorex.Metadata.Gc.Orphans.{FileOf, collected-FileOf}
use fstorex.Metadata.Gc.Removal.{garbage_collect_node-removes}
use fstorex.Metadata.Gc.Safety.{IsAtHome, IsProtected, garbage_collect_node-spares}

-- Each registered node is met once.
sweep-lookup :
    (valid : List String) (course : Course) (a : String) (addrs : List String)
    (nodes : Dict String DataNode)
    → AreDistinct addrs
    → Dict.lookup a (sweep valid course addrs nodes) ≡ (
        if contains addrs a
        then Option.map (visit valid course a) (Dict.lookup a nodes)
        else Dict.lookup a nodes)
unfolding sweep
sweep-lookup valid course a [] nodes d = refl
sweep-lookup valid course a (b ∷ addrs) nodes d = elim (Option-cases (Dict.lookup b nodes)) [
  | inl gone ↦ ground (arith, gone, sweep-lookup valid course a addrs nodes d.1)
  | inr (dn, there) ↦ ground (
    arith,
    there,
    d.0,
    sweep-lookup valid course a addrs (Dict.insert b (visit valid course b dn) nodes) d.1,
    lookup-insert a b (visit valid course b dn) nodes,
  )
]

module _ (raft : Raft) (course : Course) (mds : MetadataServer) (nodes : Dict String DataNode)
    (addr : String) (dn : DataNode) where
  -- The registry that a cycle goes through.
  abbrev pub registered : List String
  registered = (run_gc raft course mds nodes).0.data_nodes

  abbrev pub ids : List String
  ids = collect_file_ids (at_ids raft course mds).root

  visited :
      AreDistinct registered
      → Dict.lookup addr nodes ≡ some dn
      → Dict.lookup addr (run_gc raft course mds nodes).1
        ≡ some (if contains registered addr then visit ids course addr dn else dn)
  unfolding run_gc
  visited distinct there =
      ground (arith, there, sweep-lookup ids course addr registered nodes distinct)

  -- A whole cycle leaves the data of a protected FileID on a data node as the collection finds them,
  -- where the registry names no node twice, the tree is well formed when the FileIDs are collected,
  -- and every file that the node lists lies where its path resolves to.
  pub run_gc-spares :
      (id : String)
      → AreDistinct registered
      → Dict.lookup addr nodes ≡ some dn
      → IsWellFormed (at_ids raft course mds).root
      → IsProtected (at_ids raft course mds).root course.gc_start id dn
      → All (IsAtHome dn.data_dir) (listing dn.data_dir dn.disk)
      → (left : DataNode) × (Dict.lookup addr (run_gc raft course mds nodes).1 ≡ some left)
        × (Dict.lookup (dn.data_dir <> ("/data/" <> id)) left.disk
            ≡ Dict.lookup (dn.data_dir <> ("/data/" <> id)) dn.disk)
  run_gc-spares id distinct there w safe home = (
    if contains registered addr then visit ids course addr dn else dn,
    visited distinct there,
    ground (
      arith,
      garbage_collect_node-spares (at_ids raft course mds).root id course.gc_start
          (course.listed addr) (course.deleted addr) dn w safe home,
    ),
  )

  -- A whole cycle removes the data of an orphan from a data node: where the registry names the node,
  -- and none twice, the tree is well formed and has no file of the FileID when the FileIDs are
  -- collected, the data are older than the safety window and lie where their path resolves to, under
  -- no temporary name, and the calls reach the node and succeed.
  pub run_gc-removes_orphans :
      (id : String) (f g : Faults) (file : File)
      → AreDistinct registered
      → contains registered addr ≡ true
      → Dict.lookup addr nodes ≡ some dn
      → IsWellFormed (at_ids raft course mds).root
      → ¬ FileOf (at_ids raft course mds).root id
      → Dict.lookup (dn.data_dir <> ("/data/" <> id)) dn.disk ≡ some file
      → file.mod_time + gc_safety_window ≤ course.gc_start
      → resolve_path dn.data_dir ("/data/" <> id) ≡ some (dn.data_dir <> ("/data/" <> id))
      → has_suffix (dn.data_dir <> ("/data/" <> id)) ".tmp" ≡ false
      → course.listed addr ≡ some g
      → g.walk ≡ false
      → course.deleted addr ("/data/" <> id) ≡ some f
      → f.remove ≡ false
      → (left : DataNode) × (Dict.lookup addr (run_gc raft course mds nodes).1 ≡ some left)
        × (Dict.lookup (dn.data_dir <> ("/data/" <> id)) left.disk ≡ none)
  run_gc-removes_orphans id f g file distinct known there w orphan stored old home plain listed
        walks called works =
      (
        visit ids course addr dn,
        ground (arith, known, visited distinct there),
        rw listed (
            garbage_collect_node-removes ids course.gc_start (course.deleted addr) id f g dn file
              walks works called stored plain home
              (elim (Bool-cases (contains ids id)) [
                | inl used ↦
                    absurd (orphan (collected-FileOf (at_ids raft course mds).root id w used))
                | inr unused ↦ unused
              ])
              old),
      )
