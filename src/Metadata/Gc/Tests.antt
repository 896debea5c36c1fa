-- ===== src/Metadata/Gc/Tests.antt =====
-- A collection on a small node, and a restored snapshot.
use fstorex.Base.{
  ◌≡◌, refl, String, ◌<>◌, some, [], ◌∷◌, All, arith, string_eq, nat_eq, ◌≢◌, ap, ◌∙◌, sym, ◌==◌,
  subst, none, true, inl, contains,
}
use mathlib.Core.Bool.{false≢true}
use mathlib.Core.Option
use fstorex.Base.Text.{strip_prefix, has_prefix, has_suffix, contains_text, split, trim_prefix}
use fstorex.Base.Dict
use fstorex.Base.Dict.{Dict}
use fstorex.Metadata.Paths.{split_path}
use fstorex.Metadata.Tree.{find, put, walk_dirs, modify, lookup_parts}
use fstorex.Metadata.State.{MetadataServer, new_metadata_server}
use fstorex.Metadata.Apply.{split_last, apply_create_file}
use fstorex.Metadata.Machine.{dispatch, apply, replay}
use fstorex.Metadata.Snapshot.{snapshot, decoded, restore}
use fstorex.Metadata.Snapshot.Roundtrip.{IsSetUpAs, restore-snapshot}
use fstorex.Metadata.Gc.{
  Course, at_ids, run_gc, check_data_node_health, remove_nodes, dead_nodes, collect_file_ids, keeps,
  gc_files, garbage_collect_node,
}
use fstorex.Metadata.Gc.Safety.{IsAtHome, IsProtected}
use fstorex.Metadata.Gc.Orphans.{FileOf}
use fstorex.Metadata.Gc.Cycle.{registered, run_gc-spares, run_gc-removes_orphans}
use fstorex.Metadata.Machine.Registry.{AreDistinct}
use fstorex.Metadata.Tree.Shape.{IsWellFormed}
use fstorex.Metadata.Server.{Raft}
use fstorex.DataNode.Paths.{clean_step, clean_parts, rooted, clean_rooted, resolve_path}
use fstorex.DataNode.Disk.{DataNode, no_faults}
use fstorex.DataNode.Service.{listing, listed, list_all_paths, delete_data}
use fstorex.Metadata.Gc.Samples.{
  created, file_f, home_of_nine, mkdir_a, node, only_file, plain_nine, start, start-IsTree, stored,
  stored_there, with_f, with_f-IsTree, with_node,
}

set_up : IsSetUpAs (new_metadata_server 8 8) (replay (created ∷ []) start)
unfolding replay apply dispatch apply_create_file split_last split_path find put walk_dirs modify
    string_eq nat_eq
set_up = (refl, refl, refl)

restore-snapshot_example :
    Option.map
      (replay (mkdir_a ∷ []))
      (restore (decoded (snapshot (replay (created ∷ []) start))) (new_metadata_server 8 8))
    ≡ some (replay (created ∷ mkdir_a ∷ []) start)
restore-snapshot_example =
    restore-snapshot (created ∷ []) (mkdir_a ∷ []) start (new_metadata_server 8 8) start-IsTree
      set_up

at_home : All (IsAtHome "/d") (listing "/d" node.disk)
unfolding listing listed resolve_path clean_rooted rooted clean_parts clean_step string_eq nat_eq
    split contains_text has_prefix has_suffix strip_prefix trim_prefix
at_home = (refl, (refl, tt))

is_named : ◌≢◌ {A = String} "2" ""
unfolding string_eq
is_named p = false≢true (ap (λ s. s == "") p)

-- A Raft node that drops every command, so that no node is ever registered but by hand.
abbrev idle : Raft
idle = record { is_leader = true; leader = "m:1"; propose = λ p mds. (mds, none) }

abbrev course : Course
course = record {
  gc_start = 90_000_000_000;
  checked_at = 90_000_000_000;
  before_ids = λ mds. mds;
  before_nodes = λ mds. mds;
  listed = λ addr. some no_faults;
  deleted = λ addr path. some no_faults;
}

abbrev nodes : Dict String DataNode
nodes = ("a:1", node) ∷ []

found_runs : at_ids idle course with_node ≡ with_node
unfolding at_ids check_data_node_health remove_nodes dead_nodes
found_runs = refl

registered_runs : registered idle course with_node nodes "a:1" node ≡ "a:1" ∷ []
unfolding run_gc at_ids check_data_node_health remove_nodes dead_nodes
registered_runs = refl

found-IsWellFormed : IsWellFormed (at_ids idle course with_node).root
found-IsWellFormed =
    subst (λ (s : MetadataServer). IsWellFormed s.root) (sym found_runs) with_f-IsTree.shape

registered_once : AreDistinct (registered idle course with_node nodes "a:1" node)
registered_once = subst AreDistinct (sym registered_runs) (refl, tt)

is_registered : contains (registered idle course with_node nodes "a:1" node) "a:1" ≡ true
unfolding string_eq
is_registered = ap (λ l. contains l "a:1") registered_runs ∙ refl

node_there : Dict.lookup "a:1" nodes ≡ some node
unfolding Dict.lookup string_eq
node_there = refl

file_found : FileOf with_f.root "2"
unfolding lookup_parts find string_eq
file_found = ("f" ∷ [], file_f, refl, refl, refl)

protected : IsProtected (at_ids idle course with_node).root course.gc_start "2" node
protected =
    inl (subst (λ (s : MetadataServer). FileOf s.root "2") (sym found_runs) file_found, is_named)

run_gc-spares_example :
    (left : DataNode) × (Dict.lookup "a:1" (run_gc idle course with_node nodes).1 ≡ some left)
    × (Dict.lookup ("/d" <> ("/data/" <> "2")) left.disk
        ≡ Dict.lookup ("/d" <> ("/data/" <> "2")) node.disk)
run_gc-spares_example =
    run_gc-spares idle course with_node nodes "a:1" node "2" registered_once node_there
      found-IsWellFormed protected at_home

no_nine : ¬ FileOf (at_ids idle course with_node).root "9"
unfolding string_eq
no_nine (ps, e, here, file, same) = false≢true (
    ap (λ s. s == "9")
      (sym (
          only_file ps e
            (subst (λ (s : MetadataServer). lookup_parts ps s.root ≡ some e) found_runs here) file)
        ∙ same))

run_gc-removes_orphans_example :
    (left : DataNode) × (Dict.lookup "a:1" (run_gc idle course with_node nodes).1 ≡ some left)
    × (Dict.lookup ("/d" <> ("/data/" <> "9")) left.disk ≡ none)
run_gc-removes_orphans_example =
    run_gc-removes_orphans idle course with_node nodes "a:1" node "9" no_faults no_faults stored
      registered_once is_registered node_there found-IsWellFormed no_nine stored_there (omega arith)
      home_of_nine plain_nine refl refl refl refl

-- The other file goes.
collects_orphan :
    (garbage_collect_node
      (collect_file_ids with_f.root)
      90_000_000_000
      (some no_faults)
      (λ path. some no_faults)
      node).disk
    ≡ ("/d/data/2", stored) ∷ []
unfolding garbage_collect_node gc_files keeps collect_file_ids list_all_paths delete_data listing
    listed resolve_path clean_rooted rooted clean_parts clean_step string_eq nat_eq split
    contains_text has_prefix has_suffix strip_prefix trim_prefix Dict.lookup Dict.erase
collects_orphan = refl
