-- ===== src/Metadata/Replicator/Tests.antt =====
-- The repair of a file with one replica, among three nodes, and the listing of its directory.
use mathlib.Core.List.{Perm}
use mathlib.Core.Bool.{false≢true}
use text.Mathlib.TextLemmas.{cons≢nil}
use fstorex.Base.{
  ◌==◌, ◌-◌, ◌<◌, ◌≡◌, ◌≢◌, refl, sym, ap, String, length, Bool, true, false, Option, none, some,
  List, [], ◌∷◌, map, All, arith, string_eq, nat_eq, contains, filter, min,
}
use fstorex.Base.Text.{strip_prefix, trim_prefix, trim_suffix, split}
use fstorex.Types.{ℤ, pos, Replica, FileInfo}
use fstorex.Metadata.Paths.{split_path, join_path}
use fstorex.Metadata.Paths.Split.{IsName}
use fstorex.Metadata.Tree.{
  Entry, entry, empty, bind, attrs, find, lookup_parts, walk_dirs, modify, put,
}
use fstorex.Metadata.State.{
  CommandPayload, no_payload, MetadataServer, Error, new_metadata_server, status_complete,
  status_pending, status_recovering, mode_file, root_attrs,
}
use fstorex.Metadata.Apply.{split_last, lookup, apply_update_status}
use fstorex.Metadata.Apply.Trees.{IsTree}
use fstorex.Metadata.Rename.{rename_parts, apply_rename}
use fstorex.Metadata.Machine.{apply, dispatch}
use fstorex.Metadata.Machine.Registry.{AreDistinct}
use fstorex.Metadata.Server.Leader.{Applies}
use fstorex.Metadata.Server.{Raft, answer}
use fstorex.Metadata.Listing.{list_dir}
use fstorex.Metadata.Listing.Sorted.{info_for, IsListing, list_dir-sorts}
use fstorex.Metadata.Replicator.{
  RepairTask, status_command, queued, alive_replicas, task_of, scan, entries, entries_below,
  find_under_replicated_tasks, candidates, addrs_of, select_target_nodes, repair_file,
}
use fstorex.Metadata.Replicator.Tasks.{IsTask, find_under_replicated_tasks-IsTask}
use fstorex.Metadata.Replicator.Coverage.{ids_of, find_under_replicated_tasks-misses_none}
use fstorex.Metadata.Replicator.Targets.{free_nodes, select_target_nodes-fits}
use fstorex.Metadata.Replicator.Repair.{
  AreTargets, replicas_after, IsRepaired, repair_file-IsRepaired,
}
use fstorex.Metadata.Replicator.Astray.{Refuses, repair_file-leaves_moved}

abbrev on_a : Replica
on_a = record { addr = "a:1"; remote_path = "/data/1" }

abbrev file_f : Entry
file_f =
    entry
      (record {
        name = "f";
        is_dir = false;
        size = pos 3;
        mode = mode_file;
        created_at = 1;
        mod_time = 1;
        status = status_complete;
        file_id = "1";
        replicas = on_a ∷ [];
      })
      empty

abbrev nodes : List String
nodes = "a:1" ∷ "b:1" ∷ "c:1" ∷ []

abbrev server : MetadataServer
server = record (new_metadata_server 1 1) {
  root = entry (root_attrs 1 1) (bind "f" file_f empty);
  data_nodes = nodes;
}

abbrev task : RepairTask
task = record { path = "/f"; file_id = "1"; size = pos 3; replicas = on_a ∷ [] }

abbrev failure : Option Error → Option String
failure none = none
failure (some e) = some "refused"

abbrev alone : Raft
alone = record {
  is_leader = true;
  leader = "m:1";
  propose = λ p mds.
      let applied = apply (record { op = p.op; payload = some p; now = 7 }) mds in
      (applied.0, failure applied.1);
}

alone-Applies : Applies alone 7
alone-Applies p mds = (refl, λ fine. ap failure fine)

alone-Refuses : Refuses alone 7
alone-Refuses p mds problem failed = ("refused", ap failure failed)

IsName-f : IsName "f"
IsName-f = record { not_empty = λ e. cons≢nil e; no_slash = (omega arith, tt) }

server-IsTree : IsTree server.root
unfolding find
server-IsTree = record {
  root_is_dir = refl;
  shape = (
    (λ leaf. cc),
    (record { key_is_name = refl; valid = IsName-f }, ((λ leaf. refl), tt), refl, tt),
  );
}

in_tree : lookup server "/f" ≡ some file_f
unfolding lookup split_path trim_prefix trim_suffix strip_prefix split lookup_parts find string_eq
    nat_eq
in_tree = refl

find_under_replicated_tasks-IsTask_example :
    All (IsTask server) (find_under_replicated_tasks 16 server)
find_under_replicated_tasks-IsTask_example =
    find_under_replicated_tasks-IsTask 16 server server-IsTree

few : length (find_under_replicated_tasks 16 server) < 16
unfolding find_under_replicated_tasks scan queued task_of alive_replicas entries entries_below
    join_path string_eq nat_eq
few = omega arith

due : length (filter (λ r. contains server.data_nodes r.addr) (attrs file_f).replicas) < 3
unfolding string_eq
due = omega arith

not_pending : status_complete ≢ status_pending
unfolding string_eq nat_eq
not_pending same = false≢true (ap (λ s. s == "pending") same)

not_recovering : status_complete ≢ status_recovering
unfolding string_eq nat_eq
not_recovering same = false≢true (ap (λ s. s == "recovering") same)

find_under_replicated_tasks-misses_none_example :
    contains (ids_of (find_under_replicated_tasks 16 server)) "1" ≡ true
find_under_replicated_tasks-misses_none_example =
    find_under_replicated_tasks-misses_none 16 server "/f" file_f server-IsTree few in_tree refl
      not_pending not_recovering refl due

distinct : AreDistinct nodes
unfolding string_eq
distinct = (refl, (refl, (refl, tt)))

select_target_nodes-fits_example :
    ((addr : String)
      → contains (select_target_nodes (on_a ∷ []) nodes 2) addr ≡ true
      → (contains nodes addr ≡ true) × (contains (addrs_of (on_a ∷ [])) addr ≡ false))
    × AreDistinct (select_target_nodes (on_a ∷ []) nodes 2)
    × (length (select_target_nodes (on_a ∷ []) nodes 2)
        ≡ min 2 (free_nodes (addrs_of (on_a ∷ [])) nodes))
select_target_nodes-fits_example = select_target_nodes-fits (on_a ∷ []) nodes 2 distinct

chosen : select_target_nodes (on_a ∷ []) nodes (3 - 1) ≡ "b:1" ∷ "c:1" ∷ []
unfolding select_target_nodes candidates string_eq nat_eq
chosen = refl

-- One of the two targets makes its copy.
abbrev trigger : Replica → Replica → ℤ → Bool
trigger source target size = target.addr == "c:1"

repair_file-IsRepaired_example :
    (targets : List String) × AreTargets task nodes (3 - 1) targets
    × IsRepaired
        (repair_file alone (λ m. m) trigger nodes task server).0
        "/f"
        file_f
        (replicas_after trigger task (on_a ∷ []) targets (on_a ∷ []))
repair_file-IsRepaired_example =
    repair_file-IsRepaired alone 7 alone-Applies (λ m. m) trigger nodes task server file_f
      (λ m. refl) in_tree refl distinct

-- The log moves /f to /g.
abbrev to_g : CommandPayload
to_g = record no_payload { path = "/f"; dst_path = "/g" }

abbrev marked : MetadataServer
marked = (alone.propose (status_command "/f" status_recovering) server).0

renames : (apply_rename to_g 9 marked).1 ≡ none
unfolding apply dispatch apply_update_status apply_rename rename_parts split_last lookup split_path
    trim_prefix trim_suffix strip_prefix split lookup_parts walk_dirs modify put find string_eq
    nat_eq
renames = refl

paths_differ : split_path "/f" ≢ split_path "/g"
unfolding split_path string_eq nat_eq
paths_differ same = false≢true (sym (ap (λ ps. contains ps "f") same))

repair_file-leaves_moved_example :
    let (after, problem) =
      repair_file alone (λ m. (apply_rename to_g 9 m).0) trigger nodes task server in
    ((text : String) × (problem ≡ some text))
    × ((dir : List String) × (name : String) × (split_last (split_path "/g") ≡ some (dir, name))
        × (lookup after "/g"
            ≡ some (
                entry
                  (record (attrs file_f) { name = name; status = status_recovering; mod_time = 9 })
                  empty)))
    × All (λ t. t.path ≢ "/g") (find_under_replicated_tasks 16 after)
repair_file-leaves_moved_example =
    repair_file-leaves_moved alone 7 alone-Applies alone-Refuses trigger nodes task server file_f
      on_a [] "b:1" ("c:1" ∷ []) in_tree refl refl chosen to_g 9 server-IsTree refl paths_differ
      renames 16

root_there : lookup server "/" ≡ some server.root
unfolding lookup split_path trim_prefix trim_suffix strip_prefix split lookup_parts string_eq nat_eq
root_there = refl

list_dir-sorts_example :
    (infos : List FileInfo) × (list_dir "/" server ≡ answer infos)
    × Perm infos (map (info_for "/") (("f", file_f) ∷ []))
    × IsListing infos
list_dir-sorts_example = list_dir-sorts "/" server server.root server-IsTree root_there refl
