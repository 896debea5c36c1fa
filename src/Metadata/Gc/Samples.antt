-- ===== src/Metadata/Gc/Samples.antt =====
-- A small tree and a data node with an orphan, for the tests.
use fstorex.Base.{
  ◌≡◌, refl, String, ◌<>◌, some, [], ◌∷◌, arith, string_eq, nat_eq, subst, List, false,
}
use fstorex.Base.Text.{strip_prefix, has_prefix, has_suffix, contains_text, split, trim_prefix}
use fstorex.Base.Dict
use fstorex.Base.Dict.{Dict}
use fstorex.Types.{pos}
use fstorex.Metadata.Paths.{split_path}
use fstorex.Metadata.Tree.{
  Entry, attrs, is_dir, entry, empty, bind, find, put, walk_dirs, modify, lookup_parts,
}
use fstorex.Metadata.State.{
  CommandPayload, no_payload, MetadataServer, new_metadata_server, root_attrs, op_mkdir,
  op_create_file,
}
use fstorex.Metadata.Apply.{new_file, split_last, apply_create_file}
use fstorex.Metadata.Apply.Trees.{IsTree}
use fstorex.Metadata.Machine.{LogEntry, dispatch, apply, replay}
use fstorex.Metadata.Machine.Shape.{replay-IsTree}
use fstorex.DataNode.Paths.{clean_step, clean_parts, rooted, clean_rooted, resolve_path}
use fstorex.DataNode.Disk.{File, DataNode}

abbrev pub start : MetadataServer
start = new_metadata_server 1 1

abbrev pub create_f : CommandPayload
create_f = record no_payload { path = "/f"; size = pos 5; file_id = "2" }

abbrev pub created : LogEntry
created = record { op = op_create_file; payload = some create_f; now = 3 }

abbrev pub mkdir_a : LogEntry
mkdir_a = record { op = op_mkdir; payload = some (record no_payload { path = "/a" }); now = 4 }

abbrev pub file_f : Entry
file_f = new_file "f" create_f 3 "2" 3

abbrev pub with_f : MetadataServer
with_f = record start { root = entry (root_attrs 1 3) (bind "f" file_f empty) }

pub start-IsTree : IsTree start.root
start-IsTree = record { root_is_dir = refl; shape = (λ leaf. ground arith, tt) }

pub replay_runs : replay (created ∷ []) start ≡ with_f
unfolding replay apply dispatch apply_create_file split_last split_path find put walk_dirs modify
    string_eq nat_eq
replay_runs = refl

pub with_f-IsTree : IsTree with_f.root
with_f-IsTree =
    subst (λ (s : MetadataServer). IsTree s.root) replay_runs
      (replay-IsTree (created ∷ []) start start-IsTree)

abbrev pub stored : File
stored = record { content = 1 ∷ []; mod_time = 1 }

abbrev pub node : DataNode
node = record { data_dir = "/d"; disk = ("/d/data/2", stored) ∷ ("/d/data/9", stored) ∷ [] }

pub stored_there : Dict.lookup ("/d" <> ("/data/" <> "9")) node.disk ≡ some stored
unfolding Dict.lookup string_eq
stored_there = refl

pub home_of_nine : resolve_path "/d" ("/data/" <> "9") ≡ some ("/d" <> ("/data/" <> "9"))
unfolding resolve_path clean_rooted rooted clean_parts clean_step string_eq nat_eq split
    contains_text has_prefix has_suffix strip_prefix trim_prefix
home_of_nine = refl

pub plain_nine : has_suffix ("/d" <> ("/data/" <> "9")) ".tmp" ≡ false
unfolding has_suffix string_eq
plain_nine = refl

-- `/f` is in the tree, and `a:1` is registered.
abbrev pub with_node : MetadataServer
with_node = record with_f { data_nodes = "a:1" ∷ []; last_heartbeat = ("a:1", 3) ∷ [] }

pub only_file :
    (ps : List String) (e : Entry)
    → lookup_parts ps with_f.root ≡ some e
    → is_dir e ≡ false
    → (attrs e).file_id ≡ "2"
unfolding lookup_parts find
only_file [] e here file = ground (arith, here, file)
only_file (p ∷ []) e here file = ground (arith, here, file)
only_file (p ∷ q ∷ ps) e here file = ground (arith, here, file)
