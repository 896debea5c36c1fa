-- ===== src/Client/Files/Uploads/Tests.antt =====
-- An upload to one data node.
use fstorex.Base.{◌≡◌, refl, true, [], ◌∷◌, List, string_eq, nat_eq}
use fstorex.Base.Text.{strip_prefix, trim_prefix, trim_suffix, split, contains_text, has_prefix}
use fstorex.Base.Dict.{lookup, insert, erase}
use fstorex.Types.{pos, Replica, create_if_not_exist}
use fstorex.Metadata.Paths.{split_path}
use fstorex.Metadata.Tree.{find, put, walk_dirs, modify}
use fstorex.Metadata.State.{status_complete}
use fstorex.Metadata.Apply.{split_last, apply_create_file}
use fstorex.Metadata.Machine.{apply, dispatch}
use fstorex.Metadata.Server.{create_file, select_data_nodes, start_index, path_hash, select_from}
use fstorex.DataNode.Paths.{resolve_path, clean_rooted, clean_parts, clean_step, rooted}
use fstorex.DataNode.Service.{store_data}
use fstorex.Client.World.{World, returns}
use fstorex.Client.Calls.{mds_tries, call_node}
use fstorex.Client.Handle.{on_replicas, failures}
use fstorex.Client.Samples.{alone, server, world, net}
use fstorex.Client.Files.{create_at, store_replica, put_file}
use fstorex.Client.Files.Uploads.{SomeStored, put_file-SomeStored}

abbrev with_node : World
with_node = record (world status_complete) {
  sites =
      (
        "m:1",
        record {
          raft = alone;
          state = record (server status_complete) { data_nodes = "a:1" ∷ [] };
        },
      )
      ∷ [];
}

abbrev on_nine : List Replica
on_nine = record { addr = "a:1"; remote_path = "/data/9" } ∷ []

made :
    (create_at net "m:1"
      (record { path = "/g"; size = pos 2; create_mode = create_if_not_exist })
      with_node).1
    ≡ returns on_nine
unfolding create_at mds_tries create_file select_data_nodes start_index path_hash select_from apply
    dispatch apply_create_file split_last split_path split strip_prefix trim_prefix trim_suffix find
    put walk_dirs modify lookup insert string_eq nat_eq
made = refl

uploaded :
    (put_file net "m:1" (returns (4 ∷ 5 ∷ [])) "/g" create_if_not_exist with_node).1 ≡ returns true
unfolding put_file store_replica on_replicas failures call_node store_data resolve_path clean_rooted
    clean_parts clean_step rooted contains_text has_prefix erase create_at mds_tries create_file
    select_data_nodes start_index path_hash select_from apply dispatch apply_create_file split_last
    split_path split strip_prefix trim_prefix trim_suffix find put walk_dirs modify lookup insert
    string_eq nat_eq
uploaded = refl

put_file-SomeStored_example :
    SomeStored
      (put_file net "m:1" (returns (4 ∷ 5 ∷ [])) "/g" create_if_not_exist with_node).0
      (4 ∷ 5 ∷ [])
      on_nine
put_file-SomeStored_example =
    put_file-SomeStored net (4 ∷ 5 ∷ []) "m:1" "/g" create_if_not_exist with_node on_nine true made
      (refl, tt) uploaded
