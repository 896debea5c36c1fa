-- ===== src/Metadata/Server/Tests.antt =====
-- The handlers of a server whose Raft node applies every command at once.
use fstorex.Base.{
  ◌≡◌, String, length, refl, true, false, Option, none, some, List, [], ◌∷◌, arith, string_eq,
  nat_eq, map, contains, All,
}
use fstorex.Base.Text.{strip_prefix, trim_prefix, trim_suffix, split}
use fstorex.Types.{pos, Replica, create_if_not_exist, CreateFileArgs}
use fstorex.Metadata.Paths.{split_path}
use fstorex.Metadata.Tree.{find, put, walk_dirs, modify}
use fstorex.Metadata.State.{MetadataServer, new_metadata_server}
use fstorex.Metadata.Apply.{split_last, apply_create_file}
use fstorex.Base.Dict.{lookup}
use fstorex.Metadata.State.{no_payload, op_heartbeat, op_remove_data_node}
use fstorex.Metadata.Machine.{LogEntry, dispatch, apply, replay}
use fstorex.Metadata.Machine.Registry.{AreDistinct, IsRegistry, replay-IsRegistry}
use fstorex.Metadata.Server.{
  Raft, answer, path_hash, start_index, select_from, select_data_nodes, create_file,
}
use fstorex.Metadata.Server.Filling.{select_data_nodes-fills}
use fstorex.Metadata.Server.Creation.{Commits, IsPendingAt, create_file-located}

abbrev server : MetadataServer
server = record (new_metadata_server 1 1) {
  data_nodes = "a:1" ∷ "b:1" ∷ [];
  last_heartbeat = ("a:1", 1) ∷ ("b:1", 2) ∷ [];
}

abbrev create_args : CreateFileArgs
create_args = record { path = "/f"; size = pos 3; create_mode = create_if_not_exist }

abbrev failure {ℓ} : {A : Type ℓ} → Option A → Option String
failure none = none
failure (some e) = some "refused"

-- A Raft node of one server: a command is applied, and its error returned.
abbrev alone : Raft
alone = record {
  is_leader = true;
  leader = "m:1";
  propose = λ p mds.
      let applied = apply (record { op = p.op; payload = some p; now = 7 }) mds in
      (applied.0, failure applied.1);
}

abbrev follower : Raft
follower = record alone { is_leader = false }

alone-Commits : Commits alone 7
alone-Commits p mds applied = (ground (arith, applied), refl)

abbrev chosen : List Replica
chosen =
    record { addr = "b:1"; remote_path = "/data/42" }
    ∷ record { addr = "a:1"; remote_path = "/data/42" }
    ∷ []

placed_runs : select_data_nodes "/f" "42" 3 server ≡ chosen
unfolding select_data_nodes start_index path_hash select_from string_eq nat_eq
placed_runs = refl

created : (create_file alone (some "42") create_args server).1 ≡ answer chosen
unfolding create_file select_data_nodes start_index path_hash select_from string_eq nat_eq apply
    dispatch apply_create_file split_last split_path find put walk_dirs modify split strip_prefix
    trim_prefix trim_suffix
created = refl

create_file-located_example :
    IsPendingAt "/f" chosen (create_file alone (some "42") create_args server).0
create_file-located_example =
    create_file-located alone 7 alone-Commits server (some "42") create_args chosen created

abbrev heartbeats : List LogEntry
heartbeats =
    record { op = op_heartbeat; payload = some (record no_payload { addr = "a:1" }); now = 2 }
    ∷ record { op = op_heartbeat; payload = some (record no_payload { addr = "a:1" }); now = 3 }
    ∷ record {
      op = op_remove_data_node;
      payload = some (record no_payload { addr = "b:1" });
      now = 4;
    }
    ∷ []

start-IsRegistry : IsRegistry (new_metadata_server 1 1)
unfolding lookup
start-IsRegistry = record { distinct = tt; keyed = tt; heard = λ addr. refl }

replay-IsRegistry_example : IsRegistry (replay heartbeats (new_metadata_server 1 1))
replay-IsRegistry_example = replay-IsRegistry heartbeats (new_metadata_server 1 1) start-IsRegistry

server-AreDistinct : AreDistinct ("a:1" ∷ "b:1" ∷ [])
unfolding string_eq
server-AreDistinct = (refl, (refl, tt))

server-IsRegistry : IsRegistry server
unfolding lookup
server-IsRegistry = record {
  distinct = server-AreDistinct;
  keyed = server-AreDistinct;
  heard = λ addr. ground arith;
}

select_data_nodes-fills_example :
    (length (select_data_nodes "/f" "42" 3 server) ≡ 2)
    × AreDistinct (map (λ r. r.addr) (select_data_nodes "/f" "42" 3 server))
    × All
        (λ r. (contains server.data_nodes r.addr ≡ true) × (r.remote_path ≡ "/data/42"))
        (select_data_nodes "/f" "42" 3 server)
select_data_nodes-fills_example =
    select_data_nodes-fills "/f" "42" 3 server server-IsRegistry (omega arith) (omega arith)
