-- ===== src/Client/Samples.antt =====
-- A client of one metadata server and two data nodes, for the tests.
use mathlib.Core.Option.{some-injective}
use fstorex.Base.{
  ◌≡◌, sym, ap, ◌∙◌, String, true, false, Option, none, some, [], ◌∷◌, ◌<>◌, string_eq, nat_eq,
}
use fstorex.Base.Dict.{lookup}
use fstorex.Types.{pos, Replica}
use fstorex.Metadata.Tree.{Entry, entry, empty, bind}
use fstorex.Metadata.State.{
  MetadataServer, new_metadata_server, status_complete, mode_file, root_attrs,
}
use fstorex.Metadata.Machine.{apply}
use fstorex.Metadata.Server.{Raft}
use fstorex.DataNode.Bytes.{Bytes}
use fstorex.DataNode.Paths.{resolve_path}
use fstorex.DataNode.Disk.{File, DataNode, no_faults}
use fstorex.Client.World.{World, Net, up, served}
use fstorex.Client.Handle.{FileHandle}
use fstorex.Client.Handle.Reading.{stored, Holds}

abbrev pub file : Bytes → File
file content = record { content = content; mod_time = 1 }

abbrev pub node_at : String → Bytes → DataNode
node_at dir content = record { data_dir = dir; disk = (dir <> "/data/1", file content) ∷ [] }

abbrev pub on_a : Replica
on_a = record { addr = "a:1"; remote_path = "/data/1" }

abbrev pub on_b : Replica
on_b = record { addr = "b:1"; remote_path = "/data/1" }

abbrev pub failure {ℓ} : {A : Type ℓ} → Option A → Option String
failure none = none
failure (some e) = some "refused"

abbrev pub alone : Raft
alone = record {
  is_leader = true;
  leader = "m:1";
  propose = λ p mds.
      let applied = apply (record { op = p.op; payload = some p; now = 7 }) mds in
      (applied.0, failure applied.1);
}

abbrev pub file_f : String → Entry
file_f status =
    entry
      (record {
        name = "f";
        is_dir = false;
        size = pos 3;
        mode = mode_file;
        created_at = 1;
        mod_time = 1;
        status = status;
        file_id = "1";
        replicas = on_a ∷ on_b ∷ [];
      })
      empty

abbrev pub server : String → MetadataServer
server status = record (new_metadata_server 1 1) {
  root = entry (root_attrs 1 1) (bind "f" (file_f status) empty);
}

abbrev pub world : String → World
world status = record {
  sites = ("m:1", record { raft = alone; state = server status }) ∷ [];
  nodes = ("a:1", node_at "/a" (7 ∷ 8 ∷ 9 ∷ [])) ∷ ("b:1", node_at "/b" (7 ∷ 8 ∷ 9 ∷ [])) ∷ [];
}

abbrev pub net : Net
net = record {
  mds = λ method addr. up;
  node = λ turn addr. served no_faults;
  dial_text = λ addr. "refused";
  lost_text = "lost";
  data_text = λ e. "data";
  received = λ bytes. elim bytes [ [] ↦ none | b ∷ bs ↦ some (b ∷ bs) ];
  new_id = some "9";
  now = 5;
}

abbrev pub handle : FileHandle
handle = record {
  client = record { mds_addr = "m:1" };
  path = "/f";
  file_id = "1";
  flags = 2;
  replicas = on_a ∷ on_b ∷ [];
  size = pos 3;
  status = status_complete;
}

pub Holds-known :
    (w : World) (content : Bytes) (r : Replica) (dn : DataNode) (real_path : String)
    → lookup r.addr w.nodes ≡ some dn
    → resolve_path dn.data_dir r.remote_path ≡ some real_path
    → stored (lookup real_path dn.disk) ≡ content
    → Holds w content r
Holds-known w content r dn real_path here resolved held dn' here' real_path' resolved' =
    let same : dn ≡ dn' = some-injective _ _ (sym here ∙ here') in
    let same_path : real_path ≡ real_path' =
      some-injective _ _
        (sym resolved ∙ ap (λ d. resolve_path d.data_dir r.remote_path) same ∙ resolved') in
    ap (λ d. stored (lookup real_path' d.disk)) (sym same)
    ∙ ap (λ p. stored (lookup p dn.disk)) (sym same_path)
    ∙ held
