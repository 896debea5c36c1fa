-- ===== src/Cmd/Tests.antt =====
-- Command lines, peers and starts, run.
use fstorex.Base.{
  ℕ, String, ◌≡◌, ◌≢◌, ◌<>◌, refl, ap, subst, true, false, none, some, List, [], ◌∷◌, map, arith,
  ◌==◌, string_eq, nat_eq,
}
use fstorex.Base.Text.{split, strip_prefix, trim_prefix, trim_suffix}
use fstorex.Base.Dict
use mathlib.Core.Bool.{false≢true}
use mathlib.Core.Option.{some-injective}
use fstorex.Metadata.Tree.{find, put, walk_dirs, modify}
use fstorex.Metadata.Paths.{split_path}
use fstorex.Metadata.State.{new_metadata_server}
use fstorex.Metadata.Apply.{apply_mkdir, split_last}
use fstorex.Metadata.Machine.{apply, dispatch}
use fstorex.Metadata.Server.{Raft, mkdir}
use fstorex.Metadata.Server.Creation.{Commits}
use fstorex.DataNode.Heartbeat.{trim_space, trim_left, trim_right}
use fstorex.Client.World.{Site, World, Net, up, no_dial, fails}
use fstorex.Client.Calls.{mds_tries}
use fstorex.Client.Files.{mkdir_path}
use fstorex.Cmd.Lines.{Line, printed, logged_info, Ended, done}
use fstorex.Cmd.Shell.{Shell, lines, usage_text, reported}
use fstorex.Cmd.Cli.{run_mkdir, run_command, main}
use fstorex.Cmd.Cli.Mkdir.{SomeDirAt, AllCommit, main-mkdir_lasts}
use fstorex.Cmd.Peers.{peers_of, parse_peers}
use fstorex.Cmd.Servers.{Host, MdsFlags, serves, start_metadata, start_mds}

abbrev shell : Shell
shell = record {
  read_file = λ path. fails "no such file";
  write_file = λ path bytes. none;
  parse_put = λ args. some (false, args);
  parse_code = 2;
  table = λ rows. [];
  rfc3339 = λ t. "";
  is_mount_point = λ path. false;
  fs_mount = λ point root options. none;
  unmount = λ point. none;
}

-- Commands are applied at 7.
abbrev committing : Raft
committing = record {
  is_leader = true;
  leader = "m:1";
  propose = λ p mds.
      let applied = apply (record { op = p.op; payload = some p; now = 7 }) mds in
      (applied.0, elim applied.1 [ none ↦ none | some e ↦ some "refused" ]);
}

committing-Commits : Commits committing 7
committing-Commits p mds made = (ground (arith, made), refl)

abbrev net : Net
net = record {
  mds = λ method addr. up;
  node = λ turn addr. no_dial;
  dial_text = λ addr. "refused";
  lost_text = "EOF";
  data_text = λ e. "failed";
  received = λ bytes. some bytes;
  new_id = some "1";
  now = 7;
}

abbrev world : World
world = record {
  sites = ("m:1", record { raft = committing; state = new_metadata_server 1 1 }) ∷ [];
  nodes = [];
}

mkdir_runs :
    (main shell net "m:1" ("mkdir" ∷ "/a" ∷ []) world).1
    ≡ record { out = printed "✓ Directory created: /a" ∷ []; code = 0 }
unfolding main run_command run_mkdir mkdir_path mds_tries mkdir reported done lines Dict.lookup
    string_eq apply dispatch apply_mkdir split_last split_path split strip_prefix trim_prefix
    trim_suffix walk_dirs find put modify nat_eq
mkdir_runs = refl

abbrev only : Site
only = record { raft = committing; state = new_metadata_server 1 1 }

world-AllCommit : AllCommit 7 world
unfolding Dict.lookup
world-AllCommit addr site found =
    let same : only ≡ site = some-injective only site (ground (arith, found)) in
    subst (λ (s : Site). Commits s.raft 7) same committing-Commits

main-mkdir_lasts_example : SomeDirAt "/a" (main shell net "m:1" ("mkdir" ∷ "/a" ∷ []) world).0
main-mkdir_lasts_example =
    main-mkdir_lasts shell net "m:1" "/a" [] world 7 world-AllCommit
      (ap (λ (e : Ended). e.code) mkdir_runs)

unknown_command : (main shell net "m:1" ("cat" ∷ []) world).1 ≡ record {
  out = printed "Unknown command: cat" ∷ printed "" ∷ map printed usage_text;
  code = 1;
}
unfolding main run_command lines string_eq
unknown_command = refl

not_plain : ◌≢◌ {A = ℕ} 2 1
not_plain p = absurd (omega (arith, p))

abbrev host : Host
host = record {
  init_raft = λ config. none;
  register = λ name. none;
  listen = λ addr. none;
  make_dir = λ path. none;
}

abbrev flags : MdsFlags
flags = record {
  id = "m:1";
  peers = " m:2,,m:1, m:3 ";
  wal_dir = "/w";
  snap_dir = "/s";
  max_index_span = 1000;
}

peers_run : parse_peers "m:1" " m:2,,m:1, m:3 " ≡ "m:2" ∷ "m:3" ∷ []
unfolding parse_peers peers_of split trim_space trim_left trim_right string_eq nat_eq
peers_run = refl

starts :
    (out : List Line) × (start_mds host flags 1 1
      ≡ serves (new_metadata_server 1 1) ("Server" ∷ "MetadataService" ∷ []) "m:1" out)
unfolding start_mds start_metadata
starts = (
  logged_info "metadata server (raft node) starting"
      ∷ printed ("Metadata Server (Raft) listening on " <> "m:1")
      ∷ [],
  refl,
)

is_ls :
    (◌≢◌ {A = String} "ls" "mkdir")
    × (◌≢◌ {A = String} "ls" "put")
    × (◌≢◌ {A = String} "ls" "rm")
    × (◌≢◌ {A = String} "ls" "gc")
unfolding string_eq
is_ls = (
  λ p. false≢true (ap (λ s. s == "mkdir") p),
  λ p. false≢true (ap (λ s. s == "put") p),
  λ p. false≢true (ap (λ s. s == "rm") p),
  λ p. false≢true (ap (λ s. s == "gc") p),
)
