-- ===== src/Cmd/Servers.antt =====
-- The start of the two servers (cmd/fstorex-mds/main.go and cmd/fstorex-dn/main.go), up to where
-- they serve. The Raft node, the registration of services, the listener and the file system are the
-- system's.
pub mod Starts
pub mod Shutdown
use fstorex.Base.{ℕ, String, ◌<>◌, Bool, true, false, Option, none, some, List, [], ◌∷◌, ◌++◌}
use fstorex.Types.{Time}
use fstorex.Metadata.State.{MetadataServer, new_metadata_server}
use fstorex.DataNode.Life.{Daemon, new_data_node}
use fstorex.Cmd.Lines.{Line, printed, logged_error, logged_info, Ended, exit_with}
use fstorex.Cmd.Peers.{parse_peers}

-- `rafttypes.Config`, as far as the program fills it.
pub record RaftConfig : Type 0 where
  pub local_id : String
  pub peers : List String
  pub wal_dir : String
  pub snap_dir : String
  pub max_index_span : ℕ
  pub election_timeout : Time

-- The flags of the metadata server.
pub record MdsFlags : Type 0 where
  pub id : String
  pub peers : String
  pub wal_dir : String
  pub snap_dir : String
  pub max_index_span : ℕ

-- The flags of the data node.
pub record DnFlags : Type 0 where
  pub addr : String
  pub mds_addr : String
  pub data_dir : String

-- The errors of the system: of `raft.InitServer`, of the registration of a service by its name, of
-- `net.Listen`, and of `os.MkdirAll`.
pub record Host : Type 0 where
  pub init_raft : RaftConfig → Option String
  pub register : String → Option String
  pub listen : String → Option String
  pub make_dir : String → Option String

-- How a start ends: `main` exits, or the program serves some services at an address. `A` is what it
-- keeps.
pub data Start (A : Type 0) : Type 0 where
  exits : Ended → Start A
  serves : A → List String → String → List Line → Start A

-- `NewMetadataServer`, behind its two times: the server, or the text of its error.
unfoldable pub start_metadata : Host → RaftConfig → Time → Time → MetadataServer × Option String
start_metadata host config created modified = (
  new_metadata_server created modified,
  elim (host.init_raft config) [
    | none ↦ none
    | some text ↦ some ("init raft server failed: " <> text)
  ],
)

abbrev pub raft_config : MdsFlags → RaftConfig
raft_config flags = record {
  local_id = flags.id;
  peers = parse_peers flags.id flags.peers;
  wal_dir = flags.wal_dir;
  snap_dir = flags.snap_dir;
  max_index_span = flags.max_index_span;
  election_timeout = 3_000_000_000;
}

-- `main` of the metadata server; what `os.MkdirAll` does to its two directories is not looked at.
unfoldable pub start_mds : Host → MdsFlags → Time → Time → Start MetadataServer
start_mds host flags created modified =
    let (mds, problem) = start_metadata host (raft_config flags) created modified in
    elim problem [
      | some text ↦ exits (exit_with "failed to create metadata server" text)
      | none ↦ elim (host.register "Server") [
        | some text ↦ exits (exit_with "failed to register raft rpc service" text)
        | none ↦ elim (host.register "MetadataService") [
          | some text ↦ exits (exit_with "failed to register metadata rpc service" text)
          | none ↦ elim (host.listen flags.id) [
            | some text ↦ exits (exit_with "failed to listen" text)
            | none ↦ serves mds ("Server" ∷ "MetadataService" ∷ []) flags.id (
                logged_info "metadata server (raft node) starting"
                ∷ printed ("Metadata Server (Raft) listening on " <> flags.id)
                ∷ [])
          ]
        ]
      ]
    ]

abbrev pub is_error {ℓ} : {A : Type ℓ} → Option A → Bool
is_error none = false
is_error (some text) = true

abbrev pub shown : Option String → String
shown none = ""
shown (some text) = text

-- `main` of the data node, up to its first heartbeat.
unfoldable pub start_dn : Host → DnFlags → Start Daemon
start_dn host flags =
    elim (new_data_node (is_error (host.make_dir flags.data_dir)) flags.mds_addr flags.addr) [
      | none ↦ exits (
          exit_with "failed to create data node"
            ("failed to create data dir: " <> shown (host.make_dir flags.data_dir)))
      | some d ↦ elim (host.register "DataService") [
        | some text ↦ exits (exit_with "failed to register RPC" text)
        | none ↦ elim (host.listen flags.addr) [
          | some text ↦ exits (exit_with "failed to listen" text)
          | none ↦ serves d ("DataService" ∷ []) flags.addr (
              logged_info "data node starting"
              ∷ printed ("Data Node listening on " <> flags.addr)
              ∷ [])
        ]
      ]
    ]
