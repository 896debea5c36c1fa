-- ===== src/Metadata/Server/Leader.antt =====
-- What the metadata server relies on of the Raft node of a leader.
use fstorex.Base.{◌≡◌, none, some}
use fstorex.Types.{Time}
use fstorex.Metadata.State.{CommandPayload, MetadataServer}
use fstorex.Metadata.Machine.{apply}
use fstorex.Metadata.Server.{Raft}

-- The Raft node of a leader that stays one: it applies every command, and returns no error
-- where the command has none.
abbrev pub Applies : Raft → Time → Type 0
Applies raft now =
    (p : CommandPayload) (mds : MetadataServer)
    → ((raft.propose p mds).0 ≡ (apply (record { op = p.op; payload = some p; now = now }) mds).0)
      × ((apply (record { op = p.op; payload = some p; now = now }) mds).1 ≡ none
          → (raft.propose p mds).1 ≡ none)
