-- ===== src/Metadata/Snapshot.antt =====
-- The snapshots of the state (internal/metadata/mds.go, internal/metadata/state_machine.go), as
-- the structures that go into and come out of their JSON.
pub mod Roundtrip
use fstorex.Base.{ℕ, String, Bool, true, false, Option, none, some, List, [], if◌then◌else◌}
use fstorex.Base.Dict.{Dict}
use fstorex.Types.{ℤ, pos, Time, Replica}
use fstorex.Metadata.Tree.{Attrs, Entry, entry, Children, empty, bind}
use fstorex.Metadata.State.{MetadataServer, mode_dir}

-- The fields of an `entrySnapshot` but its children.
pub record SnapshotFields : Type 0 where
  pub name : String
  pub is_dir : Bool
  pub size : ℤ
  pub mode : ℕ
  pub created_at : Time
  pub mod_time : Time
  pub status : String
  pub file_id : String
  pub replicas : List Replica

-- `entrySnapshot`
mutual
  pub data EntrySnapshot : Type 0 where
    entry_snapshot : SnapshotFields → SnapshotChildren → EntrySnapshot

  pub data SnapshotChildren : Type 0 where
    no_child : SnapshotChildren
    child : String → EntrySnapshot → SnapshotChildren → SnapshotChildren

abbrev pub saved : Attrs → SnapshotFields
saved a = record {
  name = a.name;
  is_dir = a.is_dir;
  size = a.size;
  mode = a.mode;
  created_at = a.created_at;
  mod_time = a.mod_time;
  status = a.status;
  file_id = a.file_id;
  replicas = a.replicas;
}

abbrev pub loaded : SnapshotFields → Attrs
loaded s = record {
  name = s.name;
  is_dir = s.is_dir;
  size = s.size;
  mode = s.mode;
  created_at = s.created_at;
  mod_time = s.mod_time;
  status = s.status;
  file_id = s.file_id;
  replicas = s.replicas;
}

-- `toSnapshot` of an entry, and its loop over the children. Only a directory's are saved.
unfoldable mutual
  pub to_snapshot : Entry → EntrySnapshot
  to_snapshot (entry a cs) =
      let inner = to_snapshots cs in entry_snapshot (saved a) (if a.is_dir then inner else no_child)

  pub to_snapshots : Children → SnapshotChildren
  to_snapshots empty = no_child
  to_snapshots (bind name e cs) = child name (to_snapshot e) (to_snapshots cs)

-- `toEntry` of a snapshot, and its loop over the children.
unfoldable mutual
  pub to_entry : EntrySnapshot → Entry
  to_entry (entry_snapshot s cs) =
      let inner = to_entries cs in entry (loaded s) (if s.is_dir then inner else empty)

  pub to_entries : SnapshotChildren → Children
  to_entries no_child = empty
  to_entries (child name s cs) = bind name (to_entry s) (to_entries cs)

-- `metaSnapshot`; a root or a map may be null in its JSON.
pub record MetaSnapshot : Type 0 where
  pub root : Option EntrySnapshot
  pub data_nodes : List String
  pub last_heartbeat : Option (Dict String Time)

-- The root that stands in for a missing one.
abbrev pub bare_root : Entry
bare_root =
    entry
      (record {
        name = "/";
        is_dir = true;
        size = pos 0;
        mode = mode_dir;
        created_at = 0;
        mod_time = 0;
        status = "";
        file_id = "";
        replicas = [];
      })
      empty

unfoldable pub restored_root : MetaSnapshot → Entry
restored_root snap = elim snap.root [ none ↦ bare_root | some s ↦ to_entry s ]

-- `Snapshot`
unfoldable pub snapshot : MetadataServer → MetaSnapshot
snapshot mds = record {
  root = some (to_snapshot mds.root);
  data_nodes = mds.data_nodes;
  last_heartbeat = some mds.last_heartbeat;
}

-- What the bytes of a snapshot are.
pub data SnapshotData : Type 0 where
  no_bytes : SnapshotData
  undecodable : SnapshotData
  decoded : MetaSnapshot → SnapshotData

-- `Restore`; `none` where it returns an error.
unfoldable pub restore : SnapshotData → MetadataServer → Option MetadataServer
unfolding restored_root
restore no_bytes mds = some mds
restore undecodable mds = none
restore (decoded snap) mds = some (record mds {
  root = restored_root snap;
  data_nodes = snap.data_nodes;
  last_heartbeat = elim snap.last_heartbeat [ none ↦ [] | some heard ↦ heard ];
})
