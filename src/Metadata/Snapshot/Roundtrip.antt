-- ===== src/Metadata/Snapshot/Roundtrip.antt =====
-- A restored snapshot is the state that it was taken from.
use fstorex.Base.{◌≡◌, refl, ap, ◌∙◌, some, List, [], ◌∷◌, ◌++◌, sym, arith}
use mathlib.Core.Option
use fstorex.Metadata.Tree.{Entry, entry, Children, empty, bind}
use fstorex.Metadata.Tree.Shape.{IsWellFormed, AllWellFormed}
use fstorex.Metadata.State.{MetadataServer}
use fstorex.Metadata.Apply.Trees.{IsTree}
use fstorex.Metadata.Machine.{LogEntry, apply, replay}
use fstorex.Metadata.Machine.Shape.{replay-IsTree}
use fstorex.Metadata.Snapshot.{
  to_snapshot, to_snapshots, to_entry, to_entries, snapshot, decoded, restored_root, restore,
}

mutual
  unfolding to_snapshot to_snapshots to_entry to_entries

  to_entry-to_snapshot : (e : Entry) → IsWellFormed e → to_entry (to_snapshot e) ≡ e
  to_entry-to_snapshot (entry a cs) w = ground (arith, w.0, to_entries-to_snapshots cs w.1)

  to_entries-to_snapshots : (cs : Children) → AllWellFormed cs → to_entries (to_snapshots cs) ≡ cs
  to_entries-to_snapshots empty w = refl
  to_entries-to_snapshots (bind n e cs) w =
      ground (arith, to_entry-to_snapshot e w.1, to_entries-to_snapshots cs w.3)

replay-append :
    (log rest : List LogEntry) (mds : MetadataServer)
    → replay (log ++ rest) mds ≡ replay rest (replay log mds)
unfolding replay
replay-append [] rest mds = refl
replay-append (e ∷ log) rest mds = replay-append log rest (apply e mds).0

-- The settings of a server that no snapshot holds.
abbrev pub IsSetUpAs : MetadataServer → MetadataServer → Type 0
IsSetUpAs mds other =
    (mds.replica_count ≡ other.replica_count)
    × (mds.repairing ≡ other.repairing)
    × (mds.heartbeat_timeout ≡ other.heartbeat_timeout)

restore-IsExact :
    (mds fresh : MetadataServer)
    → IsTree mds.root
    → IsSetUpAs fresh mds
    → restore (decoded (snapshot mds)) fresh ≡ some mds
unfolding restore restored_root snapshot
restore-IsExact mds fresh tree same =
    ground (arith, to_entry-to_snapshot mds.root tree.shape, same.0, same.1, same.2)

-- A server that restores the snapshot of a state, taken behind some of the log, and applies the
-- rest of the log is in the state of a server that has applied all of it, where the log starts
-- from a well-formed tree and both have the same settings.
pub restore-snapshot :
    (log rest : List LogEntry) (mds fresh : MetadataServer)
    → IsTree mds.root
    → IsSetUpAs fresh (replay log mds)
    → Option.map (replay rest) (restore (decoded (snapshot (replay log mds))) fresh)
      ≡ some (replay (log ++ rest) mds)
restore-snapshot log rest mds fresh tree same =
    ap (Option.map (replay rest))
      (restore-IsExact (replay log mds) fresh (replay-IsTree log mds tree) same)
    ∙ ap some (sym (replay-append log rest mds))
