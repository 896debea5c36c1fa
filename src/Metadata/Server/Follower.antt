-- ===== src/Metadata/Server/Follower.antt =====
-- The writes of a node that is not the leader.
use fstorex.Base.{◌≡◌, String, false, Option, arith}
use fstorex.Types.{CreateFileArgs, RenameArgs, UpdateSizeArgs}
use fstorex.Metadata.State.{MetadataServer}
use fstorex.Metadata.Server.{
  Raft, refuse, not_leader, Handled, heartbeat, mkdir, create_file, complete_file, delete, rename,
  update_size,
}

-- The state stays and the client is sent to the leader.
abbrev pub IsRedirected {ℓ} : {A : Type ℓ} → Raft → MetadataServer → Handled A → Type ℓ
IsRedirected raft mds handled = (handled.0 ≡ mds) × (handled.1 ≡ refuse (not_leader raft.leader))

-- A node that is not the leader answers every write with the leader's address, whatever the
-- request, and its state stays as it is.
pub handlers-IsRedirected :
    (raft : Raft) (mds : MetadataServer)
    → raft.is_leader ≡ false
    → (new_id : Option String) (path : String) (create : CreateFileArgs) (names : RenameArgs)
      (resize : UpdateSizeArgs)
    → IsRedirected raft mds (heartbeat raft path mds)
      × IsRedirected raft mds (mkdir raft new_id path mds)
      × IsRedirected raft mds (create_file raft new_id create mds)
      × IsRedirected raft mds (complete_file raft path mds)
      × IsRedirected raft mds (delete raft path mds)
      × IsRedirected raft mds (rename raft names mds)
      × IsRedirected raft mds (update_size raft resize mds)
unfolding heartbeat mkdir create_file complete_file delete rename update_size
handlers-IsRedirected raft mds follower new_id path create names resize = ground (arith, follower)
