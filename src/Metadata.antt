-- ===== src/Metadata.antt =====
-- The metadata server: the directory tree, the commands that change it, and its handlers.
pub mod Paths
pub mod Tree
pub mod State
pub mod Apply
pub mod Rename
pub mod Machine
pub mod Server
pub mod Listing
pub mod Snapshot
pub mod Gc
pub mod Replicator
mod Tests
