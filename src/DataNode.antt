-- ===== src/DataNode.antt =====
-- The data node (internal/datanode/datanode.go): it keeps the bytes of files on its disk.
pub mod Bytes
pub mod Paths
pub mod Disk
pub mod Service
pub mod Replicate
pub mod Heartbeat
pub mod Life
mod Tests
