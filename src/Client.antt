-- ===== src/Client.antt =====
-- The client (internal/client/client.go, internal/client/file_handle.go), which calls the metadata
-- servers and the data nodes.
pub mod World
pub mod Calls
pub mod Handle
pub mod Files
pub mod Open
mod Samples
mod Tests
