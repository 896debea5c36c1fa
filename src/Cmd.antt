-- ===== src/Cmd.antt =====
-- The programs (cmd/fstorex, cmd/fstorex-mds and cmd/fstorex-dn).
pub mod Lines
pub mod Shell
pub mod Cli
pub mod Peers
pub mod Servers
mod Tests
