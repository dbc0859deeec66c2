-- ===== src/Sac.antt =====
-- fileSystem/sac/sac_servidor: the file server.
pub mod OpenedFiles
pub mod Blocks
pub mod Disk
pub mod Lookup
pub mod Server
pub mod Format
pub mod Parser
pub mod Client
mod Tests
