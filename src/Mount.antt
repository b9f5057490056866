-- ===== src/Mount.antt =====
-- Mounts (src/mount): the words of shell commands, the mounts of a device, and how they are undone
-- and made again.
pub mod Quote
pub mod Table
pub mod Unmount
pub mod Mounting
pub mod Browse
pub mod Restore
pub mod Eject
mod Tests
pub mod Pipe
pub mod Agent
