-- ===== src/Filesystem.antt =====
-- The package filesystem/, a module to a part of it.
pub mod Errors
pub mod Platform
pub mod Path
pub mod Atomic
pub mod Lock
pub mod Locker
pub mod ReadSeeker
pub mod Umask
pub mod Buffered
pub mod Locations
pub mod Size
