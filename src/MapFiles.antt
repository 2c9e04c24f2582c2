-- ===== src/MapFiles.antt =====
-- Extensions/MapFiles/mapFiles.cpp: files that exist under a virtual path for one process and the
-- processes that it starts.
pub mod Paths
pub mod Mapping
pub mod Pipe
pub mod Wire
pub mod Hooks
pub mod Maps
pub mod Bindings
