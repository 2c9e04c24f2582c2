-- ===== src/HeaderScanner.antt =====
-- Extensions/HeaderScanner: which headers a source file includes, and the cache that saves
-- preprocessing a header again.
pub mod Macros
pub mod CacheTree
pub mod Cache
pub mod Context
pub mod Conditions
pub mod Tracker
pub mod Content
pub mod Entry
pub mod Callbacks
pub mod IncludeFinder
pub mod Naive
pub mod Driver
