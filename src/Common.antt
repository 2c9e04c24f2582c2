-- ===== src/Common.antt =====
-- The parts of Extensions/Common: the memory of another process, the injection of a library into it,
-- the loader that runs there, and the table of hooked functions.
pub mod Memory
pub mod Injection
pub mod Loader
pub mod ApiHooks
