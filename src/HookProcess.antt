-- ===== src/HookProcess.antt =====
-- Extensions/Client/hookProcess.cpp: the hooks in a process that starts compilers.
pub mod Compilers
pub mod Launches
pub mod Params
pub mod Transfer
pub mod Compilation
