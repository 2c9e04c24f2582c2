-- ===== src/Client.antt =====
-- Extensions/Client/client.cpp: the process that stands in for the compiler and talks to the manager.
pub mod Bytes
pub mod Message
pub mod Environment
pub mod Requests
pub mod Distributed
