-- ===== src/Tests.antt =====
-- The theorems about the code, each at a concrete input.
mod Systems
mod Messages
mod Mappings
mod Transfers
mod Headers
mod Requests
mod Hooks
mod Conversations
mod Entries
mod Naive
mod Compilations
mod Injections
mod Bindings
mod Drivers
mod Loaders
