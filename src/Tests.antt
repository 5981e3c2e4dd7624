-- ===== src/Tests.antt =====
-- Runs of the models on small inputs, and each property at an input of its own.
pub mod Queues
pub mod Ciphers
pub mod Documents
pub mod Datagrams
pub mod Timers
pub mod Monitors
pub mod Meetings
pub mod Sharing
pub mod Visitors
pub mod Stamps
pub mod Encodings
pub mod Maps
pub mod Texts
pub mod Sessions
pub mod Conns
pub mod Sockets
pub mod Clients
pub mod Reactors
pub mod Threads
pub mod Singletons
pub mod Setups
