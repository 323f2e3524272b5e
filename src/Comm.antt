-- ===== src/Comm.antt =====
-- The communication layer (gossip/communicate.go): sends that are acknowledged, and the store of
-- connections.
pub mod Acks
pub mod Waiting
pub mod Connections
pub mod Locks
