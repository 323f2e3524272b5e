-- ===== src/Discovery.antt =====
-- The discovery service (gossip/discovery.go): who is a member, who is alive and who is dead.
pub mod State
pub mod Learning
pub mod Membership
pub mod Alive
pub mod News
pub mod Expiry
pub mod Receiving
pub mod Traffic
pub mod Keeping
pub mod Standing
pub mod Listing
pub mod Announcing
pub mod Heartbeat
