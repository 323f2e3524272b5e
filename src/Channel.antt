-- ===== src/Channel.antt =====
-- A channel of the gossip service (gossip/channel.go: GossipChannel and ChannelState).
pub mod State
pub mod Decimal
pub mod Cache
pub mod Newest
pub mod Sweeping
pub mod Members
pub mod Blocks
pub mod Receiving
pub mod Publishing
pub mod Joining
pub mod Peers
pub mod Looking
pub mod Configuring
pub mod Announcing
pub mod Keeping
pub mod Guarding
pub mod Returning
pub mod Wanting
