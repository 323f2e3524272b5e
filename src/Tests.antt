-- ===== src/Tests.antt =====
-- The theorems at concrete inputs: the gossip package's parts, each on a small state.
mod Data
mod Stores
mod Messages
mod Peers
mod Pulling
mod Members
mod Sending
mod Serving
mod Channels
mod Topics
pub mod Batches
pub mod Beats
pub mod Calls
