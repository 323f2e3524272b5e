-- ===== src/Service.antt =====
-- The gossip service (gossip/gossip.go): what it discloses to whom.
pub mod Orgs
pub mod Disclosure
pub mod Forwarding
pub mod Secrets
pub mod Passing
pub mod Routing
pub mod Validating
pub mod Dispatching
pub mod Checking
pub mod Untouched
pub mod Serving
pub mod Batches
pub mod Confining
pub mod Parting
pub mod Gossiping
pub mod Finishing
pub mod Calls
pub mod Acknowledging
pub mod Syncing
