-- ===== src/Pull.antt =====
-- The pull protocol (gossip/channel.go: pullEngine, PullMediator): the engine, the mediator between it
-- and the rest of the peer, and what they guarantee.
pub mod Engine
pub mod Mediator
pub mod Safety
pub mod Histories
pub mod Runs
pub mod Requests
pub mod Owners
pub mod Answers
