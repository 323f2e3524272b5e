-- ===== src/Policy.antt =====
-- What a replacing policy answers (gossip/common.go), and the laws under which a store of messages
-- makes sense.
use grpc_gossip.Prelude.{◌≡◌, Option, some}

-- `this` against a stored `that`: nothing, `this` replaces `that`, or `this` is itself out of date.
pub data InvalidationResult : Type 0 where
  no_action invalidates invalidated : InvalidationResult

-- `none` is a panic of the policy on a malformed message.
abbrev pub MessageReplacingPolicy : Type 0 → Type 0
MessageReplacingPolicy M = M → M → Option InvalidationResult

pub record PolicyLaws {M : Type 0} (policy : MessageReplacingPolicy M) : Type 0 where
  pub symmetric : (m n : M) → policy m n ≡ some no_action → policy n m ≡ some no_action
  pub inverse : (m n : M) → policy m n ≡ some invalidates → policy n m ≡ some invalidated
  pub between :
      (m n o : M)
      → policy m n ≡ some invalidates
      → policy m o ≡ some invalidated
      → policy n o ≡ some invalidated
  pub transitive :
      (m n o : M)
      → policy m n ≡ some invalidates
      → policy n o ≡ some invalidates
      → policy m o ≡ some invalidates
