-- ===== src/Message/Replacing.antt =====
-- The laws of the replacing policy (gossip/msg.go, invalidationPolicy), for messages of all kinds.
use grpc_gossip.Prelude.{ℕ, ◌≡◌, Slice, string_of, str_eq_iff, Option, some, ◌>>=◌, arith}
use grpc_gossip.Types.{
  PeerTime, Member, AliveMessage, LeadershipMessage, DataMessage, StateInfo, PeerIdentity, Content,
  alive_msg, data_msg, state_info, leadership_msg, peer_identity,
}
use grpc_gossip.Policy.{InvalidationResult, no_action, invalidates, invalidated, PolicyLaws}
use grpc_gossip.Message.{
  SignedGossipMessage, compare_timestamps, policy_of_times, alive_invalidation_policy,
  leader_invalidation_policy, state_invalidation_policy, id_invalidation_policy, seq_policy,
  data_invalidation_policy, invalidation_policy,
}

-- The five kinds of messages that the policy compares.
pub data Comparable : Type 0 where
  alive : AliveMessage → Comparable
  block : DataMessage → Comparable
  state : StateInfo → Comparable
  identity : PeerIdentity → Comparable
  leader : LeadershipMessage → Comparable
  other : Comparable

abbrev pub comparable : Content → Comparable
comparable (alive_msg a) = alive a
comparable (data_msg d) = block d
comparable (state_info s) = state s
comparable (peer_identity p) = identity p
comparable (leadership_msg l) = leader l
comparable _ = other

abbrev pub compare_kinds : ℕ → Comparable → Comparable → Option InvalidationResult
compare_kinds size (alive a) (alive b) = alive_invalidation_policy a b
compare_kinds size (block a) (block b) = data_invalidation_policy size a b
compare_kinds size (state a) (state b) = state_invalidation_policy a b
compare_kinds size (identity a) (identity b) = some (id_invalidation_policy a b)
compare_kinds size (leader a) (leader b) = leader_invalidation_policy a b
compare_kinds size _ _ = some no_action

-- Naming this opens every policy.
unfoldable pub policies : Unit {0}
unfolding alive_invalidation_policy leader_invalidation_policy state_invalidation_policy
    id_invalidation_policy data_invalidation_policy seq_policy
policies = tt

pub policy-eq-compare_kinds :
    (size : ℕ) (m n : SignedGossipMessage)
    → invalidation_policy size m n
      ≡ compare_kinds size (comparable m.message.content) (comparable n.message.content)
unfolding invalidation_policy
policy-eq-compare_kinds size m n = ground arith

-- The laws of the comparison of two messages of peers, and of two blocks.
module _ (p q : Slice) (t u : Option PeerTime) where
  times_symmetric :
      policy_of_times p q t u ≡ some no_action → policy_of_times q p u t ≡ some no_action
  unfolding compare_timestamps
  times_symmetric h =
      ground (arith, str_eq_iff (string_of p) (string_of q), str_eq_iff (string_of q) (string_of p))

  times_inverse :
      policy_of_times p q t u ≡ some invalidates → policy_of_times q p u t ≡ some invalidated
  unfolding compare_timestamps
  times_inverse h =
      ground (arith, str_eq_iff (string_of p) (string_of q), str_eq_iff (string_of q) (string_of p))

module _ (p q r : Slice) (t u v : Option PeerTime) where
  times_between :
      policy_of_times p q t u ≡ some invalidates
      → policy_of_times p r t v ≡ some invalidated
      → policy_of_times q r u v ≡ some invalidated
  unfolding compare_timestamps
  times_between h k = ground (
    arith,
    str_eq_iff (string_of p) (string_of q),
    str_eq_iff (string_of p) (string_of r),
    str_eq_iff (string_of q) (string_of r),
  )

  times_transitive :
      policy_of_times p q t u ≡ some invalidates
      → policy_of_times q r u v ≡ some invalidates
      → policy_of_times p r t v ≡ some invalidates
  unfolding compare_timestamps
  times_transitive h k = ground (
    arith,
    str_eq_iff (string_of p) (string_of q),
    str_eq_iff (string_of p) (string_of r),
    str_eq_iff (string_of q) (string_of r),
  )

-- An alive message compares by the member that it carries.
abbrev members :
    Option Member → Option Member → Option PeerTime → Option PeerTime → Option InvalidationResult
members m n t u = m >>= λ m'. n >>= λ n'. policy_of_times m'.pki_id n'.pki_id t u

members_symmetric :
    (m n : Option Member) (t u : Option PeerTime)
    → members m n t u ≡ some no_action
    → members n m u t ≡ some no_action
members_symmetric (some m) (some n) t u h = times_symmetric m.pki_id n.pki_id t u h
members_symmetric _ _ t u h = cc

members_inverse :
    (m n : Option Member) (t u : Option PeerTime)
    → members m n t u ≡ some invalidates
    → members n m u t ≡ some invalidated
members_inverse (some m) (some n) t u h = times_inverse m.pki_id n.pki_id t u h
members_inverse _ _ t u h = cc

members_between :
    (m n o : Option Member) (t u v : Option PeerTime)
    → members m n t u ≡ some invalidates
    → members m o t v ≡ some invalidated
    → members n o u v ≡ some invalidated
members_between (some m) (some n) (some o) t u v h k =
    times_between m.pki_id n.pki_id o.pki_id t u v h k
members_between _ _ _ t u v h k = cc

members_transitive :
    (m n o : Option Member) (t u v : Option PeerTime)
    → members m n t u ≡ some invalidates
    → members n o u v ≡ some invalidates
    → members m o t v ≡ some invalidates
members_transitive (some m) (some n) (some o) t u v h k =
    times_transitive m.pki_id n.pki_id o.pki_id t u v h k
members_transitive _ _ _ t u v h k = cc

kinds_symmetric :
    (size : ℕ) (c d : Comparable)
    → compare_kinds size c d ≡ some no_action
    → compare_kinds size d c ≡ some no_action
unfolding policies
kinds_symmetric size (alive a) (alive b) h =
    members_symmetric a.membership b.membership a.timestamp b.timestamp h
kinds_symmetric size (state a) (state b) h =
    times_symmetric a.pki_id b.pki_id a.timestamp b.timestamp h
kinds_symmetric size (leader a) (leader b) h =
    times_symmetric a.pki_id b.pki_id a.timestamp b.timestamp h
kinds_symmetric size (identity a) (identity b) h = ground (
  arith,
  str_eq_iff (string_of a.pki_id) (string_of b.pki_id),
  str_eq_iff (string_of b.pki_id) (string_of a.pki_id),
)
kinds_symmetric size _ _ h = ground arith

kinds_inverse :
    (size : ℕ) (c d : Comparable)
    → compare_kinds size c d ≡ some invalidates
    → compare_kinds size d c ≡ some invalidated
unfolding policies
kinds_inverse size (alive a) (alive b) h =
    members_inverse a.membership b.membership a.timestamp b.timestamp h
kinds_inverse size (state a) (state b) h = times_inverse a.pki_id b.pki_id a.timestamp b.timestamp h
kinds_inverse size (leader a) (leader b) h =
    times_inverse a.pki_id b.pki_id a.timestamp b.timestamp h
kinds_inverse size _ _ h = ground arith

kinds_between :
    (size : ℕ) (c d e : Comparable)
    → compare_kinds size c d ≡ some invalidates
    → compare_kinds size c e ≡ some invalidated
    → compare_kinds size d e ≡ some invalidated
unfolding policies
kinds_between size (alive a) (alive b) (alive c) h k =
    members_between a.membership b.membership c.membership a.timestamp b.timestamp c.timestamp h k
kinds_between size (state a) (state b) (state c) h k =
    times_between a.pki_id b.pki_id c.pki_id a.timestamp b.timestamp c.timestamp h k
kinds_between size (leader a) (leader b) (leader c) h k =
    times_between a.pki_id b.pki_id c.pki_id a.timestamp b.timestamp c.timestamp h k
kinds_between size _ _ _ h k = ground arith

kinds_transitive :
    (size : ℕ) (c d e : Comparable)
    → compare_kinds size c d ≡ some invalidates
    → compare_kinds size d e ≡ some invalidates
    → compare_kinds size c e ≡ some invalidates
unfolding policies
kinds_transitive size (alive a) (alive b) (alive c) h k =
    members_transitive a.membership b.membership c.membership a.timestamp b.timestamp c.timestamp h
      k
kinds_transitive size (state a) (state b) (state c) h k =
    times_transitive a.pki_id b.pki_id c.pki_id a.timestamp b.timestamp c.timestamp h k
kinds_transitive size (leader a) (leader b) (leader c) h k =
    times_transitive a.pki_id b.pki_id c.pki_id a.timestamp b.timestamp c.timestamp h k
kinds_transitive size _ _ _ h k = ground arith

-- The replacing policy of the package obeys the laws that the message store relies on, for every
-- number of blocks to store and for messages of all kinds: leaving alone goes both ways, what replaces
-- a message makes it out of date, what lies between two others is out of date with respect to the one
-- that replaces it, and replacing is transitive.
pub comparator-PolicyLaws : (size : ℕ) → PolicyLaws (invalidation_policy size)
comparator-PolicyLaws size = record {
  symmetric = λ m n. simp policy-eq-compare_kinds (kinds_symmetric size _ _);
  inverse = λ m n. simp policy-eq-compare_kinds (kinds_inverse size _ _);
  between = λ m n o. simp policy-eq-compare_kinds (kinds_between size _ _ _);
  transitive = λ m n o. simp policy-eq-compare_kinds (kinds_transitive size _ _ _);
}
