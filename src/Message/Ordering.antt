-- ===== src/Message/Ordering.antt =====
-- What the replacing policy compares (gossip/msg.go, invalidationPolicy): times and block numbers.
use grpc_gossip.Prelude.{
  ℕ, ◌+◌, ◌∙◌, ◌≡◌, refl, Slice, bytes_equal, ltb, ◌==◌, Bool, ◌&&◌, ◌||◌, Option, none, some,
  ◌>>=◌, arith, if◌then◌else◌,
}
use grpc_gossip.Types.{PeerTime}
use grpc_gossip.Policy.{InvalidationResult, no_action, invalidates, invalidated, PolicyLaws}
use grpc_gossip.Message.{SignedGossipMessage, compare_timestamps, invalidation_policy}
use grpc_gossip.Message.Replacing.{
  Comparable, alive, block, state, leader, comparable, compare_kinds, policy-eq-compare_kinds,
  policies, comparator-PolicyLaws,
}

-- by incarnation, then by sequence number
abbrev pub later : PeerTime → PeerTime → Bool
later t u = ltb u.inc_num t.inc_num || (u.inc_num == t.inc_num && ltb u.seq_num t.seq_num)

-- what a message is compared by: its kind, a peer and a time, for the three kinds that have them
pub record Stamp : Type 0 where
  pub kind : ℕ
  pub peer : Slice
  pub time : PeerTime

abbrev stamp_of : Comparable → Option Stamp
stamp_of (alive a) =
    a.membership >>= λ m. a.timestamp >>= λ t. some (record { kind = 0; peer = m.pki_id; time = t })
stamp_of (state s) = s.timestamp >>= λ t. some (record { kind = 1; peer = s.pki_id; time = t })
stamp_of (leader l) = l.timestamp >>= λ t. some (record { kind = 2; peer = l.pki_id; time = t })
stamp_of _ = none

abbrev pub stamped : SignedGossipMessage → Option Stamp
stamped m = stamp_of (comparable m.message.content)

abbrev number_of : Comparable → Option ℕ
number_of (block d) = d.payload >>= λ p. some p.seq_num
number_of _ = none

abbrev pub numbered : SignedGossipMessage → Option ℕ
numbered m = number_of (comparable m.message.content)

-- of the same kind and peer, the later replaces the earlier, and one that is not later is out of date
abbrev pub by_time : Stamp → Stamp → InvalidationResult
by_time s r =
    if s.kind == r.kind && bytes_equal s.peer r.peer
    then (if later s.time r.time then invalidates else invalidated)
    else no_action

-- a block is out of date that is there already, or by more than `size` behind another, which replaces it
abbrev pub by_number : ℕ → ℕ → ℕ → InvalidationResult
by_number size a b =
    if a == b
    then invalidated
    else if ltb (b + size) a
    then invalidates
    else if ltb (a + size) b
    then invalidated
    else no_action

stamps_compare :
    (size : ℕ) (c d : Comparable) (s r : Stamp)
    → stamp_of c ≡ some s
    → stamp_of d ≡ some r
    → compare_kinds size c d ≡ some (by_time s r)
unfolding policies compare_timestamps
stamps_compare size (alive a) (alive b) s r h k = ground (arith, h, k)
stamps_compare size (state a) (state b) s r h k = ground (arith, h, k)
stamps_compare size (leader a) (leader b) s r h k = ground (arith, h, k)
stamps_compare size _ _ s r h k = ground (arith, h, k)

numbers_compare :
    (size : ℕ) (c d : Comparable) (a b : ℕ)
    → number_of c ≡ some a
    → number_of d ≡ some b
    → compare_kinds size c d ≡ some (by_number size a b)
unfolding policies
numbers_compare size (block x) (block y) a b h k = ground (arith, h, k)
numbers_compare size _ _ a b h k = ground (arith, h, k)

-- the result that two marks determine, where both messages have one; else the given result
abbrev pub in_order :
    {S : Type 0}
    → (S → S → InvalidationResult)
    → Option S
    → Option S
    → Option InvalidationResult
    → Option InvalidationResult
in_order f (some a) (some b) x = some (f a b)
in_order f _ _ x = x

in_order_lem :
    {S : Type 0}
    → (f : S → S → InvalidationResult) (p q : Option S) (x : Option InvalidationResult)
    → ((a b : S) → p ≡ some a → q ≡ some b → x ≡ some (f a b))
    → x ≡ in_order f p q x
in_order_lem f (some a) (some b) x h = h a b refl refl
in_order_lem f none q x h = refl
in_order_lem f (some a) none x h = refl

-- The replacing policy of the package, for every number of blocks to store. Of two alive messages, two
-- state infos or two leadership messages of one peer, that carry their times, the one of the later
-- incarnation, or of the same one with the greater sequence number, replaces the other, and one that is
-- not later is out of date; such messages of different kinds or peers leave each other alone. Of two
-- blocks, one that is more than the number of blocks to store behind the other is out of date and
-- replaced by it, one with the same number is out of date, and others leave each other alone. For
-- messages of all kinds it obeys the laws that the message store relies on: leaving alone goes both ways,
-- what replaces a message makes it out of date, a message between two others is out of date with
-- respect to the newer, and replacing is transitive.
pub comparator_orders :
    (size : ℕ)
    → PolicyLaws (invalidation_policy size)
      × ((m n : SignedGossipMessage)
          → invalidation_policy size m n
            ≡ in_order by_time (stamped m) (stamped n) (invalidation_policy size m n))
      × ((m n : SignedGossipMessage)
          → invalidation_policy size m n
            ≡ in_order (by_number size) (numbered m) (numbered n) (invalidation_policy size m n))
comparator_orders size = (
  comparator-PolicyLaws size,
  (λ m n.
      in_order_lem by_time (stamped m) (stamped n) _
        (λ s r h k. policy-eq-compare_kinds size m n ∙ stamps_compare size _ _ s r h k)),
  (λ m n.
      in_order_lem (by_number size) (numbered m) (numbered n) _
        (λ a b h k. policy-eq-compare_kinds size m n ∙ numbers_compare size _ _ a b h k)),
)
