-- ===== src/Tests/Stores.antt =====
-- The message store, its policy and the emitter on small states.
use grpc_gossip.Prelude.{
  ℕ, ◌+◌, ◌*◌, ◌≡◌, refl, Bool, true, false, not, Option, some, List, [], ◌∷◌, ◌++◌, pos, count,
  filter, ◌==◌, arith, str_eq,
}
use grpc_gossip.Policy.{InvalidationResult, no_action, invalidated, PolicyLaws}
use grpc_gossip.Message.{
  SignedGossipMessage, invalidation_policy, alive_invalidation_policy, compare_timestamps,
}
use grpc_gossip.Message.Replacing.{comparator-PolicyLaws}
use grpc_gossip.Message.Ordering.{
  in_order, by_time, by_number, stamped, numbered, comparator_orders,
}
use grpc_gossip.Store.{
  MessageStore, Stored, add, check_valid, check_valid_loop, add_loop, get_items, live_items,
  expiration_turn, older_than,
}
use grpc_gossip.Store.Adding.{add_valid, add-IsCoherent, survivors, replaced, items, IsCoherent}
use grpc_gossip.Store.Expiring.{expiration_turn_lem}
use grpc_gossip.Emitter
use grpc_gossip.Emitter.{Emitter}
use grpc_gossip.Emitter.Conserving.{
  Event, added, tick, run, step, run_conserved, IsLive, count_added, pending,
}
use grpc_gossip.Tests.Data.{ann, bob, alive_message}

abbrev policy : SignedGossipMessage → SignedGossipMessage → Option InvalidationResult
policy = invalidation_policy 0

abbrev stored : SignedGossipMessage → ℕ → Bool → Stored SignedGossipMessage
stored m n e = record { item = m; created = n; expired = e }

-- a message of each peer, of which Ann's has expired
abbrev two : MessageStore SignedGossipMessage
two = record {
  messages = stored (alive_message ann 1) 2 true ∷ stored (alive_message bob 1) 8 false ∷ [];
  msg_ttl = 5;
  expired_count = 1;
  stopped = false;
}

abbrev newer : SignedGossipMessage
newer = alive_message ann 2

-- the store with Ann's newer message in place of the old one
abbrev renewed : MessageStore SignedGossipMessage
renewed = record two { messages = stored (alive_message bob 1) 8 false ∷ stored newer 9 false ∷ [] }

comparator_orders_example :
    PolicyLaws (invalidation_policy 3)
    × ((m n : SignedGossipMessage)
        → invalidation_policy 3 m n
          ≡ in_order by_time (stamped m) (stamped n) (invalidation_policy 3 m n))
    × ((m n : SignedGossipMessage)
        → invalidation_policy 3 m n
          ≡ in_order (by_number 3) (numbered m) (numbered n) (invalidation_policy 3 m n))
comparator_orders_example = comparator_orders 3

newer_valid : check_valid policy newer two ≡ some true
unfolding check_valid check_valid_loop invalidation_policy alive_invalidation_policy
    compare_timestamps str_eq
newer_valid = refl

newer_added : add policy 9 newer two ≡ some (renewed, alive_message ann 1 ∷ [], true)
unfolding add add_loop invalidation_policy alive_invalidation_policy compare_timestamps str_eq
newer_added = refl

two-IsCoherent : IsCoherent policy two
unfolding invalidation_policy alive_invalidation_policy compare_timestamps str_eq
two-IsCoherent = (((refl, refl), tt), (tt, tt))

add_valid_example :
    add policy 9 newer two
    ≡ some (
      record two {
        messages =
            survivors policy newer two.messages
            ++ record { item = newer; created = 9; expired = false } ∷ [];
      },
      items (replaced policy newer two.messages),
      true,
    )
add_valid_example = add_valid policy 9 newer two newer_valid

repeated_invalid : check_valid policy (alive_message bob 1) two ≡ some false
unfolding check_valid check_valid_loop invalidation_policy alive_invalidation_policy
    compare_timestamps str_eq
repeated_invalid = refl

add-IsCoherent_example : IsCoherent policy renewed
add-IsCoherent_example =
    add-IsCoherent policy (comparator-PolicyLaws 0) 9 newer two renewed (alive_message ann 1 ∷ [])
      true two-IsCoherent newer_added

newer_itself : policy newer newer ≡ some invalidated
unfolding invalidation_policy alive_invalidation_policy compare_timestamps str_eq
newer_itself = refl

expiration_turn_example :
    (get_items (expiration_turn 14 two).0
      ≡ live_items (filter (λ x. not (older_than 14 two.msg_ttl x)) two.messages))
    × ((expiration_turn 14 two).1 ≡ live_items (filter (older_than 14 two.msg_ttl) two.messages))
expiration_turn_example = expiration_turn_lem 14 two refl

-- whether a message and Bob's say something about each other: it is not Ann's
abbrev of_bob : SignedGossipMessage → Bool
of_bob m = elim (policy m (alive_message bob 1)) [ some no_action ↦ false | _ ↦ true ]

abbrev twice : Emitter ℕ
twice = record { iterations = pos 2; burst_size = pos 2; buff = []; stopped = false }

abbrev events : List (Event ℕ)
events = added 7 ∷ added 8 ∷ tick ∷ added 7 ∷ []

twice-IsLive : IsLive 2 twice
twice-IsLive = record { configured = refl; positive = omega arith; running = refl; left = tt }

run_conserved_example :
    count (λ n. n == 7) (run events twice).1 + pending (λ n. n == 7) (run events twice).0.buff
    ≡ pending (λ n. n == 7) twice.buff + 2 * count_added (λ n. n == 7) events
run_conserved_example = run_conserved 2 (λ n. n == 7) events twice twice-IsLive

emptied : (run (added 7 ∷ tick ∷ tick ∷ []) twice).0.buff ≡ []
unfolding run step Emitter.add Emitter.emit Emitter.count_down
emptied = refl
