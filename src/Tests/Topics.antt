-- ===== src/Tests/Topics.antt =====
-- Publish and subscribe, on small states.
use grpc_gossip.Prelude.{
  ℕ, ◌≡◌, List, ◌++◌, arith, refl, str_eq, none, some, [], ◌∷◌, get, nat_eq, string_eq, false,
}
use grpc_gossip.Errors.{ok, no_subscribers}
use grpc_gossip.PubSub.{
  PubSub, Subscription, finding, adding, expiring, run, publish, expire, Publisher, publisher_step,
  start_publish, listen,
}
use grpc_gossip.PubSub.Crowding.{run_publisher, publishers_wait, publish_alone}
use grpc_gossip.PubSub.Orphans.{orphan_panics}

abbrev sub : Subscription ℕ
sub = record { topic = 1 ∷ []; ttl = 3; buffer = [] }

-- one subscription of one topic
abbrev one : PubSub ℕ
one = record {
  subscriptions = (1 ∷ [], 0) ∷ [];
  sets = (0, 0 ∷ []) ∷ [];
  subs = (0, sub) ∷ [];
  next_set = 1;
  next_sub = 1;
}

-- 48 items, and one more
abbrev items : List ℕ
items =
    let some_of = 1 ∷ 2 ∷ 3 ∷ 4 ∷ 5 ∷ 6 ∷ 7 ∷ 8 ∷ [] in
    some_of ++ some_of ++ some_of ++ some_of ++ some_of ++ some_of

abbrev crowded : Subscription ℕ
crowded = record sub { buffer = 9 ∷ items }

-- one subscription, whose buffer has room for one item
abbrev busy : PubSub ℕ
busy = record one { subs = (0, crowded) ∷ [] }

abbrev publishing : ℕ → Publisher ℕ
publishing n = record { item = n; left = 0 ∷ []; sending = none }

publishers_wait_example :
    (p1 : Publisher ℕ) × (q1 : Publisher ℕ) × (p2 : Publisher ℕ) × (ps' : PubSub ℕ) × (ps2 : PubSub
      ℕ)
    × (q2 : Publisher ℕ) × (ps3 : PubSub ℕ) × (publisher_step (publishing 10) busy
        ≡ some (p1, busy))
    × (publisher_step (publishing 11) busy ≡ some (q1, busy))
    × (publisher_step p1 busy ≡ some (p2, ps'))
    × (publisher_step q1 ps' ≡ none)
    × (listen false 0 ps' ≡ some (ps2, ok 9))
    × (publisher_step q1 ps2 ≡ some (q2, ps3))
unfolding get
publishers_wait_example =
    publishers_wait 0 crowded 9 items (publishing 10) (publishing 11) busy [] [] refl refl refl refl
      refl refl refl

publish_alone_example :
    run_publisher 2 (publishing 10) busy
    ≡ some (record { item = 10; left = []; sending = none }, (publish (1 ∷ []) 10 busy).0)
unfolding start_publish get str_eq
publish_alone_example = publish_alone (1 ∷ []) 10 (publishing 10) busy 2 refl (omega arith)

orphan_panics_example :
    (ps' : PubSub ℕ) × (run (finding (1 ∷ []) 4 ∷ expiring 0 ∷ adding 0 1 ∷ []) one ≡ some ps')
    × (publish (1 ∷ []) 8 ps' ≡ (ps', some no_subscribers))
    × (expire 1 ps' ≡ none)
unfolding get str_eq
orphan_panics_example = orphan_panics (1 ∷ []) 4 0 0 one sub 8 refl refl refl refl (omega arith)
