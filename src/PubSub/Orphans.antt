-- ===== src/PubSub/Orphans.antt =====
-- The race between a Subscribe and a timer (gossip/common.go, PubSub).
use grpc_gossip.Prelude.{
  ℕ, suc, ◌<◌, ◌≡◌, refl, Str, str_eq_refl, none, some, [], ◌∷◌, get, put, delete, get-put,
  get-delete, nat_eq, string_eq, ==_iff, arith,
}
use grpc_gossip.Errors.{no_subscribers}
use grpc_gossip.Sets
use grpc_gossip.PubSub.{
  Subscription, PubSub, set_at, publish, subscribe_find, subscribe_add, expire, finding, adding,
  expiring, step, run,
}

module _ {I : Type 0} (topic : Str) (ttl n k : ℕ) (ps : PubSub I) where
  abbrev fresh : Subscription I
  fresh = record { topic = topic; ttl = ttl; buffer = [] }

  -- after the first half of the Subscribe, then after the timer, then after the second half
  abbrev started : PubSub I
  started = record ps { subs = put ps.subs ps.next_sub fresh; next_sub = suc ps.next_sub }

  abbrev emptied : PubSub I
  emptied = record started {
    sets = put ps.sets k [];
    subscriptions = delete ps.subscriptions topic;
  }

  abbrev orphaned : PubSub I
  orphaned = record emptied { sets = put emptied.sets k (ps.next_sub ∷ []) }

  find-started : get ps.subscriptions topic ≡ some k → (subscribe_find topic ttl ps).0 ≡ started
  unfolding subscribe_find
  find-started found = rw (found, subscribe_find) refl

  expire-emptied :
      (s : Subscription I)
      → get ps.subscriptions topic ≡ some k
      → set_at ps k ≡ n ∷ []
      → get ps.subs n ≡ some s
      → s.topic ≡ topic
      → n < ps.next_sub
      → expire n started ≡ some emptied
  unfolding expire Sets.remove
  expire-emptied s found only sub of_topic old = ground (
    arith,
    found,
    only,
    sub,
    of_topic,
    get-put ps.subs ps.next_sub n fresh,
    ==_iff ps.next_sub n,
    ==_iff n n,
  )

  add-orphaned : subscribe_add k ps.next_sub emptied ≡ orphaned
  unfolding subscribe_add Sets.add
  add-orphaned = ground (arith, get-put ps.sets k k [], ==_iff k k)

  nobody_hears : (item : I) → publish topic item orphaned ≡ (orphaned, some no_subscribers)
  unfolding publish
  nobody_hears item = rw (gone, publish) refl
    where
      gone : get (delete ps.subscriptions topic) topic ≡ none
      gone = ground (arith, get-delete ps.subscriptions topic topic, str_eq_refl topic)

  timer_panics : expire ps.next_sub orphaned ≡ none
  unfolding expire
  timer_panics = ground (
    arith,
    get-put ps.subs ps.next_sub ps.next_sub fresh,
    ==_iff ps.next_sub ps.next_sub,
    get-delete ps.subscriptions topic topic,
    str_eq_refl topic,
  )

  -- Where the timer of a topic's only subscription fires between the two halves of a Subscribe, the new
  -- subscription is put into a set that no topic has any more: nothing that is published on its topic
  -- reaches it, and its own timer panics.
  pub orphan_panics :
      (s : Subscription I) (item : I)
      → get ps.subscriptions topic ≡ some k
      → set_at ps k ≡ n ∷ []
      → get ps.subs n ≡ some s
      → s.topic ≡ topic
      → n < ps.next_sub
      → (ps' : PubSub I) × (run (finding topic ttl ∷ expiring n ∷ adding k ps.next_sub ∷ []) ps
          ≡ some ps')
        × (publish topic item ps' ≡ (ps', some no_subscribers))
        × (expire ps.next_sub ps' ≡ none)
  unfolding run step
  orphan_panics s item found only sub of_topic old = (
    orphaned,
    ground (arith, find-started found, expire-emptied s found only sub of_topic old, add-orphaned),
    nobody_hears item,
    timer_panics,
  )
