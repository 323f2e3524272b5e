-- ===== src/PubSub.antt =====
-- Publish and subscribe (gossip/common.go: PubSub, Subscription). A set of subscriptions is shared
-- between the map and a Subscribe that is under way, so the sets live in a store of their own and are
-- named by numbers. A step is what runs under one lock: a Subscribe is two. A buffer is a queue, oldest
-- first. `none` is a panic, or a wait. Publish holds only a read lock, so it is a Publisher that goes on in
-- steps, one for the test of a buffer and one for the send, between which other publishers may come;
-- `publish` is one that nothing comes between.
pub mod Publishing
pub mod Orphans
pub mod Crowding
use grpc_gossip.Prelude.{
  ℕ, suc, ◌+◌, Str, Bool, true, false, not, Option, none, some, ◌>>=◌, List, [], ◌∷◌, ◌++◌, length,
  Map, get, put, delete, string_eq, nat_eq, ◌==◌, if◌then◌else◌,
}
use grpc_gossip.Errors.{Error, no_subscribers, timed_out, Result, ok, err}
use grpc_gossip.Sets

-- subscriptionBuffSize
abbrev pub subscription_buff_size : ℕ
subscription_buff_size = 50

pub record Subscription (I : Type 0) : Type 0 where
  pub topic : Str
  pub ttl : ℕ
  pub buffer : List I

pub record PubSub (I : Type 0) : Type 0 where
  -- the set of each topic
  pub subscriptions : Map Str ℕ
  -- the sets, each the numbers of its subscriptions
  pub sets : Map ℕ (List ℕ)
  pub subs : Map ℕ (Subscription I)
  -- the next number of a set, and of a subscription
  pub next_set : ℕ
  pub next_sub : ℕ

-- a Publish under way: the subscriptions that it has still to look at, and the one whose buffer it has
-- found to have room
pub record Publisher (I : Type 0) : Type 0 where
  pub item : I
  pub left : List ℕ
  pub sending : Option ℕ

abbrev pub or_none : Option (List ℕ) → List ℕ
or_none none = []
or_none (some s) = s

abbrev is_none_left : List ℕ → Bool
is_none_left [] = true
is_none_left (n ∷ s) = false

module _ {I : Type 0} where
  -- `NewPubSub`
  abbrev pub new_pub_sub : PubSub I
  new_pub_sub = record { subscriptions = []; sets = []; subs = []; next_set = 0; next_sub = 0 }

  -- the items of a set
  abbrev pub set_at : PubSub I → ℕ → List ℕ
  set_at ps k = or_none (get ps.sets k)

  -- `len(c) == subscriptionBuffSize`
  abbrev pub is_full : Subscription I → Bool
  is_full s = length s.buffer == subscription_buff_size

  abbrev pub pushed : I → Subscription I → Subscription I
  pushed item s = record s { buffer = s.buffer ++ item ∷ [] }

  -- the test and the send, with nothing between them
  abbrev pub offer : I → Subscription I → Subscription I
  offer item s = if is_full s then s else pushed item s

  abbrev offered : I → Option (Subscription I) → ℕ → Map ℕ (Subscription I) → Map ℕ (Subscription I)
  offered item none n subs = subs
  offered item (some s) n subs = put subs n (offer item s)

  -- the loop of `Publish`, with nothing between
  unfoldable pub offer_all : I → List ℕ → Map ℕ (Subscription I) → Map ℕ (Subscription I)
  offer_all item [] subs = subs
  offer_all item (n ∷ ns) subs = offer_all item ns (offered item (get subs n) n subs)

  -- a `Publish` that nothing comes between
  unfoldable pub publish : Str → I → PubSub I → PubSub I × Option Error
  unfolding offer_all
  publish topic item ps = elim (get ps.subscriptions topic) [
    | none ↦ (ps, some no_subscribers)
    | some k ↦ (record ps { subs = offer_all item (set_at ps k) ps.subs }, none)
  ]

  -- a turn of the loop: the test of the next subscription's buffer
  abbrev pub tested : ℕ → Option (Subscription I) → Publisher I → Publisher I
  tested n none p = p
  tested n (some s) p = if is_full s then p else record p { sending = some n }

  -- `c <- item`, which waits while the buffer is full
  abbrev pub sent : ℕ → I → Option (Subscription I) → PubSub I → Option (PubSub I)
  sent n item none ps = some ps
  sent n item (some s) ps =
      if is_full s then none else some (record ps { subs = put ps.subs n (pushed item s) })

  -- what a Publish does next
  unfoldable pub publisher_step : Publisher I → PubSub I → Option (Publisher I × PubSub I)
  publisher_step p ps = elim p.sending [
    | some n ↦ sent n p.item (get ps.subs n) ps >>= λ ps'. some (record p { sending = none }, ps')
    | none ↦ elim p.left [
      | [] ↦ some (p, ps)
      | n ∷ ns ↦ some (tested n (get ps.subs n) (record p { left = ns }), ps)
    ]
  ]

  -- `Publish` up to its loop
  unfoldable pub start_publish : Str → I → PubSub I → Result (Publisher I)
  start_publish topic item ps = elim (get ps.subscriptions topic) [
    | none ↦ err no_subscribers
    | some k ↦ ok (record { item = item; left = set_at ps k; sending = none })
  ]

  -- `Subscribe` up to its Unlock: the set that it found or made, and the subscription
  unfoldable pub subscribe_find : Str → ℕ → PubSub I → PubSub I × ℕ × ℕ
  subscribe_find topic ttl ps =
      let ps' = record ps {
        subs = put ps.subs ps.next_sub (record { topic = topic; ttl = ttl; buffer = [] });
        next_sub = suc ps.next_sub;
      } in
      elim (get ps.subscriptions topic) [
        | some k ↦ (ps', k, ps.next_sub)
        | none ↦ (
          record ps' {
            subscriptions = put ps.subscriptions topic ps.next_set;
            sets = put ps.sets ps.next_set [];
            next_set = suc ps.next_set;
          },
          ps.next_set,
          ps.next_sub,
        )
      ]

  -- `s.Add(sub)`
  unfoldable pub subscribe_add : ℕ → ℕ → PubSub I → PubSub I
  subscribe_add k n ps = record ps { sets = put ps.sets k (Sets.add (set_at ps k) n) }

  -- a `Subscribe` that nothing comes between
  unfoldable pub subscribe : Str → ℕ → PubSub I → PubSub I × ℕ
  unfolding subscribe_find subscribe_add
  subscribe topic ttl ps =
      let (ps', k, n) = subscribe_find topic ttl ps in (subscribe_add k n ps', n)

  abbrev pub taken_out : Str → ℕ → List ℕ → PubSub I → PubSub I
  taken_out topic k left ps =
      let ps' = record ps { sets = put ps.sets k left } in
      if not (is_none_left left)
      then ps'
      else record ps' { subscriptions = delete ps.subscriptions topic }

  -- the function of Subscribe's timer; `none` is the nil set that it follows
  unfoldable pub expire : ℕ → PubSub I → Option (PubSub I)
  expire n ps = get ps.subs n >>= λ s. get ps.subscriptions s.topic >>= λ k.
      some (taken_out s.topic k (Sets.remove (set_at ps k) n) ps)

  abbrev pub received : ℕ → Subscription I → List I → PubSub I → Option (PubSub I × Result I)
  received n s [] ps = none
  received n s (item ∷ buffer) ps =
      some (record ps { subs = put ps.subs n (record s { buffer = buffer }) }, ok item)

  -- `Listen`; `first` says that the time to live is over first. `none` is a wait.
  unfoldable pub listen : Bool → ℕ → PubSub I → Option (PubSub I × Result I)
  listen first n ps =
      if first then some (ps, err timed_out) else (get ps.subs n >>= λ s. received n s s.buffer ps)

-- What may happen to it: the two halves of a Subscribe, a Publish, a timer, a Listen.
pub data Event (I : Type 0) : Type 0 where
  finding : Str → ℕ → Event I
  adding : ℕ → ℕ → Event I
  publishing : Str → I → Event I
  expiring : ℕ → Event I
  listening : Bool → ℕ → Event I

module _ {I : Type 0} where
  unfoldable pub step : Event I → PubSub I → Option (PubSub I)
  unfolding subscribe_find subscribe_add publish expire listen
  step (finding topic ttl) ps = some (subscribe_find topic ttl ps).0
  step (adding k n) ps = some (subscribe_add k n ps)
  step (publishing topic item) ps = some (publish topic item ps).0
  step (expiring n) ps = expire n ps
  step (listening first n) ps = listen first n ps >>= λ r. some r.0

  unfoldable pub run : List (Event I) → PubSub I → Option (PubSub I)
  unfolding step
  run [] ps = some ps
  run (ev ∷ events) ps = step ev ps >>= run events
