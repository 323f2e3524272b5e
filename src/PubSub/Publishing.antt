-- ===== src/PubSub/Publishing.antt =====
-- Who hears what is published (gossip/common.go, PubSub), and how much is kept.
use grpc_gossip.Prelude.{
  ℕ, ◌≤◌, ◌≡◌, refl, Str, Bool, true, false, Option, none, some, ◌>>=◌, List, [], ◌∷◌, length,
  length-append, Holds, Holds-bind, Holds-some, Map, get, put, get-put, All-put, All-get, All,
  nat_eq, string_eq, arith, if◌then◌else◌, Option-cases, inl, inr, ==_iff,
}
use mathlib.Core.Path.{subst}
use grpc_gossip.Errors.{Result}
use grpc_gossip.Sets
use grpc_gossip.PubSub.{
  subscription_buff_size, Subscription, PubSub, set_at, offer, offer_all, publish, subscribe_find,
  subscribe_add, expire, listen, received, taken_out, Event, finding, adding, publishing, expiring,
  listening, step, run, new_pub_sub,
}

-- no subscription is listed twice, as in a set
abbrev pub Distinct : List ℕ → Type 0
Distinct [] = Unit
Distinct (n ∷ ns) = (Sets.exists ns n ≡ false) × Distinct ns

module _ {I : Type 0} where
  abbrev pub heard : I → Option (Subscription I) → Option (Subscription I)
  heard item none = none
  heard item (some s) = some (offer item s)

  offer_all_lem :
      (item : I) (ns : List ℕ) (subs : Map ℕ (Subscription I)) (j : ℕ)
      → Distinct ns
      → get (offer_all item ns subs) j
        ≡ (if Sets.exists ns j then heard item (get subs j) else get subs j)
  unfolding offer_all Sets.exists
  offer_all_lem item [] subs j d = refl
  offer_all_lem item (n ∷ ns) subs j d = elim (Option-cases (get subs n)) [
    | inl unknown ↦ ground (arith, unknown, offer_all_lem item ns subs j d.1, ==_iff n j, d.0)
    | inr (s, found) ↦ ground (
      arith,
      found,
      offer_all_lem item ns (put subs n (offer item s)) j d.1,
      get-put subs n j (offer item s),
      ==_iff n j,
      d.0,
    )
  ]

  -- What is published on a topic with subscribers goes to the end of the buffer of each subscription of
  -- the topic that has room; a full one misses it, and the others are left alone, if nothing comes between.
  pub publish_lem :
      (topic : Str) (item : I) (ps : PubSub I) (k : ℕ)
      → get ps.subscriptions topic ≡ some k
      → Distinct (set_at ps k)
      → ((publish topic item ps).1 ≡ none)
        × ((j : ℕ)
            → get (publish topic item ps).0.subs j
              ≡ (if Sets.exists (set_at ps k) j then heard item (get ps.subs j) else get ps.subs j))
  unfolding publish
  publish_lem topic item ps k found d = (
    rw (found, publish) refl,
    λ j. rw (found, publish) (offer_all_lem item (set_at ps k) ps.subs j d),
  )

  abbrev pub IsBounded : PubSub I → Type 0
  IsBounded ps = All (λ e. length e.1.buffer ≤ subscription_buff_size) ps.subs

  offer-bound :
      (item : I) (s : Subscription I)
      → length s.buffer ≤ subscription_buff_size
      → length (offer item s).buffer ≤ subscription_buff_size
  offer-bound item s h = ground (arith, length-append s.buffer (item ∷ []))

  abbrev Fits : ℕ × Subscription I → Type 0
  Fits e = length e.1.buffer ≤ subscription_buff_size

  offer_all-bound :
      (item : I) (ns : List ℕ) (subs : Map ℕ (Subscription I))
      → All Fits subs
      → All Fits (offer_all item ns subs)
  unfolding offer_all
  offer_all-bound item [] subs h = h
  offer_all-bound item (n ∷ ns) subs h = elim (Option-cases (get subs n)) [
    | inl unknown ↦ rw unknown (offer_all-bound item ns subs h)
    | inr (s, found) ↦ rw found (
        offer_all-bound item ns (put subs n (offer item s)) (
          All-put Fits subs n (offer item s)
            (offer-bound item s
              (All-get (λ s. length s.buffer ≤ subscription_buff_size) subs n s h found))
            h))
  ]

  subscribe_find-bound :
      (topic : Str) (ttl : ℕ) (ps : PubSub I)
      → IsBounded ps
      → IsBounded (subscribe_find topic ttl ps).0
  unfolding subscribe_find
  subscribe_find-bound topic ttl ps h =
      let fresh : All Fits
          (put ps.subs ps.next_sub (record { topic = topic; ttl = ttl; buffer = [] })) =
        All-put Fits ps.subs ps.next_sub (record { topic = topic; ttl = ttl; buffer = [] })
          (omega arith) h in
      elim (Option-cases (get ps.subscriptions topic)) [
        | inl none_yet ↦ rw (none_yet, subscribe_find) fresh
        | inr (k, found) ↦ rw (found, subscribe_find) fresh
      ]

  publish-bound :
      (topic : Str) (item : I) (ps : PubSub I) → IsBounded ps → IsBounded (publish topic item ps).0
  unfolding publish
  publish-bound topic item ps h = elim (Option-cases (get ps.subscriptions topic)) [
    | inl none_yet ↦ rw (none_yet, publish) h
    | inr (k, found) ↦ rw (found, publish) (offer_all-bound item (set_at ps k) ps.subs h)
  ]

  expire-bound : (n : ℕ) (ps : PubSub I) → IsBounded ps → Holds IsBounded (expire n ps)
  unfolding expire
  expire-bound n ps h = Holds-bind IsBounded (get ps.subs n) _ (λ s _.
      Holds-bind IsBounded (get ps.subscriptions s.topic) _ (λ k _.
        let same : ps.subs ≡ (taken_out s.topic k (Sets.remove (set_at ps k) n) ps).subs =
          ground arith in
        subst (All Fits) same h))

  received-bound :
      (n : ℕ) (s : Subscription I) (buffer : List I) (ps : PubSub I)
      → length buffer ≤ subscription_buff_size
      → IsBounded ps
      → Holds (λ (r : PubSub I × Result I). IsBounded r.0) (received n s buffer ps)
  received-bound n s [] ps few h = tt
  received-bound n s (item ∷ buffer) ps few h =
      All-put Fits ps.subs n (record s { buffer = buffer }) (omega arith) h

  listen-bound :
      (first : Bool) (n : ℕ) (ps : PubSub I)
      → IsBounded ps
      → Holds (λ (r : PubSub I × Result I). IsBounded r.0) (listen first n ps)
  unfolding listen
  listen-bound true n ps h = h
  listen-bound false n ps h = Holds-bind _ (get ps.subs n) _ (λ s found.
      received-bound n s s.buffer ps
        (All-get (λ s. length s.buffer ≤ subscription_buff_size) ps.subs n s h found) h)

  after :
      (o : Option (PubSub I × Result I))
      → Holds (λ (r : PubSub I × Result I). IsBounded r.0) o
      → Holds IsBounded (o >>= λ r. some r.0)
  after none h = tt
  after (some (ps, r)) h = h

  step-bound : (ev : Event I) (ps : PubSub I) → IsBounded ps → Holds IsBounded (step ev ps)
  unfolding step subscribe_add
  step-bound (finding topic ttl) ps h = subscribe_find-bound topic ttl ps h
  step-bound (adding k n) ps h = h
  step-bound (publishing topic item) ps h = publish-bound topic item ps h
  step-bound (expiring n) ps h = expire-bound n ps h
  step-bound (listening first n) ps h = after (listen first n ps) (listen-bound first n ps h)

  run-Bounded :
      (events : List (Event I)) (ps : PubSub I) → IsBounded ps → Holds IsBounded (run events ps)
  unfolding run
  run-Bounded [] ps h = h
  run-Bounded (ev ∷ events) ps h =
      Holds-bind IsBounded (step ev ps) (run events)
        (λ q stepped. run-Bounded events q (Holds-some IsBounded _ q (step-bound ev ps h) stepped))

  -- In whatever order subscriptions, publications that nothing comes between, timers and receptions
  -- follow on one another, no buffer ever holds more than subscriptionBuffSize items.
  pub run_bounded :
      (events : List (Event I)) (ps : PubSub I)
      → run events new_pub_sub ≡ some ps
      → All (λ e. length e.1.buffer ≤ subscription_buff_size) ps.subs
  run_bounded events ps ran =
      Holds-some IsBounded (run events new_pub_sub) ps (run-Bounded events new_pub_sub tt) ran
