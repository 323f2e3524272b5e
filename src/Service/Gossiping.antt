-- ===== src/Service/Gossiping.antt =====
-- Which messages of a batch go out in which channel (gossip/gossip.go, gossipInChan).
use mathlib.Core.List.{Permᴰ, append-nil}
use grpc_gossip.Prelude.{
  ℕ, ℤ, ◌+◌, ◌≡◌, refl, Slice, string_of, is_empty, str_eq_iff, bytes_equal, Bool, true, false, not,
  ◌&&◌, ◌||◌, is_some, Option, some, List, [], ◌∷◌, ◌++◌, map, filter, any, length, arith,
  Option-cases, Bool-cases, inl, inr, if◌then◌else◌, ap, ◌∙◌,
}
use grpc_gossip.Message.{SignedGossipMessage}
use grpc_gossip.Random.{index_in_slice, count_from}
use grpc_gossip.Selecting.{Peer, RemotePeer, RoutingFilter}
use grpc_gossip.Selecting.Chosen.{select_peers_returns}
use grpc_gossip.Channel.State.{Env, GossipChannel}
use grpc_gossip.Channel.Joining.{ChannelState, get_gossip_channel_by_chain_id}
use grpc_gossip.Service.Forwarding.{partition_messages}
use grpc_gossip.Service.Batches.{
  Emitted, Sent, grabs, channel_of, to_all, fan_out, to_channel, gossip_channels, total_channels,
  gossip_in_chan,
}

partition_lem {ℓ} :
    {A : Type ℓ} (pred : A → Bool) (xs : List A)
    → ((partition_messages pred xs).0 ≡ filter pred xs)
      × ((partition_messages pred xs).1 ≡ filter (λ x. not (pred x)) xs)
unfolding partition_messages
partition_lem pred [] = (refl, refl)
partition_lem pred (x ∷ xs) =
    let (a, b) = partition_lem pred xs in (ground (arith, a), ground (arith, b))

-- equal channels are the same to every test
same_tests : (a b c : Slice) → bytes_equal a b ≡ true → bytes_equal a c ≡ bytes_equal b c
same_tests a b c same = ground (arith, str_eq_iff (string_of a) (string_of b))

abbrev pub messages_of : Slice → List Sent → List SignedGossipMessage
messages_of d sent = map (λ s. s.0) (filter (λ s. bytes_equal s.0.message.channel d) sent)

messages_of-append :
    (d : Slice) (s t : List Sent) → messages_of d (s ++ t) ≡ messages_of d s ++ messages_of d t
messages_of-append d [] t = refl
messages_of-append d (x ∷ s) t = ground (arith, messages_of-append d s t)

messages_of-to_all :
    (d : Slice) (peers : List RemotePeer) (es : List Emitted)
    → messages_of d (map (to_all peers) es) ≡ map (λ e. e.message) (filter (grabs d) es)
messages_of-to_all d peers [] = refl
messages_of-to_all d peers (e ∷ es) = ground (arith, messages_of-to_all d peers es)

-- the messages of a channel among those of a channel, and among the others
grabbed :
    (c d : Slice) (es : List Emitted)
    → filter (grabs d) (filter (grabs c) es) ≡ (if bytes_equal c d then filter (grabs d) es else [])
grabbed c d [] = ground arith
grabbed c d (e ∷ es) = ground (
  arith,
  grabbed c d es,
  str_eq_iff (string_of (channel_of e)) (string_of c),
  str_eq_iff (string_of (channel_of e)) (string_of d),
  str_eq_iff (string_of c) (string_of d),
)

remaining :
    (c d : Slice) (es : List Emitted)
    → filter (grabs d) (filter (λ e. not (grabs c e)) es)
      ≡ (if bytes_equal c d then [] else filter (grabs d) es)
remaining c d [] = ground arith
remaining c d (e ∷ es) = ground (
  arith,
  remaining c d es,
  str_eq_iff (string_of (channel_of e)) (string_of c),
  str_eq_iff (string_of (channel_of e)) (string_of d),
  str_eq_iff (string_of c) (string_of d),
)

abbrev is_in : Slice → List Slice → Bool
is_in d = any (λ c. bytes_equal c d)

index_in_slice-is_in :
    (cs : List Slice) (d : Slice) (i : ℕ) → is_some (index_in_slice bytes_equal cs d i) ≡ is_in d cs
unfolding index_in_slice
index_in_slice-is_in [] d i = refl
index_in_slice-is_in (c ∷ cs) d i = ground (arith, index_in_slice-is_in cs d (i + 1))

any-append {ℓ} :
    {A : Type ℓ} (p : A → Bool) (xs ys : List A) → any p (xs ++ ys) ≡ (any p xs || any p ys)
any-append p [] ys = refl
any-append p (x ∷ xs) ys = ground (arith, any-append p xs ys)

total_channels-is_in :
    (d : Slice) (es : List Emitted) (total : List Slice)
    → is_in d (total_channels es total)
      ≡ (is_in d total || (not (is_empty (string_of d)) && any (grabs d) es))
unfolding total_channels
total_channels-is_in d [] total = ground arith
total_channels-is_in d (e ∷ es) total = ground (
  arith,
  total_channels-is_in d es total,
  total_channels-is_in d es (total ++ channel_of e ∷ []),
  index_in_slice-is_in total (channel_of e) 0,
  any-append (λ c. bytes_equal c d) total (channel_of e ∷ []),
  str_eq_iff (string_of (channel_of e)) (string_of d),
)

filter-none {ℓ} : {A : Type ℓ} (p : A → Bool) (xs : List A) → any p xs ≡ false → filter p xs ≡ []
filter-none p [] h = refl
filter-none p (x ∷ xs) h = ground (arith, filter-none p xs, h)

abbrev pub is_joined : ChannelState → Slice → Bool
is_joined cs d = is_some (get_gossip_channel_by_chain_id cs d)

joined_same :
    (cs : ChannelState) (c d : Slice) → bytes_equal c d ≡ true → is_joined cs c ≡ is_joined cs d
unfolding get_gossip_channel_by_chain_id
joined_same cs c d same = ground (arith, same, str_eq_iff (string_of c) (string_of d))

module _ (env : Env) (cs : ChannelState) (membership : List Peer) (propagate_peer_num : ℤ)
    (perms : ℕ → List ℕ) (shuffled : (n : ℕ) → Permᴰ (perms n) (count_from 0 (length membership)))
    (factory : GossipChannel → RoutingFilter) where
  -- what goes out in each channel
  abbrev pub Sends : (Slice → List SignedGossipMessage) → Option (ℕ × List Sent) → Type 0
  Sends f o =
      (j : ℕ) × (sent : List Sent) × (o ≡ some (j, sent)) × ((d : Slice) → messages_of d sent ≡ f d)

  to_channel_lem :
      (c : Slice) (i : ℕ) (es : List Emitted)
      → Sends
          (λ d. if is_joined cs c then map (λ e. e.message) (filter (grabs d) es) else [])
          (to_channel env cs membership propagate_peer_num perms factory c i es)
  unfolding to_channel
  to_channel_lem c i [] = (i, [], refl, λ d. ground arith)
  to_channel_lem c i (m ∷ ms) = elim (Option-cases (get_gossip_channel_by_chain_id cs c)) [
    | inl unknown ↦ (i, [], ground (arith, unknown), λ d. ground (arith, unknown))
    | inr (gc, joined) ↦
        let (peers, done) =
          select_peers_returns (fan_out env cs membership propagate_peer_num perms m) membership
            (factory gc) (perms i) (shuffled i) in
        (
          i + 1,
          map (to_all peers) (m ∷ ms),
          ground (arith, joined, done),
          λ d. ground (arith, joined, messages_of-to_all d peers (m ∷ ms)),
        )
  ]

  abbrev expected : List Slice → List Emitted → Slice → List SignedGossipMessage
  expected channels es d =
      if is_in d channels && is_joined cs d then map (λ e. e.message) (filter (grabs d) es) else []

  expected_step :
      (c d : Slice) (channels : List Slice) (es : List Emitted)
      → (if is_joined cs c
            then map (λ e. e.message) (filter (grabs d) (partition_messages (grabs c) es).0)
            else [])
          ++ expected channels (partition_messages (grabs c) es).1 d
        ≡ expected (c ∷ channels) es d
  expected_step c d channels es =
      let (mine, others) = partition_lem (grabs c) es in
      let now = ap (filter (grabs d)) mine ∙ grabbed c d es in
      let later = ap (filter (grabs d)) others ∙ remaining c d es in
      elim (Bool-cases (bytes_equal c d)) [
        | inl same ↦ ground (
          arith,
          now,
          later,
          same,
          joined_same cs c d same,
          append-nil (map (λ e. e.message) (filter (grabs d) es)),
        )
        | inr apart ↦ ground (arith, now, later, apart)
      ]

  gossip_channels_lem :
      (channels : List Slice) (i : ℕ) (es : List Emitted)
      → Sends
          (expected channels es)
          (gossip_channels env cs membership propagate_peer_num perms factory channels i es)
  unfolding gossip_channels
  gossip_channels_lem [] i es = (i, [], refl, λ d. refl)
  gossip_channels_lem (c ∷ channels) i es =
      let (j, s, done, out) = to_channel_lem c i (partition_messages (grabs c) es).0 in
      let (k, t, then', more) =
        gossip_channels_lem channels j (partition_messages (grabs c) es).1 in
      (
        k,
        s ++ t,
        ground (arith, done, then'),
        λ d. messages_of-append d s t ∙ (rw (out d, more d) (expected_step c d channels es)),
      )

  -- When the permutations drawn are permutations of the peers, gossipInChan returns, and in each channel
  -- exactly the messages of the batch that carry its name go out, each once and in their order, if
  -- this peer has joined the channel and its name is not empty, and none otherwise.
  pub gossip_in_chan_lem :
      (i : ℕ) (es : List Emitted)
      → (j : ℕ) × (sent : List Sent) × (gossip_in_chan env cs membership propagate_peer_num perms
            factory i es
          ≡ some (j, sent))
        × ((d : Slice)
            → messages_of d sent ≡ (
                if not (is_empty (string_of d)) && is_joined cs d
                then map (λ e. e.message) (filter (grabs d) es)
                else []))
  unfolding gossip_in_chan
  gossip_in_chan_lem i [] = (i, [], refl, λ d. ground arith)
  gossip_in_chan_lem i (m ∷ ms) =
      let (j, sent, done, out) = gossip_channels_lem (total_channels (m ∷ ms) []) i (m ∷ ms) in
      (
        j,
        sent,
        done,
        λ d.
            ground
              (arith, out d, total_channels-is_in d (m ∷ ms) [], filter-none (grabs d) (m ∷ ms)),
      )
