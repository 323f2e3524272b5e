-- ===== src/Service/Finishing.antt =====
-- When sending a batch returns (gossip/gossip.go, sendGossipBatch).
use mathlib.Core.List.{Permᴰ}
use grpc_gossip.Prelude.{
  All-map, ℕ, ℤ, ◌+◌, ◌≡◌, refl, Bool, true, not, is_some, Option, some, List, [], ◌∷◌, length, All,
  Holds-some, arith, Option-cases, Bool-cases, inl, inr,
}
use grpc_gossip.Types.{get_alive_msg, get_state_info}
use grpc_gossip.Message.{SignedGossipMessage}
use grpc_gossip.Random.{count_from}
use grpc_gossip.Selecting.{Peer, RemotePeer, combine_routing_filters}
use grpc_gossip.Selecting.Chosen.{select_peers_returns}
use grpc_gossip.Discovery.State.{alive_of}
use grpc_gossip.Channel.State.{Env}
use grpc_gossip.Channel.Joining.{ChannelState}
use grpc_gossip.Service.Orgs.{Orgs, is_in_my_org, strip_message}
use grpc_gossip.Service.Forwarding.{partition_messages, send_alive}
use grpc_gossip.Service.Parting.{partition-All, Parts, partition_checked-All}
use grpc_gossip.Service.Gossiping.{gossip_in_chan_lem}
use grpc_gossip.Service.Batches.{
  Emitted, Sent, is_a_block, is_leadership, is_a_state_info, passes, in_channel_and_org, in_my_org,
  state_info_selector, stays_in_org, alive_selector, partition_checked, send_state_infos,
  send_alives, send_rest, send_parts, send_gossip_batch,
}

-- an alive message says whose it is; its envelope is there
abbrev pub IsSendable : Emitted → Type 0
IsSendable e =
    (is_some (get_alive_msg e.message.message.content) ≡ true → is_some (alive_of e.message) ≡ true)
    × (is_some e.message.envelope ≡ true)

send_alive_returns :
    (o : Orgs) (foreign : Bool) (peers : List RemotePeer) (m : SignedGossipMessage)
    → is_some m.envelope ≡ true
    → is_some (send_alive o foreign peers m) ≡ true
unfolding send_alive
send_alive_returns o foreign [] m h = refl
send_alive_returns o foreign (p ∷ peers) m h = elim (Option-cases m.envelope) [
  | inl bare ↦ absurd (ground (arith, bare, h))
  | inr (e, env) ↦ ground (
    arith,
    env,
    send_alive_returns o foreign peers m h,
    send_alive_returns o foreign peers (strip_message m e) refl,
  )
]

partition_checked_returns :
    (pred : Emitted → Option Bool) (es : List Emitted)
    → All (λ e. is_some (pred e) ≡ true) es
    → is_some (partition_checked pred es) ≡ true
unfolding partition_checked
partition_checked_returns pred [] h = refl
partition_checked_returns pred (e ∷ es) h =
    ground (arith, h.0, partition_checked_returns pred es h.1)

module _ (env : Env) (cs : ChannelState) (membership : List Peer) (propagate_peer_num : ℤ)
    (perms : ℕ → List ℕ)
    (shuffled : (n : ℕ) → Permᴰ (perms n) (count_from 0 (length membership))) where
  infos_return :
      (i : ℕ) (es : List Emitted)
      → All (λ e. is_a_state_info e ≡ true) es
      → is_some (send_state_infos env cs membership propagate_peer_num perms i es) ≡ true
  unfolding send_state_infos
  infos_return i [] h = refl
  infos_return i (e ∷ es) h = elim (Option-cases (get_state_info e.message.message.content)) [
    | inl none' ↦ absurd (ground (arith, none', h.0))
    | inr (si, info) ↦
        let f = combine_routing_filters (state_info_selector env cs e si ∷ passes e.filter ∷ []) in
        let (peers, chosen) =
          select_peers_returns propagate_peer_num membership f (perms i) (shuffled i) in
        ground (arith, info, chosen, infos_return (i + 1) es h.1)
  ]

  alives_return :
      (i : ℕ) (es : List Emitted)
      → All IsSendable es
      → is_some (send_alives env cs membership propagate_peer_num perms i es) ≡ true
  unfolding send_alives
  alives_return i [] h = refl
  alives_return i (e ∷ es) h =
      elim (Bool-cases (is_some (get_alive_msg e.message.message.content))) [
        | inr other ↦ rw (send_alives, other) (alives_return i es h.1)
        | inl alive ↦ elim (Option-cases (alive_of e.message)) [
          | inl bare ↦ absurd (ground (arith, bare, h.0.0 alive))
          | inr ((am, mem), a) ↦
              let (peers, chosen) =
                select_peers_returns propagate_peer_num membership (alive_selector env e mem)
                  (perms i) (shuffled i) in
              ground (
                arith,
                alive,
                a,
                chosen,
                alives_return (i + 1) es h.1,
                send_alive_returns env.orgs (not (is_in_my_org env.orgs mem.pki_id)) peers e.message
                    h.0.1,
              )
        ]
      ]

  sorts : (e : Emitted) → IsSendable e → is_some (stays_in_org env e) ≡ true
  unfolding stays_in_org
  sorts e h = elim (Option-cases (get_alive_msg e.message.message.content)) [
    | inl no_alive ↦ ground (arith, no_alive)
    | inr (am, alive) ↦ elim (Option-cases am.membership) [
      | inl bare ↦ absurd (ground (arith, alive, bare, h.0 (ground (arith, alive))))
      | inr (mem, known) ↦ ground (arith, alive, known)
    ]
  ]

  rest_returns :
      (i : ℕ) (es : List Emitted)
      → All IsSendable es
      → is_some (send_rest env cs membership propagate_peer_num perms i es) ≡ true
  unfolding send_rest
  rest_returns i es h = elim (Option-cases (partition_checked (stays_in_org env) es)) [
    | inl panic ↦ absurd (
        ground (
          arith,
          panic,
          partition_checked_returns (stays_in_org env) es (All-map IsSendable _ es sorts h),
        ))
    | inr ((org_msgs, msgs), parted) ↦
        let (staying, going) =
          Holds-some (Parts IsSendable (stays_in_org env)) _ (org_msgs, msgs)
            (partition_checked-All IsSendable (stays_in_org env) es h) parted in
        let (peers, chosen) =
          select_peers_returns propagate_peer_num membership (in_my_org env) (perms i)
            (shuffled i) in
        let more = alives_return (i + 1) msgs (All-map _ IsSendable msgs (λ e p. p.0) going) in
        ground (arith, parted, chosen, more)
  ]

  parts_return :
      (blocks leaders infos msgs : List Emitted)
      → All (λ e. is_a_state_info e ≡ true) infos
      → All IsSendable msgs
      → is_some (send_parts env cs membership propagate_peer_num perms blocks leaders infos msgs)
        ≡ true
  unfolding send_parts
  parts_return blocks leaders infos msgs f o =
      let factory = in_channel_and_org env in
      let (i, s1, d1, out1) =
        gossip_in_chan_lem env cs membership propagate_peer_num perms shuffled factory 0 blocks in
      let (j, s2, d2, out2) =
        gossip_in_chan_lem env cs membership propagate_peer_num perms shuffled factory i leaders in
      elim (Option-cases (send_state_infos env cs membership propagate_peer_num perms j infos)) [
        | inl panic ↦ absurd (ground (arith, panic, infos_return j infos f))
        | inr ((k, s3), d3) ↦ ground (arith, d1, d2, d3, rest_returns k msgs o)
      ]

  -- When the permutations drawn are permutations of the peers, each alive message of a batch says whose
  -- it is and every message has its envelope, sendGossipBatch returns, whatever the batch holds
  -- otherwise: blocks without payload, messages of unknown channels, peers it has never heard of.
  pub batch_returns :
      (a : List Emitted)
      → All IsSendable a
      → (n : ℕ) × (sent : List Sent) × (send_gossip_batch env cs membership propagate_peer_num perms
            a
          ≡ some (n, sent))
  unfolding send_gossip_batch
  batch_returns a h =
      let first = partition_messages is_a_block a in
      let second = partition_messages is_leadership first.1 in
      let third = partition_messages is_a_state_info second.1 in
      let (blocks, no_blocks) = partition-All IsSendable is_a_block a h in
      let (leaders, no_leaders) = partition-All _ is_leadership first.1 no_blocks in
      let (infos, msgs) = partition-All _ is_a_state_info second.1 no_leaders in
      let returned =
        parts_return first.0 second.0 third.0 third.1
          (All-map _ (λ e. is_a_state_info e ≡ true) third.0 (λ e p. p.1) infos)
          (All-map _ IsSendable third.1 (λ e p. p.0.0.0) msgs) in
      elim (Option-cases (send_gossip_batch env cs membership propagate_peer_num perms a)) [
        | inl panic ↦ absurd (ground (arith, panic, returned))
        | inr ((n, sent), done) ↦ (n, sent, done)
      ]
