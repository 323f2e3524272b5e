-- ===== src/Service/Batches.antt =====
-- How a batch of the emitter is sent (gossip/gossip.go: sendGossipBatch, gossipInChan). A call of Comm.Send
-- is a pair of the message and the peers. `membership` is the result of GetMembership, `perms` are the
-- permutations that SelectPeers draws, the i-th call the i-th one; `none` is a panic.
use grpc_gossip.Prelude.{
  ℕ, ℤ, pos, ◌+◌, Slice, string_of, is_empty, bytes_equal, Bool, not, ◌&&◌, ◌||◌, is_some, Option,
  none, some, ◌>>=◌, List, [], ◌∷◌, ◌++◌, map, length, if◌then◌else◌,
}
use grpc_gossip.Types.{
  get_alive_msg, get_data_msg, get_leadership_msg, get_state_info, StateInfo, Member,
}
use grpc_gossip.Message.{SignedGossipMessage, is_org_restricted}
use grpc_gossip.Random.{index_in_slice}
use grpc_gossip.Selecting.{Peer, RemotePeer, RoutingFilter, combine_routing_filters, select_peers}
use grpc_gossip.Discovery.State.{alive_of}
use grpc_gossip.Channel.State.{Env, GossipChannel}
use grpc_gossip.Channel.Members.{eligible_for_channel, is_member_in_chan}
use grpc_gossip.Channel.Joining.{
  ChannelState, get_gossip_channel_by_chain_id, lookup_channel_for_gossip_msg,
}
use grpc_gossip.Service.Orgs.{is_in_my_org, has_external_endpoint, peers_by_origin_org_policy}
use grpc_gossip.Service.Forwarding.{partition_messages, remove_self_loop, send_alive}

-- `EmittedGossipMessage`
pub record Emitted : Type 0 where
  pub message : SignedGossipMessage
  pub filter : Slice → Bool

abbrev pub Sent : Type 0
Sent = SignedGossipMessage × List RemotePeer

-- the permutations drawn, and the calls of Comm.Send
abbrev pub Progress : Type 0
Progress = Option (ℕ × List Sent)

abbrev pub channel_of : Emitted → Slice
channel_of e = e.message.message.channel

abbrev pub is_leadership : Emitted → Bool
is_leadership e = is_some (get_leadership_msg e.message.message.content)

abbrev pub is_a_block : Emitted → Bool
is_a_block e = is_some (get_data_msg e.message.message.content)

abbrev pub is_a_state_info : Emitted → Bool
is_a_state_info e = is_some (get_state_info e.message.message.content)

abbrev pub grabs : Slice → Emitted → Bool
grabs c e = bytes_equal (channel_of e) c

-- `partitionMessages` with a test that may panic
unfoldable pub partition_checked :
    (Emitted → Option Bool) → List Emitted → Option (List Emitted × List Emitted)
partition_checked pred [] = some ([], [])
partition_checked pred (m ∷ a) = pred m >>= λ grabbed.
    partition_checked pred a >>= λ (s1, s2). some (if grabbed then (m ∷ s1, s2) else (s1, m ∷ s2))

-- the first loop of `gossipInChan`: the channels, in the order in which they occur
unfoldable pub total_channels : List Emitted → List Slice → List Slice
unfolding index_in_slice
total_channels [] total = total
total_channels (m ∷ messages) total =
    let same = total_channels messages total in
    let more = total_channels messages (total ++ channel_of m ∷ []) in
    if is_empty (string_of (channel_of m))
    then same
    else if is_some (index_in_slice bytes_equal total (channel_of m) 0)
    then same
    else more

abbrev pub to_all : List RemotePeer → Emitted → Sent
to_all peers e = (e.message, remove_self_loop e.filter peers)

abbrev pub passes : (Slice → Bool) → RoutingFilter
passes f p = f p.pki_id

abbrev pub singly : SignedGossipMessage × RemotePeer → Sent
singly (m, p) = (m, p ∷ [])

module _ (env : Env) where
  abbrev pub in_my_org : RoutingFilter
  in_my_org p = is_in_my_org env.orgs p.pki_id

  -- the routing filter of the blocks and of the leadership messages
  abbrev pub in_channel_and_org : GossipChannel → RoutingFilter
  in_channel_and_org gc =
      combine_routing_filters
        (eligible_for_channel env gc ∷ is_member_in_chan env gc ∷ in_my_org ∷ [])

  -- the peer selector of a state info
  unfoldable pub state_info_selector : ChannelState → Emitted → StateInfo → RoutingFilter
  unfolding is_member_in_chan is_in_my_org has_external_endpoint lookup_channel_for_gossip_msg
  state_info_selector cs m si =
      elim (lookup_channel_for_gossip_msg env.sha256 cs m.message.message) [
        | none ↦ in_my_org
        | some gc ↦
            if has_external_endpoint env.orgs si.pki_id then is_member_in_chan env gc else in_my_org
      ]

  -- `aliveMsgsWithNoEndpointAndInOurOrg`
  abbrev pub is_hidden : Member → Bool
  is_hidden mem = is_empty mem.endpoint && is_in_my_org env.orgs mem.pki_id

  -- `isOrgRestricted`
  unfoldable pub stays_in_org : Emitted → Option Bool
  unfolding is_in_my_org is_org_restricted
  stays_in_org m = elim (get_alive_msg m.message.message.content) [
    | none ↦ some (is_org_restricted m.message.message)
    | some am ↦ am.membership >>= λ mem. some (is_hidden mem || is_org_restricted m.message.message)
  ]

  abbrev pub alive_selector : Emitted → Member → RoutingFilter
  alive_selector m mem =
      combine_routing_filters
        (peers_by_origin_org_policy env.orgs mem.pki_id ∷ passes m.filter ∷ [])

module _ (env : Env) (cs : ChannelState) (membership : List Peer) (propagate_peer_num : ℤ)
    (perms : ℕ → List ℕ) where
  -- how many peers a message of a channel goes to
  abbrev pub fan_out : Emitted → ℤ
  fan_out m = if is_leadership m then pos (length membership) else propagate_peer_num

  -- the messages of a channel, if this peer has joined it
  unfoldable pub to_channel : (GossipChannel → RoutingFilter) → Slice → ℕ → List Emitted → Progress
  unfolding remove_self_loop get_gossip_channel_by_chain_id
  to_channel factory c i [] = some (i, [])
  to_channel factory c i (m ∷ ms) = elim (get_gossip_channel_by_chain_id cs c) [
    | none ↦ some (i, [])
    | some gc ↦ select_peers (fan_out m) membership (factory gc) (perms i) >>= λ peers.
        some (i + 1, map (to_all peers) (m ∷ ms))
  ]

  -- the second loop of `gossipInChan`
  unfoldable pub gossip_channels :
      (GossipChannel → RoutingFilter) → List Slice → ℕ → List Emitted → Progress
  unfolding partition_messages to_channel
  gossip_channels factory [] i messages = some (i, [])
  gossip_channels factory (c ∷ channels) i messages =
      let (grabbed, rest) = partition_messages (grabs c) messages in
      to_channel factory c i grabbed >>= λ (j, sent).
      gossip_channels factory channels j rest >>= λ (k, more). some (k, sent ++ more)

  -- `gossipInChan`
  unfoldable pub gossip_in_chan : (GossipChannel → RoutingFilter) → ℕ → List Emitted → Progress
  unfolding gossip_channels total_channels
  gossip_in_chan factory i [] = some (i, [])
  gossip_in_chan factory i (m ∷ ms) =
      gossip_channels factory (total_channels (m ∷ ms) []) i (m ∷ ms)

  unfoldable pub send_state_infos : ℕ → List Emitted → Progress
  unfolding state_info_selector
  send_state_infos i [] = some (i, [])
  send_state_infos i (m ∷ ms) = get_state_info m.message.message.content >>= λ si.
      select_peers propagate_peer_num membership
        (combine_routing_filters (state_info_selector env cs m si ∷ passes m.filter ∷ [])) (perms i)
      >>= λ peers. send_state_infos (i + 1) ms >>= λ (j, sent). some (j, (m.message, peers) ∷ sent)

  -- the last loop, over what is left of the batch
  unfoldable pub send_alives : ℕ → List Emitted → Progress
  unfolding send_alive peers_by_origin_org_policy is_in_my_org
  send_alives i [] = some (i, [])
  send_alives i (m ∷ ms) =
      if not (is_some (get_alive_msg m.message.message.content))
      then send_alives i ms
      else (alive_of m.message >>= λ (am, mem).
          select_peers propagate_peer_num membership (alive_selector env m mem) (perms i)
          >>= λ peers.
              send_alive env.orgs (not (is_in_my_org env.orgs mem.pki_id)) peers m.message
              >>= λ (left, sent).
                  send_alives (i + 1) ms >>= λ (j, more). some (j, map singly sent ++ more))

  -- the last two parts of a batch: what stays in the organization, and the alive messages
  unfoldable pub send_rest : ℕ → List Emitted → Progress
  unfolding partition_checked stays_in_org send_alives remove_self_loop
  send_rest i ms = partition_checked (stays_in_org env) ms >>= λ (org_msgs, msgs).
      select_peers propagate_peer_num membership (in_my_org env) (perms i) >>= λ peers.
      send_alives (i + 1) msgs >>= λ (j, sent). some (j, map (to_all peers) org_msgs ++ sent)

  -- the four parts of a batch, one after the other
  unfoldable pub send_parts : List Emitted → List Emitted → List Emitted → List Emitted → Progress
  unfolding gossip_in_chan send_state_infos send_rest
  send_parts blocks leaders infos msgs =
      gossip_in_chan (in_channel_and_org env) 0 blocks >>= λ (i, s1).
      gossip_in_chan (in_channel_and_org env) i leaders >>= λ (j, s2).
      send_state_infos j infos >>= λ (k, s3).
      send_rest k msgs >>= λ (l, s4). some (l, s1 ++ (s2 ++ (s3 ++ s4)))

  -- `sendGossipBatch`, where there is a discovery service
  unfoldable pub send_gossip_batch : List Emitted → Progress
  unfolding partition_messages send_parts
  send_gossip_batch a =
      let (blocks, no_blocks) = partition_messages is_a_block a in
      let (leaders, no_leaders) = partition_messages is_leadership no_blocks in
      let (infos, msgs) = partition_messages is_a_state_info no_leaders in
      send_parts blocks leaders infos msgs
