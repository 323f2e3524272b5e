-- ===== src/Channel/Receiving.antt =====
-- What a channel does with a message of a peer (gossip/channel.go: HandleMessage, verifyMsg,
-- createStateInfoSnapshot, handleStateInfoSnapshot). A handler returns the channel and its actions in
-- order. `now` is the clock at the call; `none` is a panic.
use grpc_gossip.Prelude.{
  ℕ, Slice, string_of, is_nil, is_empty, bytes_equal, Bool, true, false, not, ◌||◌, ◌&&◌, is_some,
  Option, none, some, ◌>>=◌, List, [], ◌∷◌, map, if◌then◌else◌,
}
use grpc_gossip.Errors.{ok, err}
use grpc_gossip.Types.{
  Envelope, StateInfo, DataUpdate, Content, data_msg, state_info, state_snapshot,
  state_info_pull_req, leadership_msg, data_update, block_msg, get_state_info,
  get_state_info_pull_req,
}
use grpc_gossip.Message.{
  SignedGossipMessage, invalidation_policy, is_channel_restricted, is_pull_msg, get_pull_msg_type,
}
use grpc_gossip.Store
use grpc_gossip.Store.{check_valid, get_items}
use grpc_gossip.Signing.{to_gossip_message}
use grpc_gossip.Selecting.{Peer}
use grpc_gossip.Discovery.State.{get_msg_by_id}
use grpc_gossip.Service.Orgs.{has_external_endpoint}
use grpc_gossip.Service.Validating.{validate_state_info_msg}
use grpc_gossip.Pull.Mediator
use grpc_gossip.Pull.Mediator.{PullMediator, Received, pull_type_eq}
use grpc_gossip.Channel.State.{
  Env, GossipChannel, Action, respond_snapshot, forward, deliver, pulling, generate_mac,
}
use grpc_gossip.Channel.Cache.{info_of, verify_state_info, cache_add}
use grpc_gossip.Channel.Members.{is_org_in_channel, eligible_and_same_org}
use grpc_gossip.Channel.Blocks.{payload_of, puller, verify_block_msg, add_block, offer_block}

-- `Peer{PKIid: id}`
abbrev pub bare_peer : Slice → Peer
bare_peer pki_id = record {
  endpoint = [];
  internal_endpoint = [];
  pki_id = pki_id;
  metadata = Slice.nil;
  properties = none;
  envelope = none;
}

module _ (env : Env) where
  abbrev pub mac_matches : GossipChannel → Slice → Slice → Bool
  mac_matches gc pki_id mac = bytes_equal (generate_mac env.sha256 pki_id gc.chain_id) mac

  abbrev verify_content : GossipChannel → Slice → SignedGossipMessage → Bool
  verify_content gc sender m = elim (get_state_info m.message.content) [
    | some si ↦ mac_matches gc si.pki_id si.channel_mac
    | none ↦ elim (get_state_info_pull_req m.message.content) [
      | some mac ↦ mac_matches gc sender mac
      | none ↦ bytes_equal m.message.channel gc.chain_id
    ]
  ]

  -- `verifyMsg`, for a message with a connection
  unfoldable pub verify_msg : GossipChannel → Slice → SignedGossipMessage → Bool
  verify_msg gc sender m = if is_nil sender then false else verify_content gc sender m

  -- `stateInfoMsgStore.add`
  unfoldable pub add_state_info :
      ℕ → SignedGossipMessage → GossipChannel → Option (GossipChannel × Bool)
  unfolding cache_add verify_state_info
  add_state_info now m gc =
      cache_add (verify_state_info env gc []) now m gc.state_info_msg_store >>= λ (c, added).
      some (record gc { state_info_msg_store = c }, added)

  -- whether a snapshot for an organization holds a state info
  unfoldable pub is_disclosed : GossipChannel → Slice → Slice → Bool
  is_disclosed gc requester pki_id =
      if bytes_equal gc.self_org requester || not (bytes_equal (env.orgs.org_of pki_id) gc.self_org)
      then true
      else has_external_endpoint env.orgs pki_id

  -- the loop of `createStateInfoSnapshot`
  unfoldable pub snapshot_of :
      GossipChannel → Slice → List SignedGossipMessage → Option (List (Option Envelope))
  unfolding is_disclosed
  snapshot_of gc requester [] = some []
  snapshot_of gc requester (m ∷ msgs) = info_of m >>= λ si.
      snapshot_of gc requester msgs >>= λ rest.
      some (if is_disclosed gc requester si.pki_id then m.envelope ∷ rest else rest)

  -- `createStateInfoSnapshot`
  unfoldable pub create_state_info_snapshot :
      GossipChannel → Slice → Option (List (Option Envelope))
  unfolding snapshot_of
  create_state_info_snapshot gc requester =
      snapshot_of gc requester (get_items gc.state_info_msg_store.messages)

  -- the tests of handleStateInfoSnapshot that end its loop
  abbrev pub is_acceptable : GossipChannel → SignedGossipMessage → StateInfo → Option Bool
  is_acceptable gc m si =
      let org = env.orgs.org_of si.pki_id in
      if is_nil org
      then some false
      else if not (is_org_in_channel env gc org)
      then some false
      else if not (mac_matches gc si.pki_id si.channel_mac)
      then some false
      else (validate_state_info_msg env.ids m >>= λ e. some (not (is_some e)))

  -- `handleStateInfoSnapshot`
  unfoldable pub handle_state_info_snapshot :
      ℕ → List Envelope → GossipChannel → Option GossipChannel
  unfolding add_state_info
  handle_state_info_snapshot now [] gc = some gc
  handle_state_info_snapshot now (e ∷ elements) gc = elim (to_gossip_message env.proto e) [
    | err x ↦ some gc
    | ok m ↦ elim (info_of m) [
      | none ↦ some gc
      | some si ↦ is_acceptable gc m si >>= λ acceptable.
          if not acceptable
          then some gc
          else if not (is_some (env.orgs.lookup si.pki_id))
          then handle_state_info_snapshot now elements gc
          else (add_state_info now m gc >>= λ (gc', added).
              handle_state_info_snapshot now elements gc')
    ]
  ]

  abbrev spread : SignedGossipMessage → Slice → Bool → List Action
  spread m sender true = forward m sender ∷ deliver m ∷ []
  spread m sender false = []

  -- the branch for a block
  unfoldable pub handle_data_msg :
      ℕ → Slice → SignedGossipMessage → GossipChannel → Option (GossipChannel × List Action)
  unfolding verify_block_msg add_block
  handle_data_msg now sender m gc =
      if not (is_some (payload_of m))
      then some (gc, [])
      else (check_valid (invalidation_policy gc.max_block_count) m gc.block_msg_store >>= λ valid.
          if not valid
          then some (gc, [])
          else if not (verify_block_msg m)
          then some (gc, [])
          else (add_block now m gc >>= λ (gc', added).
              some (if added then offer_block m gc' else gc', spread m sender added)))

  -- the branch for a state info
  unfoldable pub handle_state_info :
      ℕ → Slice → SignedGossipMessage → GossipChannel → Option (GossipChannel × List Action)
  unfolding add_state_info
  handle_state_info now sender m gc =
      add_state_info now m gc >>= λ (gc', added). some (gc', spread m sender added)

  -- The loop over the blocks of an update: the channel, and the envelopes that go on to the puller,
  -- unless it returns early. The store's CheckValid is asked about the update, and not about the block.
  unfoldable pub filter_update :
      ℕ
      → SignedGossipMessage
      → List Envelope
      → GossipChannel
      → Option (GossipChannel × Option (List Envelope))
  unfolding verify_block_msg add_block
  filter_update now m [] gc = some (gc, some [])
  filter_update now m (item ∷ items) gc = elim (to_gossip_message env.proto item) [
    | err x ↦ some (gc, none)
    | ok b ↦
        if not (bytes_equal b.message.channel gc.chain_id)
        then some (gc, none)
        else (check_valid (invalidation_policy gc.max_block_count) m gc.block_msg_store >>= λ valid.
            if not valid
            then some (gc, none)
            else if not (verify_block_msg b)
            then some (gc, none)
            else (add_block now b gc >>= λ (gc', added).
                filter_update now m items gc' >>= λ (gc'', rest).
                some (gc'', rest >>= λ kept. some (if added then item ∷ kept else kept))))
  ]

  -- what the puller does: what it consumes goes to the demultiplexer
  abbrev pub block_action : Mediator.Action → Action
  block_action (Mediator.consume m) = deliver m
  block_action a = pulling a

  -- `blocksPuller.HandleMessage`
  abbrev pub to_puller :
      Slice → SignedGossipMessage → GossipChannel → Option (GossipChannel × List Action)
  to_puller sender m gc =
      Mediator.handle_message (record { signed = some m; sender = sender }) (puller gc)
      >>= λ (p, actions). some (record gc { blocks_puller = p }, map block_action actions)

  abbrev pub with_update : SignedGossipMessage → DataUpdate → List Envelope → SignedGossipMessage
  with_update m u kept = record m {
    message = record m.message { content = data_update (record u { envelopes = kept }) };
  }

  abbrev pub update_filtered :
      Slice
      → SignedGossipMessage
      → DataUpdate
      → GossipChannel × Option (List Envelope)
      → Option (GossipChannel × List Action)
  update_filtered sender m u (gc, none) = some (gc, [])
  update_filtered sender m u (gc, some kept) = to_puller sender (with_update m u kept) gc

  abbrev pub pull_content :
      ℕ
      → Slice
      → SignedGossipMessage
      → GossipChannel
      → Content
      → Option (GossipChannel × List Action)
  pull_content now sender m gc (data_update u) =
      filter_update now m u.envelopes gc >>= λ r. update_filtered sender m u r
  pull_content now sender m gc c = to_puller sender m gc

  -- the branch for the messages of the puller
  unfoldable pub handle_pull_msg :
      ℕ → Slice → SignedGossipMessage → GossipChannel → Option (GossipChannel × List Action)
  unfolding filter_update
  handle_pull_msg now sender m gc =
      if gc.left_channel
      then some (gc, [])
      else if not (is_some (get_msg_by_id gc.state_info_msg_store.membership sender))
      then some (gc, [])
      else if not (eligible_and_same_org env gc (bare_peer sender))
      then some (gc, [])
      else pull_content now sender m gc m.message.content

  -- the end of HandleMessage, for a leadership message
  unfoldable pub handle_leadership_msg :
      ℕ → SignedGossipMessage → GossipChannel → Option (GossipChannel × List Action)
  handle_leadership_msg now m gc =
      Store.add (invalidation_policy 0) now m gc.leader_msg_store >>= λ (s, dropped, added).
      some (record gc { leader_msg_store = s }, if added then deliver m ∷ [] else [])

  -- the branches of HandleMessage; `m` has the content
  abbrev pub handle_content :
      ℕ
      → Slice
      → SignedGossipMessage
      → GossipChannel
      → Content
      → Option (GossipChannel × List Action)
  handle_content now sender m gc (state_info_pull_req mac) =
      create_state_info_snapshot gc (env.orgs.org_of sender) >>= λ elements.
      some (gc, respond_snapshot gc.chain_id elements ∷ [])
  handle_content now sender m gc (state_snapshot s) =
      handle_state_info_snapshot now s.elements gc >>= λ gc'. some (gc', [])
  handle_content now sender m gc (data_msg d) = handle_data_msg now sender m gc
  handle_content now sender m gc (state_info si) = handle_state_info now sender m gc
  handle_content now sender m gc (leadership_msg l) = handle_leadership_msg now m gc
  handle_content now sender m gc c =
      if is_pull_msg c && pull_type_eq (get_pull_msg_type c) block_msg
      then handle_pull_msg now sender m gc
      else some (gc, [])

  -- the tests that stand before the branches
  abbrev pub is_admitted : GossipChannel → Slice → SignedGossipMessage → Bool
  is_admitted gc sender m =
      let org = env.orgs.org_of sender in
      if not (verify_msg gc sender m)
      then false
      else if not (is_channel_restricted m.message)
      then false
      else if is_empty (string_of org)
      then false
      else is_org_in_channel env gc org

  abbrev pub handle_signed :
      ℕ → Slice → Option SignedGossipMessage → GossipChannel → Option (GossipChannel × List Action)
  handle_signed now sender none gc = some (gc, [])
  handle_signed now sender (some m) gc =
      if is_admitted gc sender m
      then handle_content now sender m gc m.message.content
      else some (gc, [])

  -- `HandleMessage`
  unfoldable pub handle_message :
      ℕ → Received → GossipChannel → Option (GossipChannel × List Action)
  unfolding verify_msg create_state_info_snapshot handle_state_info_snapshot handle_data_msg
      handle_state_info handle_pull_msg handle_leadership_msg
  handle_message now r gc = handle_signed now r.sender r.signed gc
