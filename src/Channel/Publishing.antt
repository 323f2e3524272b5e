-- ===== src/Channel/Publishing.antt =====
-- What a channel says of itself (gossip/channel.go: updateProperties, UpdateLedgerHeight, LeaveChannel,
-- publishStateInfo, createStateInfoRequest, requestStateInfo, AddToMsgStore). `now` is the clock at the
-- call, in nanoseconds; `none` is a panic.
use grpc_gossip.Prelude.{
  ℕ, ℤ, Str, Slice, Bool, true, false, not, Option, none, some, ◌>>=◌, List, [], ◌∷◌, length, ltb,
  if◌then◌else◌, is_some,
}
use grpc_gossip.Errors.{Result, ok, err}
use grpc_gossip.Types.{
  Chaincode, Properties, GossipMessage, chan_or_org, state_info, state_info_pull_req, get_data_msg,
  Envelope,
}
use grpc_gossip.Message.{SignedGossipMessage}
use grpc_gossip.Signing.{Proto, seal, noop_sign}
use grpc_gossip.Crypto
use grpc_gossip.Selecting.{RemotePeer, select_peers}
use grpc_gossip.Channel.State.{Env, GossipChannel, Action, gossip, send, generate_mac}
use grpc_gossip.Channel.Cache.{info_of}
use grpc_gossip.Channel.Members.{is_member_in_chan}
use grpc_gossip.Channel.Blocks.{add_block, offer_block}
use grpc_gossip.Channel.Receiving.{add_state_info}

-- the message of `updateProperties`
unfoldable pub state_info_message :
    (Str → Str) → ℕ → ℕ → List Chaincode → Bool → GossipChannel → GossipMessage
state_info_message sha256 now height chaincodes left gc = record {
  nonce = 0;
  channel = Slice.nil;
  tag = chan_or_org;
  content = state_info (record {
    timestamp = some (record { inc_num = gc.inc_time; seq_num = now });
    pki_id = gc.pki_id;
    channel_mac = generate_mac sha256 gc.pki_id gc.chain_id;
    properties =
        some (record { ledger_height = height; left_channel = left; chaincodes = chaincodes });
  });
}

abbrev signed_with : GossipMessage → Result Envelope → Result SignedGossipMessage
signed_with m (err x) = err x
signed_with m (ok e) = ok (record { envelope = some e; message = m })

-- `GossipAdapter.Sign`
unfoldable pub adapter_sign : Proto → GossipMessage → Result SignedGossipMessage
unfolding seal
adapter_sign proto m =
    signed_with m (seal proto Crypto.sign (record { envelope = none; message = m }))

abbrev pub properties_of : SignedGossipMessage → Option Properties
properties_of m = info_of m >>= λ si. si.properties

module _ (env : Env) where
  abbrev published : ℕ → ℕ → GossipChannel → Result SignedGossipMessage → Option GossipChannel
  published now height gc (err x) = some gc
  published now height gc (ok m) = add_state_info env now m gc >>= λ (gc', added).
      some (record gc' {
        ledger_height = height;
        state_info_msg = some m;
        should_gossip_state_info = true;
      })

  -- `updateProperties`
  unfoldable pub update_properties :
      ℕ → ℕ → List Chaincode → Bool → GossipChannel → Option GossipChannel
  unfolding add_state_info adapter_sign state_info_message
  update_properties now height chaincodes left gc =
      published now height gc
        (adapter_sign env.proto (state_info_message env.sha256 now height chaincodes left gc))

  -- `UpdateLedgerHeight`
  unfoldable pub update_ledger_height : ℕ → ℕ → GossipChannel → Option GossipChannel
  unfolding update_properties
  update_ledger_height now height gc = elim gc.state_info_msg [
    | none ↦ update_properties now height [] false gc
    | some m ↦ properties_of m >>= λ props.
        update_properties now height props.chaincodes props.left_channel gc
  ]

  -- `LeaveChannel`
  unfoldable pub leave_channel : ℕ → GossipChannel → Option GossipChannel
  unfolding update_properties
  leave_channel now gc =
      let gone = record gc { left_channel = true } in
      elim gc.state_info_msg [
        | none ↦ update_properties now 0 [] true gone
        | some m ↦ properties_of m >>= λ props.
            update_properties now props.ledger_height props.chaincodes true gone
      ]

  abbrev is_alone : List RemotePeer → Bool
  is_alone [] = true
  is_alone (p ∷ peers) = false

  -- `publishStateInfo`
  unfoldable pub publish_state_info : GossipChannel → GossipChannel × List Action
  publish_state_info gc = if not gc.should_gossip_state_info then (gc, []) else (
    if ltb 0 (length env.membership) then record gc { should_gossip_state_info = false } else gc,
    gossip gc.state_info_msg ∷ [],
  )

  -- `createStateInfoRequest`, up to the signature, which is empty
  abbrev request_message : GossipChannel → GossipMessage
  request_message gc = record {
    nonce = 0;
    channel = Slice.nil;
    tag = chan_or_org;
    content = state_info_pull_req (generate_mac env.sha256 gc.pki_id gc.chain_id);
  }

  -- `requestStateInfo`; `k` is PullPeerNum, and `perm` the permutation that math/rand draws
  unfoldable pub request_state_info : ℤ → List ℕ → GossipChannel → Option (List Action)
  unfolding noop_sign
  request_state_info k perm gc =
      let (m, failed) = noop_sign env.proto (request_message gc) in
      if is_some failed
      then some []
      else (select_peers k env.membership (is_member_in_chan env gc) perm >>= λ peers.
          some (send m peers ∷ []))

  -- `AddToMsgStore`
  unfoldable pub add_to_msg_store : ℕ → SignedGossipMessage → GossipChannel → Option GossipChannel
  unfolding add_block add_state_info
  add_to_msg_store now m gc =
      if is_some (get_data_msg m.message.content)
      then (add_block now m gc >>= λ (gc', added). some (offer_block m gc'))
      else if is_some (info_of m)
      then (add_state_info env now m gc >>= λ (gc', added). some gc')
      else some gc
