-- ===== src/Channel/Blocks.antt =====
-- The blocks of a channel (gossip/channel.go: createBlockPuller, verifyBlock, and the block store of
-- newGossipChannel with its triggers, which take a dropped block from the puller).
use grpc_gossip.Prelude.{
  ℕ, Str, Slice, string_of, leb, Bool, true, false, not, is_some, Option, none, some, ◌>>=◌, List,
  [], ◌∷◌, filter,
}
use grpc_gossip.Types.{Payload, DataDigest, chan_and_org, block_msg, get_data_msg}
use grpc_gossip.Message.{SignedGossipMessage, invalidation_policy}
use grpc_gossip.Store
use grpc_gossip.Store.{MessageStore, expiration_turn}
use grpc_gossip.Crypto.{verify_block}
use grpc_gossip.Pull.Mediator
use grpc_gossip.Pull.Mediator.{PullMediator, Adapter, Config}
use grpc_gossip.Channel.State.{GossipChannel}
use grpc_gossip.Channel.Decimal.{decimal, parse_uint}

-- the payload of a block, nil where there is none
abbrev pub payload_of : SignedGossipMessage → Option Payload
payload_of m = get_data_msg m.message.content >>= λ d. d.payload

-- `seqNumFromMsg` of the puller
abbrev id_of : Option Payload → Str
id_of none = []
id_of (some p) = decimal p.seq_num

abbrev pub is_wanted : ℕ → Option ℕ → Bool
is_wanted height none = false
is_wanted height (some n) = leb height n

-- `IngressDigFilter`: what is below the height of the ledger is not asked for
unfoldable pub ingress_dig_filter : ℕ → DataDigest → DataDigest
ingress_dig_filter height d = record d {
  digests = filter (λ s. is_wanted height (parse_uint (string_of s))) d.digests;
}

abbrev pub block_adapter : ℕ → Adapter
block_adapter height = record {
  id_extractor = λ m. id_of (payload_of m);
  egress_dig_filter = λ m item. true;
  ingress_dig_filter = ingress_dig_filter height;
}

-- the configuration of the puller, for PullPeerNum peers
abbrev pub block_config : Slice → ℕ → Config
block_config chain_id pull_peer_num = record {
  channel = chain_id;
  peer_count_to_select = pull_peer_num;
  tag = chan_and_org;
  msg_type = block_msg;
}

-- the puller, whose filter reads the height of the ledger at the call
abbrev pub puller : GossipChannel → PullMediator
puller gc = record gc.blocks_puller { adapter = block_adapter gc.ledger_height }

-- `verifyBlock`
unfoldable pub verify_block_msg : SignedGossipMessage → Bool
verify_block_msg m = elim (payload_of m) [
  | none ↦ false
  | some p ↦ not (is_some (verify_block m.message.channel p.seq_num p.block))
]

-- the triggers of the block store; a message that is no block makes them panic
unfoldable pub remove_blocks : List SignedGossipMessage → PullMediator → Option PullMediator
remove_blocks [] p = some p
remove_blocks (m ∷ dropped) p =
    payload_of m >>= λ b. remove_blocks dropped (Mediator.remove (decimal b.seq_num) p)

-- `gc.blockMsgStore.Add`
unfoldable pub add_block : ℕ → SignedGossipMessage → GossipChannel → Option (GossipChannel × Bool)
unfolding remove_blocks
add_block now m gc =
    Store.add (invalidation_policy gc.max_block_count) now m gc.block_msg_store
    >>= λ (s, dropped, added). remove_blocks dropped gc.blocks_puller >>= λ p.
        some (record gc { block_msg_store = s; blocks_puller = p }, added)

-- `gc.blocksPuller.Add`
abbrev pub offer_block : SignedGossipMessage → GossipChannel → GossipChannel
offer_block m gc = record gc { blocks_puller = Mediator.add m (puller gc) }

-- a turn of the expiration of the block store
unfoldable pub expire_blocks : ℕ → GossipChannel → Option GossipChannel
unfolding remove_blocks
expire_blocks now gc =
    let (s, called) = expiration_turn now gc.block_msg_store in
    remove_blocks called gc.blocks_puller >>= λ p.
    some (record gc { block_msg_store = s; blocks_puller = p })
