-- ===== src/Channel/Joining.antt =====
-- Joining and leaving channels (gossip/channel.go: ConfigureChannel, newGossipChannel, ChannelState).
-- A map over channels takes the order of its list. `none` is a panic.
use grpc_gossip.Prelude.{
  ℕ, ◌*◌, Str, Slice, bytes, string_of, bytes_equal, ltb, Bool, true, false, Option, none, some,
  ◌>>=◌, List, [], ◌∷◌, map, Map, get, put, string_eq, if◌then◌else◌,
}
use grpc_gossip.Types.{GossipMessage, get_state_info, get_state_info_pull_req}
use grpc_gossip.Message.{SignedGossipMessage}
use grpc_gossip.Store.{MessageStore, new_msg_store, get_items}
use grpc_gossip.Store
use grpc_gossip.Discovery.State.{remove_msg}
use grpc_gossip.Signing.{Proto}
use grpc_gossip.Pull.Engine
use grpc_gossip.Channel.State.{
  Env, GossipChannel, StateInfoCache, JoinChanMsg, orgs_of, generate_mac,
}
use grpc_gossip.Channel.Cache.{info_of, verify_state_info, cache_purge}
use grpc_gossip.Channel.Blocks.{block_adapter, block_config}

module _ (env : Env) where
  -- the loop of `ConfigureChannel` over the state infos
  unfoldable pub reverify :
      GossipChannel → List Slice → List SignedGossipMessage → StateInfoCache → Option StateInfoCache
  unfolding verify_state_info cache_purge
  reverify gc orgs [] c = some c
  reverify gc orgs (m ∷ msgs) c = verify_state_info env gc orgs m >>= λ verified.
      if verified
      then reverify gc orgs msgs c
      else (info_of m >>= λ si. cache_purge (λ id. bytes_equal id si.pki_id) c >>= λ c'.
          reverify gc orgs msgs (record c' { membership = remove_msg c'.membership si.pki_id }))

  abbrev or_join : Option JoinChanMsg → JoinChanMsg → JoinChanMsg
  or_join none j = j
  or_join (some old) j = old

  abbrev no_orgs : List Slice → Bool
  no_orgs [] = true
  no_orgs (o ∷ orgs) = false

  -- `ConfigureChannel`. `SequenceNumber` is the clock at its call, whatever the message: `first` for the
  -- message that is in force, `second` for the new one.
  unfoldable pub configure_channel : ℕ → ℕ → JoinChanMsg → GossipChannel → Option GossipChannel
  unfolding reverify
  configure_channel first second join gc =
      if no_orgs (orgs_of join)
      then some gc
      else if ltb second first
      then some (record gc { join_msg = some (or_join gc.join_msg join) })
      else (let gc' = record gc { orgs = orgs_of join; join_msg = some join } in
          reverify gc' (orgs_of join) (get_items gc.state_info_msg_store.messages)
            gc.state_info_msg_store
          >>= λ c. some (record gc' { state_info_msg_store = c }))

-- the settings that a new channel reads
pub record ChannelStoreConfig : Type 0 where
  pub max_block_count_to_store : ℕ
  pub pull_peer_num : ℕ
  pub block_expiration_interval : ℕ
  -- leaderAliveThreshold
  pub leader_alive_threshold : ℕ

abbrev blank_channel : Proto → ChannelStoreConfig → ℕ → Slice → Slice → Slice → GossipChannel
blank_channel proto conf now pki_id org chain_id = record {
  should_gossip_state_info = false;
  pki_id = pki_id;
  self_org = org;
  state_info_msg = none;
  orgs = [];
  join_msg = none;
  block_msg_store = new_msg_store conf.block_expiration_interval;
  state_info_msg_store = record { membership = []; messages = new_msg_store 0 };
  leader_msg_store = new_msg_store (conf.leader_alive_threshold * 10);
  chain_id = chain_id;
  blocks_puller = record {
    config = block_config chain_id conf.pull_peer_num;
    adapter = block_adapter 0;
    proto = proto;
    item_id_to_msg = [];
    engine = Engine.new_pull_engine;
  };
  ledger_height = 0;
  inc_time = now;
  left_channel = false;
  max_block_count = conf.max_block_count_to_store;
}

-- `newGossipChannel`
unfoldable pub new_gossip_channel :
    Env
    → ChannelStoreConfig
    → ℕ
    → ℕ
    → ℕ
    → Slice
    → Slice
    → Slice
    → JoinChanMsg
    → Option GossipChannel
unfolding configure_channel
new_gossip_channel env conf now first second pki_id org chain_id join =
    configure_channel env first second join (blank_channel env.proto conf now pki_id org chain_id)

pub record ChannelState : Type 0 where
  pub stopping : Bool
  pub channels : Map Str GossipChannel

-- `GetGossipChannelByChainID`
unfoldable pub get_gossip_channel_by_chain_id : ChannelState → Slice → Option GossipChannel
get_gossip_channel_by_chain_id cs chain_id =
    if cs.stopping then none else get cs.channels (string_of chain_id)

-- the loop of `getGossipChannelByMAC`
unfoldable pub channel_with_mac :
    (Str → Str) → Slice → Slice → Map Str GossipChannel → Option GossipChannel
channel_with_mac sha256 mac pki_id [] = none
channel_with_mac sha256 mac pki_id ((name, gc) ∷ channels) =
    let rest = channel_with_mac sha256 mac pki_id channels in
    if bytes_equal (generate_mac sha256 pki_id (bytes name)) mac then some gc else rest

-- `getGossipChannelByMAC`
abbrev pub get_gossip_channel_by_mac :
    (Str → Str) → ChannelState → Slice → Slice → Option GossipChannel
get_gossip_channel_by_mac sha256 cs mac pki_id = channel_with_mac sha256 mac pki_id cs.channels

-- `LookupChannelForGossipMsg`
unfoldable pub lookup_channel_for_gossip_msg :
    (Str → Str) → ChannelState → GossipMessage → Option GossipChannel
unfolding channel_with_mac get_gossip_channel_by_chain_id
lookup_channel_for_gossip_msg sha256 cs m = elim (get_state_info m.content) [
  | none ↦ get_gossip_channel_by_chain_id cs m.channel
  | some si ↦ get_gossip_channel_by_mac sha256 cs si.channel_mac si.pki_id
]

-- `LookupChannelForMsg`, for a message of a connection
unfoldable pub lookup_channel_for_msg :
    (Str → Str) → ChannelState → Slice → GossipMessage → Option GossipChannel
unfolding channel_with_mac lookup_channel_for_gossip_msg
lookup_channel_for_msg sha256 cs sender m = elim (get_state_info_pull_req m.content) [
  | some mac ↦ get_gossip_channel_by_mac sha256 cs mac sender
  | none ↦ lookup_channel_for_gossip_msg sha256 cs m
]

-- `JoinChannel`, for this peer and its organization
unfoldable pub join_channel :
    Env
    → ChannelStoreConfig
    → ℕ
    → ℕ
    → ℕ
    → Slice
    → JoinChanMsg
    → Slice
    → ChannelState
    → Option ChannelState
unfolding new_gossip_channel configure_channel
join_channel env conf now first second pki_id join chain_id cs =
    if cs.stopping
    then some cs
    else (elim (get cs.channels (string_of chain_id)) [
      | none ↦ new_gossip_channel env conf now first second pki_id env.orgs.self_org chain_id join
      | some gc ↦ configure_channel env first second join gc
    ]
        >>= λ gc. some (record cs { channels = put cs.channels (string_of chain_id) gc }))

-- `Stop` of a channel: its puller and its stores
unfoldable pub stop_channel : GossipChannel → GossipChannel
stop_channel gc = record gc {
  blocks_puller = record gc.blocks_puller { engine = Engine.stop gc.blocks_puller.engine };
  leader_msg_store = Store.stop gc.leader_msg_store;
  block_msg_store = Store.stop gc.block_msg_store;
}

-- `Stop` of the channel state
unfoldable pub stop_all : ChannelState → ChannelState
unfolding stop_channel
stop_all cs =
    if cs.stopping
    then cs
    else record { stopping = true; channels = map (λ e. (e.0, stop_channel e.1)) cs.channels }
