-- ===== src/Tests/Channels.antt =====
-- Channels and their state infos, on small states.
use grpc_gossip.Prelude.{
  ℕ, ◌≡◌, refl, Str, Slice, nil, bytes, string_of, str_eq, true, false, none, some, [], ◌∷◌, ◌++◌,
  map, get, string_eq, if◌then◌else◌, arith, List, not, ◌>>=◌,
}
use grpc_gossip.Errors.{ok}
use grpc_gossip.Types.{StateInfo, Properties, Content, chan_or_org, chan_and_org, state_info}
use grpc_gossip.Message.{
  SignedGossipMessage, invalidation_policy, state_invalidation_policy, compare_timestamps,
  is_channel_restricted,
}
use grpc_gossip.Store
use grpc_gossip.Store.{Stored, MessageStore, new_msg_store, check_valid}
use grpc_gossip.Service.Orgs.{Orgs}
use grpc_gossip.Pull.Engine
use grpc_gossip.Pull.Mediator.{Received}
use grpc_gossip.Channel.State.{Env, GossipChannel, StateInfoCache, JoinChanMsg}
use grpc_gossip.Channel.Cache.{cache_add, cache_purge}
use grpc_gossip.Channel.Blocks.{block_adapter, block_config}
use grpc_gossip.Channel.Newest.{Agrees, view, learn, is_newer, cache_add_refines}
use grpc_gossip.Channel.Sweeping.{keep_unless, cache_purge_lem}
use grpc_gossip.Crypto.{verify_by_channel}
use grpc_gossip.Prelude.{put, delete}
use grpc_gossip.Channel.Keeping.{IsValid}
use grpc_gossip.Channel.State.{forward, deliver, orgs_of}
use grpc_gossip.Channel.Cache.{untrack, verify_state_info}
use grpc_gossip.Channel.Receiving.{handle_message, verify_msg, handle_state_info, add_state_info}
use grpc_gossip.Channel.Guarding.{handle_message-IsValid}
use grpc_gossip.Channel.Joining.{configure_channel, reverify}
use grpc_gossip.Service.Orgs.{has_external_endpoint}
use grpc_gossip.Channel.State.{Action}
use grpc_gossip.Channel.Configuring.{keep_verified, configure_channel_lem}
use grpc_gossip.Channel.Peers.{get_peers_lem, snapshot_lem}
use grpc_gossip.Channel.Members.{get_peers}
use grpc_gossip.Channel.Receiving.{create_state_info_snapshot}
use grpc_gossip.Channel.Announcing.{Encodes, Announces, left_for_good}
use grpc_gossip.Channel.Publishing.{leave_channel, update_ledger_height}
use grpc_gossip.Channel.Returning.{block_returns, untimed_state_info_panics}
use grpc_gossip.Channel.Joining.{ChannelState, lookup_channel_for_msg}
use grpc_gossip.Channel.Looking.{lookup_by_mac}
use grpc_gossip.Tests.Data.{ann, bob, envelope, time, peer, lenient, proto_of, block}

abbrev pub carl : Slice
carl = bytes (3 ∷ [])

abbrev home : Slice
home = bytes (10 ∷ [])

abbrev pub chain : Slice
chain = bytes (5 ∷ [])

abbrev orgs : Orgs
orgs = record {
  self_org = home;
  org_of = λ id. if str_eq (string_of id) (string_of bob) then bytes (20 ∷ []) else home;
  lookup = λ id. some (peer id);
}

abbrev properties : Properties
properties = record { ledger_height = 4; left_channel = false; chaincodes = [] }

abbrev info : Slice → ℕ → StateInfo
info id n = record {
  timestamp = some (time n);
  pki_id = id;
  channel_mac = bytes (string_of id ++ string_of chain);
  properties = some properties;
}

abbrev signed : Content → SignedGossipMessage
signed c = record {
  envelope = some envelope;
  message = record { nonce = 0; channel = chain; tag = chan_or_org; content = c };
}

abbrev pub state_of : Slice → ℕ → SignedGossipMessage
state_of id n = signed (state_info (info id n))

abbrev pub env : Env
env = record {
  orgs = orgs;
  ids = λ id. ok id;
  membership = peer carl ∷ peer bob ∷ [];
  proto = proto_of (state_of carl 1);
  crypto = lenient;
  sha256 = λ s. s;
}

abbrev holding : SignedGossipMessage → MessageStore SignedGossipMessage
holding m = record {
  msg_ttl = 0;
  expired_count = 0;
  stopped = false;
  messages = record { item = m; created = 1; expired = false } ∷ [];
}

abbrev cache_of : SignedGossipMessage → Str → StateInfoCache
cache_of m k = record { membership = (k, m) ∷ []; messages = holding m }

abbrev carls : StateInfoCache
carls = cache_of (state_of carl 1) (3 ∷ [])

carls-Agrees : Agrees carls
unfolding get
carls-Agrees = record { infos = (refl, tt); live = (refl, tt); apart = (tt, tt); same = λ k. refl }

abbrev newer_carls : StateInfoCache
newer_carls = record {
  membership = (3 ∷ [], state_of carl 2) ∷ [];
  messages = record (holding (state_of carl 2)) {
    messages = record { item = state_of carl 2; created = 2; expired = false } ∷ [];
  };
}

adds_newer : cache_add (λ m. some true) 2 (state_of carl 2) carls ≡ some (newer_carls, true)
unfolding cache_add check_valid Store.add Store.add_loop invalidation_policy
    state_invalidation_policy compare_timestamps str_eq get put delete
adds_newer = refl

cache_add_refines_example :
    Agrees newer_carls
    × ((is_newer (state_of carl 2) (view carls (3 ∷ [])) >>= λ newer.
          if not newer then some false else some true)
        ≡ some true)
    × ((k : Str) → view newer_carls k ≡ learn (state_of carl 2) true (view carls) k)
cache_add_refines_example =
    cache_add_refines (λ m. some true) 2 (state_of carl 2) carls newer_carls true refl carls-Agrees
      adds_newer

cache_purge_example :
    (c' : StateInfoCache) × (cache_purge (λ id. str_eq (string_of id) (3 ∷ [])) carls ≡ some c')
    × Agrees c'
    × ((k : Str) → view c' k ≡ keep_unless (λ id. str_eq (string_of id) (3 ∷ [])) (view carls k))
cache_purge_example = cache_purge_lem (λ id. str_eq (string_of id) (3 ∷ [])) carls carls-Agrees

-- Ann's channel, which knows Carl
abbrev pub channel : GossipChannel
channel = record {
  should_gossip_state_info = false;
  pki_id = ann;
  self_org = home;
  state_info_msg = none;
  orgs = home ∷ [];
  join_msg = none;
  block_msg_store = record (holding (block 1)) { messages = [] };
  state_info_msg_store = carls;
  leader_msg_store = record (holding (block 1)) { messages = [] };
  chain_id = chain;
  blocks_puller = record {
    config = block_config chain 3;
    adapter = block_adapter 0;
    proto = env.proto;
    item_id_to_msg = [];
    engine = Engine.new_pull_engine;
  };
  ledger_height = 0;
  inc_time = 1;
  left_channel = false;
  max_block_count = 10;
}

pub channel-IsValid : IsValid env channel
unfolding str_eq
channel-IsValid = record {
  agrees = carls-Agrees;
  members = (refl, tt);
  blocks = tt;
  engine = record { strings = tt; owned = tt };
}

abbrev pub news : Received
news = record { signed = some (state_of carl 2); sender = carl }

abbrev pub informed : GossipChannel
informed = record channel { state_info_msg_store = newer_carls }

pub takes_news :
    handle_message env 2 news channel
    ≡ some (informed, forward (state_of carl 2) carl ∷ deliver (state_of carl 2) ∷ [])
unfolding handle_message cache_add check_valid Store.add Store.add_loop invalidation_policy
    state_invalidation_policy compare_timestamps str_eq get put delete verify_msg
    is_channel_restricted handle_state_info add_state_info verify_state_info verify_by_channel
takes_news = refl

handle_message-IsValid_example : IsValid env informed
handle_message-IsValid_example =
    handle_message-IsValid env 2 news channel informed
      (forward (state_of carl 2) carl ∷ deliver (state_of carl 2) ∷ []) channel-IsValid takes_news

-- a join message for Bob's organization only
abbrev join : JoinChanMsg
join = some ((20 ∷ [], []) ∷ [])

abbrev rejoined : GossipChannel
rejoined = record channel {
  orgs = orgs_of join;
  join_msg = some join;
  state_info_msg_store = record {
    membership = [];
    messages = record (holding (block 1)) { messages = [] };
  };
}

configures : configure_channel env 1 2 join channel ≡ some rejoined
unfolding configure_channel reverify cache_purge untrack str_eq get put delete verify_state_info
    verify_by_channel Store.get_items Store.purge
configures = refl

configure_channel_example :
    (rejoined ≡ record channel {
      orgs = orgs_of join;
      join_msg = some join;
      state_info_msg_store = rejoined.state_info_msg_store;
    })
    × Agrees rejoined.state_info_msg_store
    × ((k : Str)
        → view rejoined.state_info_msg_store k
          ≡ keep_verified
              (verify_state_info env
                (record channel { orgs = orgs_of join; join_msg = some join })
                (orgs_of join))
              (view carls k))
configure_channel_example =
    configure_channel_lem env 1 2 join channel rejoined (bytes (20 ∷ [])) [] refl (omega arith)
      carls-Agrees configures

get_peers_example :
    get_peers env channel
    ≡ some (
        map
          (λ p. record (peer carl) { properties = some properties; envelope = some envelope })
          (peer carl ∷ []))
unfolding str_eq get
get_peers_example = get_peers_lem env channel carls-Agrees

snapshot_example : create_state_info_snapshot env channel home ≡ some (some envelope ∷ [])
unfolding str_eq has_external_endpoint Store.get_items
snapshot_example = snapshot_lem env channel home carls-Agrees

encodes : Encodes env.proto
encodes m = (bytes (5 ∷ []), refl)

-- Ann's own state info is in force, and nothing is cached of her
abbrev published : GossipChannel
published = record channel { state_info_msg = some (state_of ann 1) }

left_for_good_example :
    (gc1 : GossipChannel) × (gc2 : GossipChannel) × (leave_channel env 7 published ≡ some gc1)
    × Announces gc1 (record properties { left_channel = true }) 7
    × (update_ledger_height env 8 9 gc1 ≡ some gc2)
    × Announces gc2 (record properties { left_channel = true; ledger_height = 9 }) 8
    × (gc2.left_channel ≡ true)
unfolding get str_eq
left_for_good_example =
    left_for_good env encodes 7 8 9 published (state_of ann 1) properties carls-Agrees tt
      (omega arith) refl refl

abbrev pub own_block : SignedGossipMessage
own_block = record (block 4) {
  message = record (block 4).message { tag = chan_and_org; channel = chain };
}

block_returns_example :
    (gc' : GossipChannel) × (actions : List Action) × (handle_message env 2
        (record { signed = some own_block; sender = carl })
        channel
      ≡ some (gc', actions))
    × IsValid env gc'
block_returns_example =
    block_returns env 2 carl own_block
      (record { payload = some (record { seq_num = 4; block = nil; private_data = [] }) }) channel
      refl channel-IsValid

-- Carl's state info without a timestamp
abbrev untimed : SignedGossipMessage
untimed = signed (state_info (record (info carl 2) { timestamp = none }))

untimed_state_info_panics_example :
    handle_message env 2 (record { signed = some untimed; sender = carl }) channel ≡ none
unfolding get str_eq verify_msg is_channel_restricted
untimed_state_info_panics_example =
    untimed_state_info_panics env 2 carl untimed (state_of carl 1)
      (record (info carl 2) { timestamp = none }) (info carl 1) channel channel-IsValid refl refl
      refl refl refl refl

abbrev pub joined : ChannelState
joined = record { stopping = false; channels = (5 ∷ [], channel) ∷ (6 ∷ [], rejoined) ∷ [] }

lookup_by_mac_example :
    lookup_channel_for_msg env.sha256 joined carl (state_of carl 1).message ≡ some channel
unfolding get str_eq
lookup_by_mac_example =
    lookup_by_mac env.sha256 joined carl chain (state_of carl 1).message carl refl
      ((λ e. e), ((λ e. e), tt))
