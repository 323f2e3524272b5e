-- ===== src/Channel/State.antt =====
-- The state of a channel (gossip/channel.go: GossipChannel, stateInfoCache, JoinChanMsg), and what it
-- asks of the rest of the service. The emitter, the demultiplexer and the connections are reached by
-- actions. `none` is a panic.
use grpc_gossip.Prelude.{
  ℕ, Str, Slice, bytes, string_of, Bool, Option, List, ◌++◌, Map, [], ◌∷◌, map, none, some,
}
use grpc_gossip.Types.{Envelope}
use grpc_gossip.Message.{SignedGossipMessage}
use grpc_gossip.Store.{MessageStore}
use grpc_gossip.Signing.{Proto}
use grpc_gossip.Crypto.{CryptoService}
use grpc_gossip.Selecting.{Peer, RemotePeer}
use grpc_gossip.Discovery.State.{MembershipStore}
use grpc_gossip.Service.Orgs.{Orgs}
use grpc_gossip.Service.Validating.{Ids, default_org}
use grpc_gossip.Pull.Mediator
use grpc_gossip.Pull.Mediator.{PullMediator}

-- What the adapter of a channel answers at a call: GetOrgOfPeer and Lookup, the identities, the
-- members that discovery knows, the libraries.
pub record Env : Type 0 where
  pub orgs : Orgs
  pub ids : Ids
  pub membership : List Peer
  pub proto : Proto
  pub crypto : CryptoService
  pub sha256 : Str → Str

pub record AnchorPeer : Type 0 where
  pub host : Str
  pub port : ℕ

-- Members2AnchorPeers, which may be nil
abbrev pub JoinChanMsg : Type 0
JoinChanMsg = Option (Map Str (List AnchorPeer))

-- `JoinChanMsg.Peers`
abbrev pub orgs_of : JoinChanMsg → List Slice
orgs_of none = default_org ∷ []
orgs_of (some m) = map (λ e. bytes e.0) m

pub record StateInfoCache : Type 0 where
  pub membership : MembershipStore
  pub messages : MessageStore SignedGossipMessage

pub record GossipChannel : Type 0 where
  pub should_gossip_state_info : Bool
  pub pki_id : Slice
  pub self_org : Slice
  pub state_info_msg : Option SignedGossipMessage
  pub orgs : List Slice
  pub join_msg : Option JoinChanMsg
  pub block_msg_store : MessageStore SignedGossipMessage
  pub state_info_msg_store : StateInfoCache
  pub leader_msg_store : MessageStore SignedGossipMessage
  pub chain_id : Slice
  pub blocks_puller : PullMediator
  pub ledger_height : ℕ
  pub inc_time : ℕ
  pub left_channel : Bool
  -- MaxBlockCountToStore, of the comparator of the block store
  pub max_block_count : ℕ

pub data Action : Type 0 where
  -- a StateInfoSnapshot for a channel, in which an envelope may be nil
  respond_snapshot : Slice → List (Option Envelope) → Action
  -- the emitter, for all peers but one
  forward : SignedGossipMessage → Slice → Action
  -- the emitter, for all peers; the message may be nil
  gossip : Option SignedGossipMessage → Action
  -- DeMultiplex
  deliver : SignedGossipMessage → Action
  send : SignedGossipMessage → List RemotePeer → Action
  -- what the puller of blocks does
  pulling : Mediator.Action → Action

-- `GenerateMAC`, with `ComputeSHA256`
abbrev pub generate_mac : (Str → Str) → Slice → Slice → Slice
generate_mac sha256 pki_id channel_id = bytes (sha256 (string_of pki_id ++ string_of channel_id))
