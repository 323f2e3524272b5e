-- ===== src/Service/Dispatching.antt =====
-- What the service does with a received message (gossip/gossip.go: handleMessage, validateMsg,
-- createCertStorePuller). A message of a channel goes to the channel; one of discovery to its queue; a
-- pull of identities to the puller of the certificate store, whose consumer puts the identities into the
-- identity mapper. `now` is the clock, `times` ExpirationTimes; `none` is a panic.
use grpc_gossip.Prelude.{
  ℕ, Str, Slice, string_of, is_nil, Bool, true, false, not, ◌&&◌, ◌||◌, is_some, Option, none, some,
  ◌>>=◌, List, [], ◌∷◌, map, Map, put, string_eq, if◌then◌else◌,
}
use grpc_gossip.Errors.{ok, err}
use grpc_gossip.Types.{
  Envelope, PeerIdentity, Content, data_update, identity_msg, get_alive_msg, get_state_info,
  get_leadership_msg, get_peer_identity,
}
use grpc_gossip.Message.{
  SignedGossipMessage, is_tag_legal, is_channel_restricted, is_pull_msg, get_pull_msg_type,
  invalidation_policy,
}
use grpc_gossip.Store
use grpc_gossip.Store.{MessageStore}
use grpc_gossip.Signing.{to_gossip_message}
use grpc_gossip.Identity.{IdMapper, put_id}
use grpc_gossip.Pull.Mediator
use grpc_gossip.Pull.Mediator.{PullMediator, Received, pull_type_eq}
use grpc_gossip.Discovery.Learning.{validate_alive_msg}
use grpc_gossip.Service.Orgs.{is_in_my_org}
use grpc_gossip.Service.Routing.{select_only_discovery_messages, is_forwarded}
use grpc_gossip.Service.Validating.{
  validate_state_info_msg, validate_leadership_message, validate_id_msg,
}
use grpc_gossip.Channel.State.{Env, GossipChannel}
use grpc_gossip.Channel.State
use grpc_gossip.Channel.Receiving
use grpc_gossip.Channel.Joining.{ChannelState, lookup_channel_for_msg}

pub record GossipService : Type 0 where
  pub stop_flag : Bool
  pub chan_state : ChannelState
  pub state_info_msg_store : MessageStore SignedGossipMessage
  pub cert_puller : PullMediator
  pub id_mapper : IdMapper

pub data Action : Type 0 where
  -- the emitter, for all peers but one
  forward : SignedGossipMessage → Slice → Action
  -- the queue of discovery
  to_discovery : SignedGossipMessage → Slice → Action
  -- what a channel does
  in_channel : State.Action → Action
  -- what the puller of the certificate store does
  pulling : Mediator.Action → Action

-- `pkiIDFromMsg`
abbrev pub identity_id : Option PeerIdentity → Str
identity_id none = []
identity_id (some p) = string_of p.pki_id

abbrev put_identity : Map Str ℕ → ℕ → Option PeerIdentity → IdMapper → IdMapper
put_identity times now none is = is
put_identity times now (some p) is =
    if is_nil p.cert || is_nil p.pki_id then is else (put_id times now p.pki_id p.cert is).0

-- `certConsumer`
abbrev pub consume_cert : Map Str ℕ → ℕ → SignedGossipMessage → IdMapper → IdMapper
consume_cert times now m is = put_identity times now (get_peer_identity m.message.content) is

-- what the puller does, its consumer's calls carried out
unfoldable pub carry_out : Map Str ℕ → ℕ → List Mediator.Action → IdMapper → IdMapper × List Action
carry_out times now [] is = (is, [])
carry_out times now (Mediator.consume m ∷ actions) is =
    carry_out times now actions (consume_cert times now m is)
carry_out times now (a ∷ actions) is =
    let (is', rest) = carry_out times now actions is in (is', pulling a ∷ rest)

module _ (env : Env) (times : Map Str ℕ) (now : ℕ) where
  abbrev pub state_info_valid : SignedGossipMessage → Option Bool
  state_info_valid m =
      if is_some (get_state_info m.message.content)
      then (validate_state_info_msg env.ids m >>= λ e. some (not (is_some e)))
      else some true

  -- `validateMsg`: the mapper, which notes accesses, and the result
  unfoldable pub validate_msg : SignedGossipMessage → IdMapper → Option (IdMapper × Bool)
  unfolding validate_alive_msg
  validate_msg m is =
      if is_some (is_tag_legal m.message)
      then some (is, false)
      else if is_some (get_alive_msg m.message.content)
      then some (validate_alive_msg times now m is)
      else (state_info_valid m >>= λ valid. some (is, valid))

  abbrev pub without_channel :
      Slice → SignedGossipMessage → GossipService → Option (GossipService × List Action)
  without_channel sender m g =
      if is_in_my_org env.orgs sender && is_some (get_state_info m.message.content)
      then (Store.add (invalidation_policy 0) now m g.state_info_msg_store
          >>= λ (s, dropped, added).
              some (
                record g { state_info_msg_store = s },
                if added then forward m sender ∷ [] else [],
              ))
      else some (g, [])

  abbrev pub leader_valid : SignedGossipMessage → Option Bool
  leader_valid m =
      if is_some (get_leadership_msg m.message.content)
      then (validate_leadership_message env.ids m >>= λ e. some (not (is_some e)))
      else some true

  -- the channel is a pointer of the map: what it becomes is seen there
  abbrev pub with_channel : GossipService → GossipChannel → GossipService
  with_channel g gc = record g {
    chan_state = record g.chan_state {
      channels = put g.chan_state.channels (string_of gc.chain_id) gc;
    };
  }

  abbrev pub in_its_channel :
      Slice
      → SignedGossipMessage
      → GossipService
      → GossipChannel
      → Option (GossipService × List Action)
  in_its_channel sender m g gc = leader_valid m >>= λ valid.
      if not valid
      then some (g, [])
      else (Receiving.handle_message env now (record { signed = some m; sender = sender }) gc
          >>= λ (gc', actions). some (with_channel g gc', map in_channel actions))

  -- the branch for the messages of channels
  unfoldable pub handle_restricted :
      Slice → SignedGossipMessage → GossipService → Option (GossipService × List Action)
  unfolding lookup_channel_for_msg validate_leadership_message
  handle_restricted sender m g =
      elim (lookup_channel_for_msg env.sha256 g.chan_state sender m.message) [
        | none ↦ without_channel sender m g
        | some gc ↦ in_its_channel sender m g gc
      ]

  -- the loop over the identities of an update
  unfoldable pub ids_valid : List Envelope → Bool
  unfolding validate_id_msg
  ids_valid [] = true
  ids_valid (e ∷ envelopes) =
      let rest = ids_valid envelopes in
      elim (to_gossip_message env.proto e) [
        | err x ↦ false
        | ok m ↦
            if not (is_some (get_peer_identity m.message.content))
            then false
            else if is_some (validate_id_msg env.crypto m)
            then false
            else rest
      ]

  abbrev pub update_valid : Content → Bool
  update_valid (data_update u) = ids_valid u.envelopes
  update_valid c = true

  -- the branch for pulls of identities
  unfoldable pub handle_identity_pull :
      Slice → SignedGossipMessage → GossipService → Option (GossipService × List Action)
  unfolding ids_valid carry_out
  handle_identity_pull sender m g =
      if not (
        is_pull_msg m.message.content
        && pull_type_eq (get_pull_msg_type m.message.content) identity_msg)
      then some (g, [])
      else if not (update_valid m.message.content)
      then some (g, [])
      else (Mediator.handle_message (record { signed = some m; sender = sender }) g.cert_puller
          >>= λ (p, actions).
              let (is, rest) = carry_out times now actions g.id_mapper in
              some (record g { cert_puller = p; id_mapper = is }, rest))

  -- the messages that no channel restricts: those of discovery, then the pulls of identities
  unfoldable pub handle_unrestricted :
      Slice → SignedGossipMessage → GossipService → Option (GossipService × List Action)
  unfolding handle_identity_pull
  handle_unrestricted sender m g =
      if select_only_discovery_messages m
      then (is_forwarded env.proto sender m >>= λ forwarded.
          if not forwarded
          then some (g, [])
          else (handle_identity_pull sender m g >>= λ (g', actions).
              some (g', to_discovery m sender ∷ actions)))
      else handle_identity_pull sender m g

  abbrev pub handle_valid :
      Slice → SignedGossipMessage → GossipService → Option (GossipService × List Action)
  handle_valid sender m g =
      if is_channel_restricted m.message
      then handle_restricted sender m g
      else handle_unrestricted sender m g

  abbrev pub handle_signed :
      Slice → Option SignedGossipMessage → GossipService → Option (GossipService × List Action)
  handle_signed sender none g = some (g, [])
  handle_signed sender (some m) g = validate_msg m g.id_mapper >>= λ (is, valid).
      let g' = record g { id_mapper = is } in
      if not valid then some (g', []) else handle_valid sender m g'

  -- `handleMessage`
  unfoldable pub handle_message : Received → GossipService → Option (GossipService × List Action)
  unfolding validate_msg handle_restricted handle_unrestricted
  handle_message r g = if g.stop_flag then some (g, []) else handle_signed r.sender r.signed g
