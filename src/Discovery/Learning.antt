-- ===== src/Discovery/Learning.antt =====
-- How the discovery service takes in alive messages (gossip/discovery.go: ValidateAliveMsg,
-- learnNewMembers, learnExistingMembers, resurrectMember, handleAliveMessage). `none` is a panic.
use grpc_gossip.Prelude.{
  ℕ, Str, Slice, string_of, is_nil, bytes_equal, Bool, true, false, not, ◌||◌, is_some, Option,
  none, some, ◌>>=◌, List, [], ◌∷◌, ◌++◌, Map, get, put, delete, has, string_eq, if◌then◌else◌,
}
use grpc_gossip.Errors.{Error, Result, ok, err}
use grpc_gossip.Types.{PeerTime, Member, Envelope, AliveMessage, get_alive_msg}
use grpc_gossip.Message.{SignedGossipMessage}
use grpc_gossip.Crypto
use grpc_gossip.Signing
use grpc_gossip.Signing.{Proto, internal_endpoint}
use grpc_gossip.Identity.{IdMapper, put_id, get_id}
use grpc_gossip.Selecting.{Peer}
use grpc_gossip.Discovery.State.{
  Discovery, Timestamp, before, stamp, alive_of, put_msg, remove_msg, get_msg_by_id,
}

-- the end of `ValidateAliveMsg`: the signature, with the identity that was found
abbrev pub signed_by : SignedGossipMessage → Slice → Bool
signed_by m id = if is_nil id then false else not (is_some (Signing.verify m id Crypto.verify))

abbrev pub by_put : SignedGossipMessage → Slice → IdMapper × Option Error → IdMapper × Bool
by_put m id (is, some x) = (is, false)
by_put m id (is, none) = (is, signed_by m id)

abbrev pub by_get : SignedGossipMessage → IdMapper × Result Slice → IdMapper × Bool
by_get m (is, err x) = (is, false)
by_get m (is, ok id) = (is, signed_by m id)

-- `m.Envelope == nil || m.Envelope.Payload == nil || m.Envelope.Signature == nil`
abbrev pub lacks_parts : Option Envelope → Bool
lacks_parts none = true
lacks_parts (some e) = is_nil e.payload || is_nil e.signature

-- `ValidateAliveMsg`; `times` is the package variable ExpirationTimes.
unfoldable pub validate_alive_msg : Map Str ℕ → ℕ → SignedGossipMessage → IdMapper → IdMapper × Bool
unfolding put_id get_id
validate_alive_msg times now m is = elim (get_alive_msg m.message.content) [
  | none ↦ (is, false)
  | some am ↦ elim am.membership [
    | none ↦ (is, false)
    | some mem ↦
        if is_nil mem.pki_id || lacks_parts m.envelope
        then (is, false)
        else if not (is_nil am.identity)
        then by_put m am.identity (put_id times now mem.pki_id am.identity is)
        else by_get m (get_id now mem.pki_id is)
  ]
]

abbrev pub internal_of : Option Peer → Str
internal_of none = []
internal_of (some p) = p.internal_endpoint

-- `if m.Envelope.SecretEnvelope != nil { ... }`, over the endpoint known before
abbrev pub disclosed : Proto → Envelope → Str → Str
disclosed proto e before = elim e.secret_envelope [
  | none ↦ before
  | some s ↦ internal_endpoint proto s
]

abbrev pub peer_at : Member → Str → Peer
peer_at mem endpoint = record {
  endpoint = mem.endpoint;
  internal_endpoint = endpoint;
  pki_id = mem.pki_id;
  metadata = mem.metadata;
  properties = none;
  envelope = none;
}

-- the first loop of `learnNewMembers`
unfoldable pub learn_alive : ℕ → List SignedGossipMessage → Discovery → Option Discovery
learn_alive now [] d = some d
learn_alive now (m ∷ msgs) d = alive_of m >>= λ (am, mem).
    if bytes_equal mem.pki_id d.self.pki_id
    then learn_alive now msgs d
    else am.timestamp >>= λ t. learn_alive now msgs (record d {
      alive_last_ts = put d.alive_last_ts (string_of mem.pki_id) (stamp now t);
      alive_membership = put_msg d.alive_membership mem.pki_id m;
    })

-- the second loop
unfoldable pub learn_dead : ℕ → List SignedGossipMessage → Discovery → Option Discovery
learn_dead now [] d = some d
learn_dead now (m ∷ msgs) d = alive_of m >>= λ (am, mem).
    if bytes_equal mem.pki_id d.self.pki_id
    then learn_dead now msgs d
    else am.timestamp >>= λ t. learn_dead now msgs (record d {
      dead_last_ts = put d.dead_last_ts (string_of mem.pki_id) (stamp now t);
      dead_membership = put_msg d.dead_membership mem.pki_id m;
    })

-- the endpoint that is known already, before the one that the message discloses
abbrev pub internal_or : Option Peer → Str → Str
internal_or none endpoint = endpoint
internal_or (some p) endpoint = p.internal_endpoint

-- the third loop, over all the messages
unfoldable pub learn_peers : Proto → List SignedGossipMessage → Discovery → Option Discovery
learn_peers proto [] d = some d
learn_peers proto (m ∷ msgs) d = alive_of m >>= λ (am, mem). m.envelope >>= λ e.
    let id = string_of mem.pki_id in
    learn_peers proto msgs (record d {
      id_to_member =
          put d.id_to_member id
            (peer_at mem (internal_or (get d.id_to_member id) (disclosed proto e [])));
    })

-- `learnNewMembers`
unfoldable pub learn_new_members :
    Proto → ℕ → List SignedGossipMessage → List SignedGossipMessage → Discovery → Option Discovery
unfolding learn_alive learn_dead learn_peers
learn_new_members proto now alive dead d = learn_alive now alive d >>= λ d1.
    learn_dead now dead d1 >>= λ d2. learn_peers proto (alive ++ dead) d2

-- `learnExistingMembers` for a message: the new fields of the peer
abbrev pub update_peer : Peer → Member → Str → Peer
update_peer p mem endpoint = record p {
  endpoint = mem.endpoint;
  metadata = mem.metadata;
  internal_endpoint = endpoint;
}

-- Its end, for a member that is alive and not dead. A message that is not there is followed, though it
-- is nil.
abbrev pub refresh :
    ℕ → SignedGossipMessage → AliveMessage → Member → Timestamp → Discovery → Option Discovery
refresh now m am mem last d = am.timestamp >>= λ t.
    get_msg_by_id d.alive_membership mem.pki_id >>= λ sgm. some (record d {
      alive_last_ts = put d.alive_last_ts (string_of mem.pki_id) (stamp now t);
      alive_membership = put_msg d.alive_membership mem.pki_id m;
    })

-- `learnExistingMembers`, called on one message
unfoldable pub learn_existing_member :
    Proto → ℕ → SignedGossipMessage → AliveMessage → Member → Discovery → Option Discovery
learn_existing_member proto now m am mem d =
    let id = string_of mem.pki_id in
    m.envelope >>= λ e. get d.id_to_member id >>= λ peer.
    let d' = record d {
      id_to_member =
          put d.id_to_member id (update_peer peer mem (disclosed proto e peer.internal_endpoint));
    } in
    if has d.dead_last_ts id
    then some d'
    else elim (get d.alive_last_ts id) [ none ↦ some d' | some last ↦ refresh now m am mem last d' ]

-- `resurrectMember`
unfoldable pub resurrect_member :
    Proto → ℕ → SignedGossipMessage → Member → PeerTime → Discovery → Option Discovery
resurrect_member proto now m mem t d =
    let id = string_of mem.pki_id in
    m.envelope >>= λ e. some (record d {
      alive_last_ts = put d.alive_last_ts id (stamp now t);
      id_to_member =
          put d.id_to_member id
            (peer_at mem (disclosed proto e (internal_of (get d.id_to_member id))));
      dead_last_ts = delete d.dead_last_ts id;
      dead_membership = remove_msg d.dead_membership mem.pki_id;
      alive_membership = put_msg d.alive_membership mem.pki_id m;
    })

-- the end of `handleAliveMessage`: what is known of the peer is replaced by what is newer
unfoldable pub update_alive :
    Proto → ℕ → SignedGossipMessage → AliveMessage → Member → Discovery → Option Discovery
unfolding learn_existing_member before
update_alive proto now m am mem d = elim (get d.alive_last_ts (string_of mem.pki_id)) [
  | none ↦ some d
  | some last ↦ am.timestamp >>= λ t.
      if before last t then learn_existing_member proto now m am mem d else some d
]

-- `handleAliveMessage`, for a message that is valid
unfoldable pub handle_valid_message :
    Proto → ℕ → SignedGossipMessage → AliveMessage → Member → Discovery → Option Discovery
unfolding learn_new_members resurrect_member before update_alive
handle_valid_message proto now m am mem d =
    let id = string_of mem.pki_id in
    if bytes_equal mem.pki_id d.self.pki_id
    then some d
    else if not (has d.id_to_member id)
    then learn_new_members proto now (m ∷ []) [] d
    else elim (get d.dead_last_ts id) [
      | none ↦ update_alive proto now m am mem d
      | some last ↦
          if has d.alive_last_ts id
          then some d
          else am.timestamp >>= λ t.
              if not (before last t)
              then some d
              else resurrect_member proto now m mem t d >>= update_alive proto now m am mem
    ]

-- `handleAliveMessage`
unfoldable pub handle_alive_message :
    Proto → Map Str ℕ → ℕ → SignedGossipMessage → Discovery → Option Discovery
unfolding validate_alive_msg handle_valid_message
handle_alive_message proto times now m d =
    let (is, valid) = validate_alive_msg times now m d.id_mapper in
    let d' = record d { id_mapper = is } in
    if not valid
    then some d'
    else alive_of m >>= λ (am, mem). handle_valid_message proto now m am mem d'
