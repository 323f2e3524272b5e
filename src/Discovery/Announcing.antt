-- ===== src/Discovery/Announcing.antt =====
-- What a peer announces of itself (gossip/discovery.go: aliveMsgAndInternalEndpoint, SignMessage,
-- createSignedAliveMessage, createMembershipRequest, Self, periodicalSendAlive). `now` is the clock at
-- the call.
use grpc_gossip.Prelude.{
  ℕ, zero, suc, ◌+◌, ◌%◌, ◌^◌, Str, Slice, nil, is_empty, ltb, Bool, true, Option, none, some, List,
  [], ◌∷◌, if◌then◌else◌,
}
use grpc_gossip.Errors.{Result, ok, err, failed_signing}
use grpc_gossip.Types.{
  Member, Envelope, AliveMessage, Content, alive_msg, mem_req, Tag, GossipMessage,
}
use grpc_gossip.Message.{SignedGossipMessage}
use grpc_gossip.Signing.{Proto, seal, sign_secret, noop_sign}
use grpc_gossip.Crypto
use grpc_gossip.Selecting.{Peer}
use grpc_gossip.Service.Orgs.{strip}

-- the part of GossipDiscovery, and of its DiscoverySecurityAdapter, that announces this peer
pub record Announcer : Type 0 where
  pub self : Peer
  pub inc_time : ℕ
  pub seq_num : ℕ
  pub self_alive_message : Option SignedGossipMessage
  -- Id and IncludeIdPeriod of the adapter
  pub id : Slice
  pub include_id_period : ℕ

-- `d.seqNum++` on 64 bits
abbrev pub counted : Announcer → Announcer
counted a = record a { seq_num = (a.seq_num + 1) % 2 ^ 64 }

abbrev pub self_member : Announcer → Member
self_member a = record {
  endpoint = a.self.endpoint;
  metadata = a.self.metadata;
  pki_id = a.self.pki_id;
}

abbrev pub own_alive : Announcer → AliveMessage
own_alive a = record {
  membership = some (self_member a);
  timestamp = some (record { inc_num = a.inc_time; seq_num = a.seq_num });
  identity = nil;
}

abbrev pub bare_alive : Announcer → GossipMessage
bare_alive a = record {
  nonce = 0;
  channel = nil;
  tag = Tag.empty;
  content = alive_msg (own_alive a);
}

-- `aliveMsgAndInternalEndpoint`: the state after it, and the message; the endpoint is that of `self`
unfoldable pub alive_msg_and_internal_endpoint : Announcer → Announcer × GossipMessage
alive_msg_and_internal_endpoint a = (counted a, bare_alive (counted a))

abbrev identified : Slice → Content → Content
identified id (alive_msg am) = alive_msg (record am { identity = id })
identified id c = c

-- the message that `SignMessage` signs
abbrev pub with_identity : ℕ → Announcer → GossipMessage → GossipMessage
with_identity now a m =
    if ltb now a.include_id_period then record m { content = identified a.id m.content } else m

abbrev sealed_with : Proto → Str → Result Envelope → Option Envelope
sealed_with proto endpoint (err x) = none
sealed_with proto endpoint (ok e) =
    some (if is_empty endpoint then e else (sign_secret proto Crypto.sign endpoint e).0)

-- `SignMessage`: the message, which may get the identity, and its envelope
unfoldable pub sign_message :
    Proto → ℕ → Announcer → Str → GossipMessage → GossipMessage × Option Envelope
unfolding seal
sign_message proto now a endpoint m =
    let m' = with_identity now a m in
    (
      m',
      sealed_with proto endpoint
          (seal proto Crypto.sign (record { envelope = none; message = m' })),
    )

abbrev message_of : Bool → GossipMessage → Option Envelope → Result SignedGossipMessage
message_of include_internal m none = err failed_signing
message_of include_internal m (some e) =
    ok (record { envelope = some (if include_internal then e else strip e); message = m })

-- `createSignedAliveMessage`
unfoldable pub create_signed_alive_message :
    Proto → ℕ → Bool → Announcer → Announcer × Result SignedGossipMessage
unfolding alive_msg_and_internal_endpoint sign_message
create_signed_alive_message proto now include_internal a =
    let (a', m) = alive_msg_and_internal_endpoint a in
    let (m', e) = sign_message proto now a' a'.self.internal_endpoint m in
    (a', message_of include_internal m' e)

abbrev request_for : Result SignedGossipMessage → Result GossipMessage
request_for (err x) = err x
request_for (ok m) = ok (record {
  nonce = 0;
  channel = nil;
  tag = Tag.empty;
  content = mem_req (record { self_information = m.envelope; known = [] });
})

-- `createMembershipRequest`
unfoldable pub create_membership_request :
    Proto → ℕ → Bool → Announcer → Announcer × Result GossipMessage
unfolding create_signed_alive_message
create_membership_request proto now include_internal a =
    let (a', m) = create_signed_alive_message proto now include_internal a in (a', request_for m)

-- `Self`
unfoldable pub self_peer : Proto → Announcer → Announcer × Peer
unfolding alive_msg_and_internal_endpoint noop_sign
self_peer proto a =
    let (a', m) = alive_msg_and_internal_endpoint a in
    let (signed, failed) = noop_sign proto m in
    (
      a',
      record {
        endpoint = a.self.endpoint;
        internal_endpoint = [];
        pki_id = a.self.pki_id;
        metadata = a.self.metadata;
        properties = none;
        envelope = elim failed [ none ↦ signed.envelope | some x ↦ none ];
      },
    )

abbrev gossiped : Announcer → Result SignedGossipMessage → Announcer × Option SignedGossipMessage
gossiped a (err x) = (a, none)
gossiped a (ok m) = (record a { self_alive_message = some m }, some m)

-- a turn of `periodicalSendAlive`: the message that is gossiped, or none, which ends the loop
unfoldable pub send_alive_turn : Proto → ℕ → Announcer → Announcer × Option SignedGossipMessage
unfolding create_signed_alive_message
send_alive_turn proto now a =
    let (a', m) = create_signed_alive_message proto now true a in gossiped a' m

-- the messages of n turns, the i-th turn at the time that the clock shows then
unfoldable pub send_alive_loop : Proto → (ℕ → ℕ) → ℕ → ℕ → Announcer → List SignedGossipMessage
unfolding send_alive_turn
send_alive_loop proto clock i zero a = []
send_alive_loop proto clock i (suc n) a =
    let (a', sent) = send_alive_turn proto (clock i) a in
    elim sent [ none ↦ [] | some m ↦ m ∷ send_alive_loop proto clock (i + 1) n a' ]
