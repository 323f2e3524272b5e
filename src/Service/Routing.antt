-- ===== src/Service/Routing.antt =====
-- Which messages reach the discovery service (gossip/gossip.go: selectOnlyDiscoveryMessages, and its
-- block in handleMessage). `none` is a panic.
use grpc_gossip.Prelude.{
  ◌≡◌, Slice, bytes_equal, Bool, true, false, not, ◌||◌, is_some, Option, none, some, ◌>>=◌,
  if◌then◌else◌, arith, Option-cases, inl, inr,
}
use grpc_gossip.Errors.{Result, ok, err, Result-cases}
use grpc_gossip.Types.{
  mem_req, MembershipRequest, Envelope, Member, AliveMessage, get_alive_msg, get_mem_req,
  get_mem_res,
}
use grpc_gossip.Message.{SignedGossipMessage}
use grpc_gossip.Signing.{Proto, to_gossip_message}
use grpc_gossip.Discovery.State.{alive_of}

unfoldable pub select_only_discovery_messages : SignedGossipMessage → Bool
select_only_discovery_messages m =
    let c = m.message.content in
    is_some (get_alive_msg c) || is_some (get_mem_req c) || is_some (get_mem_res c)

-- the tests of a membership request's self information, against the PKI-ID of the connection
abbrev pub check_self_info : Slice → Result SignedGossipMessage → Option Bool
check_self_info sender (err x) = some false
check_self_info sender (ok s) =
    if not (is_some (get_alive_msg s.message.content))
    then some false
    else alive_of s >>= λ (am, mem). some (bytes_equal mem.pki_id sender)

abbrev pub check_mem_req : Proto → Slice → Option MembershipRequest → Option Bool
check_mem_req proto sender none = some true
check_mem_req proto sender (some r) =
    r.self_information >>= λ env. check_self_info sender (to_gossip_message proto env)

-- whether a message goes to `forwardDiscoveryMsg`
unfoldable pub is_forwarded : Proto → Slice → SignedGossipMessage → Option Bool
unfolding select_only_discovery_messages
is_forwarded proto sender m =
    if select_only_discovery_messages m
    then check_mem_req proto sender (get_mem_req m.message.content)
    else some false

-- A membership request that is forwarded carries an alive message of the very peer that the connection
-- is to: the discovery service does not panic at its self information.
pub forwarded_mem_req :
    (proto : Proto) (sender : Slice) (m : SignedGossipMessage) (r : MembershipRequest)
    → m.message.content ≡ mem_req r
    → is_forwarded proto sender m ≡ some true
    → (env : Envelope) × (s : SignedGossipMessage) × (a : AliveMessage × Member)
      × (r.self_information ≡ some env)
      × (to_gossip_message proto env ≡ ok s)
      × (alive_of s ≡ some a)
      × (bytes_equal a.1.pki_id sender ≡ true)
unfolding is_forwarded
forwarded_mem_req proto sender m r is_req h = elim (Option-cases r.self_information) [
  | inl bare ↦ absurd (ground (arith, is_req, bare, h))
  | inr (env, sent) ↦ elim (Result-cases (to_gossip_message proto env)) [
    | inr (x, unparsed) ↦ absurd (ground (arith, is_req, sent, unparsed, h))
    | inl (s, parsed) ↦ elim (Option-cases (alive_of s)) [
      | inl no_member ↦ absurd (ground (arith, is_req, sent, parsed, no_member, h))
      | inr ((am, mem), a) ↦
          (env, s, (am, mem), sent, parsed, a, ground (arith, is_req, sent, parsed, a, h))
    ]
  ]
]

-- A membership request without self information makes handleMessage panic: the envelope is followed
-- though it is nil.
pub mem_req_without_self_panics :
    (proto : Proto) (sender : Slice) (m : SignedGossipMessage) (r : MembershipRequest)
    → m.message.content ≡ mem_req r
    → r.self_information ≡ none
    → is_forwarded proto sender m ≡ none
unfolding is_forwarded
mem_req_without_self_panics proto sender m r is_req bare = ground (arith, is_req, bare)
