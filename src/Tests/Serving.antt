-- ===== src/Tests/Serving.antt =====
-- What the service discloses, on small states.
use grpc_gossip.Prelude.{
  ◌≡◌, refl, Slice, bytes, string_of, str_eq, false, some, [], ◌∷◌, map, filter, All, if◌then◌else◌,
  Option, true,
}
use grpc_gossip.Types.{Envelope, MembershipRequest, mem_req}
use grpc_gossip.Message.{SignedGossipMessage}
use grpc_gossip.Selecting.{RemotePeer, Peer}
use grpc_gossip.Signing.{to_gossip_message}
use grpc_gossip.Discovery.State.{Discovery}
use grpc_gossip.Service.Orgs.{Orgs, is_in_my_org, strip_message}
use grpc_gossip.Service.Disclosure.{Response, create_membership_response}
use grpc_gossip.Service.Forwarding.{send_alive}
use grpc_gossip.Service.Syncing.{send_requests, Lost, request_loses_secret}
use grpc_gossip.Service.Secrets.{NoSecret, HasLost, response_hides, response_loses_secrets}
use grpc_gossip.Service.Routing.{is_forwarded}
use grpc_gossip.Service.Passing.{is_reachable, Discreet, Unaltered, send_alive_lem}
use grpc_gossip.Tests.Data.{ann, bob, alive_message, envelope, peer, lenient, message, proto_of}

-- Ann's organization is that of all peers but Bob
abbrev orgs : Orgs
orgs = record {
  self_org = bytes (10 ∷ []);
  org_of = λ id. if str_eq (string_of id) (string_of bob) then bytes (20 ∷ []) else bytes (10 ∷ []);
  lookup = λ id. some (peer id);
}

-- Ann's alive message with its secret
abbrev sealed : Envelope
sealed = record envelope {
  secret_envelope = some (record { payload = bytes (6 ∷ []); signature = bytes (6 ∷ []) });
}

abbrev secret_message : SignedGossipMessage
secret_message = record (alive_message ann 1) { envelope = some sealed }

abbrev stripped : SignedGossipMessage
stripped = strip_message secret_message sealed

abbrev knowing : SignedGossipMessage → Discovery
knowing m = record {
  self = peer ann;
  dead_last_ts = [];
  alive_last_ts = (3 ∷ [], record { inc_time = 1; seq_num = 1; last_seen = 3 }) ∷ [];
  id_to_member = (3 ∷ [], peer (bytes (3 ∷ []))) ∷ [];
  alive_membership = (3 ∷ [], m) ∷ [];
  dead_membership = [];
  id_mapper = record { mcs = lenient; pki_id_to_cert = []; self_pki_id = 1 ∷ [] };
  to_die = false;
}

abbrev response : Response
response = record { alive = stripped.envelope ∷ stripped.envelope ∷ []; dead = [] }

responds :
    create_membership_response orgs secret_message (peer bob) (knowing secret_message)
    ≡ some (knowing stripped, some response)
unfolding create_membership_response str_eq
responds = refl

response_hides_example : All NoSecret response.alive × All NoSecret response.dead
unfolding str_eq
response_hides_example =
    response_hides orgs (peer bob) refl refl secret_message (knowing secret_message)
      (knowing stripped) response responds

response_loses_secrets_example :
    All (HasLost orgs (peer bob)) (knowing stripped).alive_membership
    × All (HasLost orgs (peer bob)) (knowing stripped).dead_membership
unfolding str_eq
response_loses_secrets_example =
    response_loses_secrets orgs (peer bob) refl refl secret_message (knowing secret_message)
      (knowing stripped) response responds

abbrev to : Slice → RemotePeer
to id = record { endpoint = 7 ∷ []; pki_id = id }

-- Ann's message goes to herself, to Bob and to herself again
sends :
    send_alive orgs false (to ann ∷ to bob ∷ to ann ∷ []) secret_message
    ≡ some (stripped, (secret_message, to ann) ∷ (stripped, to bob) ∷ (stripped, to ann) ∷ [])
unfolding send_alive is_in_my_org str_eq
sends = refl

send_alive_example :
    (map
        (λ (s : SignedGossipMessage × RemotePeer). s.1)
        ((secret_message, to ann) ∷ (stripped, to bob) ∷ (stripped, to ann) ∷ [])
      ≡ filter (is_reachable orgs false) (to ann ∷ to bob ∷ to ann ∷ []))
    × All
        (Discreet orgs false)
        ((secret_message, to ann) ∷ (stripped, to bob) ∷ (stripped, to ann) ∷ [])
    × All
        (λ (s : SignedGossipMessage × RemotePeer). Unaltered secret_message s.0)
        ((secret_message, to ann) ∷ (stripped, to bob) ∷ (stripped, to ann) ∷ [])
send_alive_example =
    send_alive_lem orgs false (to ann ∷ to bob ∷ to ann ∷ []) secret_message stripped
      ((secret_message, to ann) ∷ (stripped, to bob) ∷ (stripped, to ann) ∷ []) sends

sends_on :
    send_alive orgs false (to bob ∷ to ann ∷ []) secret_message
    ≡ some (stripped, (stripped, to bob) ∷ (stripped, to ann) ∷ [])
unfolding send_alive is_in_my_org str_eq
sends_on = refl

bob_foreign : is_in_my_org orgs bob ≡ false
unfolding is_in_my_org str_eq
bob_foreign = refl

-- a request of Bob, that asks with his alive message, or with none
abbrev asks : Option Envelope → MembershipRequest
asks e = record { self_information = e; known = [] }

abbrev asking : Option Envelope → SignedGossipMessage
asking e = message (mem_req (asks e))

forwarded : is_forwarded (proto_of (alive_message bob 2)) bob (asking (some envelope)) ≡ some true
unfolding is_forwarded to_gossip_message str_eq
forwarded = refl

-- Bob's organization is not Ann's, and the third peer's is
abbrev third : Peer
third = peer (bytes (3 ∷ []))

abbrev bare_request : Option Envelope
bare_request = stripped.envelope

sends_requests :
    send_requests orgs (proto_of secret_message) (some sealed) (peer bob ∷ third ∷ []) (some sealed)
    ≡ some ((peer bob, bare_request) ∷ (third, bare_request) ∷ [])
unfolding send_requests str_eq to_gossip_message
sends_requests = refl

request_loses_secret_example : All Lost ((peer bob, bare_request) ∷ (third, bare_request) ∷ [])
unfolding str_eq
request_loses_secret_example =
    request_loses_secret orgs (proto_of secret_message) (some sealed) (peer bob) (third ∷ [])
      (some sealed) ((peer bob, bare_request) ∷ (third, bare_request) ∷ []) refl sends_requests
