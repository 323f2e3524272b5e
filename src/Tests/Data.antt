-- ===== src/Tests/Data.antt =====
-- The peers and the messages of the examples.
use grpc_gossip.Prelude.{ℕ, Slice, nil, bytes, string_of, none, some, [], ◌∷◌}
use grpc_gossip.Errors.{ok}
use grpc_gossip.Types.{PeerTime, Member, Envelope, AliveMessage, Tag, Content, alive_msg, data_msg}
use grpc_gossip.Message.{SignedGossipMessage}
use grpc_gossip.Signing.{Proto}
use grpc_gossip.Crypto.{CryptoService}
use grpc_gossip.Selecting.{Peer}

-- two peers, named by one byte each
abbrev pub ann : Slice
ann = bytes (1 ∷ [])

abbrev pub bob : Slice
bob = bytes (2 ∷ [])

abbrev pub envelope : Envelope
envelope = record { payload = bytes (5 ∷ []); signature = bytes (5 ∷ []); secret_envelope = none }

abbrev pub message : Content → SignedGossipMessage
message c = record {
  envelope = some envelope;
  message = record { nonce = 0; channel = nil; tag = Tag.empty; content = c };
}

abbrev pub time : ℕ → PeerTime
time n = record { inc_num = 1; seq_num = n }

abbrev pub member : Slice → Member
member id = record { endpoint = 7 ∷ []; metadata = nil; pki_id = id }

abbrev pub alive : Slice → ℕ → AliveMessage
alive id n = record { membership = some (member id); timestamp = some (time n); identity = nil }

abbrev pub alive_message : Slice → ℕ → SignedGossipMessage
alive_message id n = message (alive_msg (alive id n))

-- a block with a number
abbrev pub block : ℕ → SignedGossipMessage
block n =
    message (
      data_msg (record { payload = some (record { seq_num = n; block = nil; private_data = [] }) }))

-- a library that reads one message from every encoding
abbrev pub proto_of : SignedGossipMessage → Proto
proto_of m = record {
  marshal = λ _. ok (bytes (5 ∷ []));
  unmarshal = λ _. ok m.message;
  marshal_secret = λ _. ok (bytes (6 ∷ []));
  unmarshal_secret = λ _. ok (9 ∷ []);
}

abbrev pub lenient : CryptoService
lenient = record { allowed_pki_ids = none; revoked_pki_ids = none }

abbrev pub peer : Slice → Peer
peer id = record {
  endpoint = 7 ∷ [];
  internal_endpoint = string_of id;
  pki_id = id;
  metadata = nil;
  properties = none;
  envelope = none;
}
