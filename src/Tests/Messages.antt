-- ===== src/Tests/Messages.antt =====
-- Tags, signatures and the identity mapper on small inputs.
use grpc_gossip.Prelude.{
  ◌≡◌, refl, nil, bytes, string_of, str_eq, none, some, List, [], ◌∷◌, get, put, string_eq,
}
use grpc_gossip.Errors.{ok}
use grpc_gossip.Types.{Envelope, block_msg, hello, chan_and_org, GossipMessage}
use grpc_gossip.Message.{SignedGossipMessage}
use grpc_gossip.Crypto
use grpc_gossip.Crypto.{CryptoService, get_pki_id_of_cert, expiration, validate_id_type}
use grpc_gossip.Signing
use grpc_gossip.Signing.{verify, noop_sign, sign, sign_secret, to_gossip_message, Proto}
use grpc_gossip.Signing.RoundTrip.{sign-verify}
use grpc_gossip.Identity.{IdMapper, get_id, put_id, insert_id, new_id_mapper}
use grpc_gossip.Identity.Mapping.{Call, put_call, get_call, run, after, get_id-run, IsValid}
use grpc_gossip.Tests.Data.{ann, bob, alive_message, proto_of, lenient}

abbrev block_hello : GossipMessage
block_hello = record {
  nonce = 0;
  channel = ann;
  tag = chan_and_org;
  content = hello (record { nonce = 4; metadata = nil; msg_type = block_msg });
}

abbrev bare : SignedGossipMessage
bare = record (alive_message ann 1) { envelope = none }

sign-verify_example :
    (e : Envelope) × ((sign (proto_of bare) Crypto.sign bare).1 ≡ ok e)
    × (verify
          (record bare { envelope = some (sign_secret (proto_of bare) Crypto.sign (9 ∷ []) e).0 })
          bob
          Crypto.verify
        ≡ none)
    × (to_gossip_message (proto_of bare) (sign_secret (proto_of bare) Crypto.sign (9 ∷ []) e).0
        ≡ ok (record bare {
          envelope = some (sign_secret (proto_of bare) Crypto.sign (9 ∷ []) e).0;
        }))
sign-verify_example =
    sign-verify (proto_of bare) bob bare (9 ∷ []) (bytes (5 ∷ [])) (bytes (6 ∷ [])) refl refl refl
      refl refl (λ b h. refl)

unsigned : (noop_sign (proto_of bare) bare.message).1 ≡ none
unfolding noop_sign sign Signing.seal
unsigned = refl

abbrev calls : List Call
calls = put_call 5 bob bob ∷ get_call 6 bob ∷ []

bob_found : (get_id 7 bob (run [] calls (new_id_mapper [] 1 lenient ann))).1 ≡ ok bob
unfolding get_id run after new_id_mapper put_id insert_id get put str_eq get_pki_id_of_cert
    expiration validate_id_type
bob_found = refl

get_id-run_example : string_of (get_pki_id_of_cert bob) ≡ string_of bob
get_id-run_example = get_id-run [] 1 7 lenient ann bob bob calls bob_found

-- Ann's own identity, and Bob's, which is revoked
abbrev mapper : IdMapper
mapper = record {
  mcs = record { allowed_pki_ids = none; revoked_pki_ids = some ((2 ∷ [], tt) ∷ []) };
  pki_id_to_cert =
      (
        1 ∷ [],
        record { pki_id = ann; last_access_time = 1; peer_id = ann; expiration_timer = none },
      )
      ∷ (
        2 ∷ [],
        record { pki_id = bob; last_access_time = 1; peer_id = bob; expiration_timer = none },
      )
      ∷ [];
  self_pki_id = 1 ∷ [];
}

mapper-IsValid : IsValid mapper
unfolding get_pki_id_of_cert
mapper-IsValid = record { bound = ((refl, refl), ((refl, refl), tt)) }
