-- ===== src/Signing.antt =====
-- Signing, verifying and encoding messages (gossip/msg.go: Sign, Verify, NoopSign, ToGossipMessage,
-- SignSecret, InternalEndpoint). The protobuf library is a parameter.
pub mod RoundTrip
use grpc_gossip.Prelude.{
  Str, [], Slice, nil, is_empty, string_of, ◌≡◌, Option, none, some, if◌then◌else◌,
}
use grpc_gossip.Errors.{
  Error, Result, ok, err, ◌>>=◌, error_of, missing_envelope, empty_payload, empty_signature,
}
use grpc_gossip.Types.{SecretEnvelope, Envelope, GossipMessage}
use grpc_gossip.Message.{SignedGossipMessage}

-- proto.Marshal and proto.Unmarshal, at GossipMessage and at Secret
pub record Proto : Type 0 where
  pub marshal : GossipMessage → Result Slice
  pub unmarshal : Slice → Result GossipMessage
  pub marshal_secret : Str → Result Slice
  pub unmarshal_secret : Slice → Result Str

abbrev pub Signer : Type 0
Signer = Slice → Result Slice

-- identity, signature and message; nil if the signature holds
abbrev pub Verifier : Type 0
Verifier = Slice → Slice → Slice → Option Error

abbrev pub secret_of : Option Envelope → Option SecretEnvelope
secret_of none = none
secret_of (some e) = e.secret_envelope

-- The envelope of a signed message, or the error.
unfoldable pub seal : Proto → Signer → SignedGossipMessage → Result Envelope
seal proto signer m = proto.marshal m.message >>= λ payload. signer payload >>= λ sig.
    ok (record { payload = payload; signature = sig; secret_envelope = secret_of m.envelope })

abbrev value_of : Result Envelope → Option Envelope
value_of (ok e) = some e
value_of (err x) = none

-- `Sign` leaves the message without an envelope where it fails.
unfoldable pub sign : Proto → Signer → SignedGossipMessage → SignedGossipMessage × Result Envelope
unfolding seal
sign proto signer m = let e = seal proto signer m in (record m { envelope = value_of e }, e)

-- the signer of `NoopSign` returns nil
unfoldable pub noop_sign : Proto → GossipMessage → SignedGossipMessage × Option Error
unfolding sign
noop_sign proto m =
    let (signed, r) = sign proto (λ _. ok nil) (record { envelope = none; message = m }) in
    (signed, error_of r)

abbrev verify_secret : Slice → Verifier → Option SecretEnvelope → Option Error
verify_secret id verifier none = none
verify_secret id verifier (some s) =
    if is_empty (string_of s.payload)
    then some empty_payload
    else if is_empty (string_of s.signature)
    then some empty_signature
    else verifier id s.signature s.payload

abbrev verify_envelope : Slice → Verifier → Option Envelope → Option Error
verify_envelope id verifier none = some missing_envelope
verify_envelope id verifier (some e) =
    if is_empty (string_of e.payload)
    then some empty_payload
    else if is_empty (string_of e.signature)
    then some empty_signature
    else elim (verifier id e.signature e.payload) [
      | some x ↦ some x
      | none ↦ verify_secret id verifier e.secret_envelope
    ]

unfoldable pub verify : SignedGossipMessage → Slice → Verifier → Option Error
verify m id verifier = verify_envelope id verifier m.envelope

unfoldable pub to_gossip_message : Proto → Envelope → Result SignedGossipMessage
to_gossip_message proto e =
    proto.unmarshal e.payload >>= λ m. ok (record { envelope = some e; message = m })

unfoldable pub seal_secret : Proto → Signer → Str → Result SecretEnvelope
seal_secret proto signer secret = proto.marshal_secret secret >>= λ payload.
    signer payload >>= λ sig. ok (record { payload = payload; signature = sig })

abbrev with_secret : Envelope → Result SecretEnvelope → Envelope × Option Error
with_secret e (ok s) = (record e { secret_envelope = some s }, none)
with_secret e (err x) = (e, some x)

-- `SignSecret` leaves the envelope alone where it fails.
pub sign_secret : Proto → Signer → Str → Envelope → Envelope × Option Error
unfolding seal_secret
sign_secret proto signer secret e = with_secret e (seal_secret proto signer secret)

unfoldable pub internal_endpoint : Proto → SecretEnvelope → Str
internal_endpoint proto s = elim (proto.unmarshal_secret s.payload) [ err x ↦ [] | ok e ↦ e ]
