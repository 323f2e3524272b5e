-- ===== src/Signing/RoundTrip.antt =====
-- What signing, verifying and encoding do to each other (gossip/msg.go).
use grpc_gossip.Prelude.{
  Str, Slice, bytes, is_empty, string_of, str_eq_refl, ◌≡◌, ◌≢◌, ◌↔◌, refl, false, Option, none,
  some, arith,
}
use grpc_gossip.Errors.{ok}
use grpc_gossip.Types.{SecretEnvelope, Envelope, GossipMessage}
use grpc_gossip.Message.{SignedGossipMessage}
use grpc_gossip.Crypto
use grpc_gossip.Signing.{
  Proto, Verifier, sign, noop_sign, verify, verify_secret, verify_envelope, to_gossip_message,
  sign_secret,
}

-- the encoding of `m` is read back as `m`
abbrev pub ReadsBack : Proto → GossipMessage → Type 0
ReadsBack proto m = (b : Slice) → proto.marshal m ≡ ok b → proto.unmarshal b ≡ ok m

-- A payload and a signature that are there, and that the verifier accepts.
abbrev pub Accepts : Verifier → Slice → Slice → Slice → Type 0
Accepts verifier id sig payload =
    (is_empty (string_of payload) ≡ false)
    × (is_empty (string_of sig) ≡ false)
    × (verifier id sig payload ≡ none)

abbrev pub SecretAccepted : Verifier → Slice → Option SecretEnvelope → Type 0
SecretAccepted verifier id none = Unit
SecretAccepted verifier id (some s) = Accepts verifier id s.signature s.payload

abbrev pub EnvelopeAccepted : Verifier → Slice → Option Envelope → Type 0
EnvelopeAccepted verifier id none = ⊥
EnvelopeAccepted verifier id (some e) =
    Accepts verifier id e.signature e.payload × SecretAccepted verifier id e.secret_envelope

accepted_of :
    (verifier : Verifier) (id : Slice) (m : SignedGossipMessage)
    → verify m id verifier ≡ none
    → EnvelopeAccepted verifier id m.envelope
unfolding verify
accepted_of verifier id m h = ground arith

of_accepted :
    (verifier : Verifier) (id : Slice) (m : SignedGossipMessage)
    → EnvelopeAccepted verifier id m.envelope
    → verify m id verifier ≡ none
unfolding verify
of_accepted verifier id m h = go m.envelope h
  where
    secret :
        (s : Option SecretEnvelope)
        → SecretAccepted verifier id s
        → verify_secret id verifier s ≡ none
    secret none h = refl
    secret (some s) h = ground arith

    go :
        (e : Option Envelope)
        → EnvelopeAccepted verifier id e
        → verify_envelope id verifier e ≡ none
    go none h = absurd h
    go (some e) h = ground (arith, secret e.secret_envelope h.1)

-- `Verify` accepts a message exactly if it has an envelope with a payload and a signature that the
-- verifier accepts, and its secret envelope, if it has one, does too.
pub verify_iff :
    (verifier : Verifier) (id : Slice) (m : SignedGossipMessage)
    → (verify m id verifier ≡ none) ↔ EnvelopeAccepted verifier id m.envelope
verify_iff verifier id m = (accepted_of verifier id m, of_accepted verifier id m)

-- A message that the naive crypto service signs, with the secret envelope that it signs too, verifies
-- under every identity and is read back from its envelope as it was, if the library encodes the
-- message and the secret with at least one byte and reads the message back.
pub sign-verify :
    (proto : Proto) (id : Slice) (m : SignedGossipMessage) (secret : Str) (payload hidden : Slice)
    → m.envelope ≡ none
    → proto.marshal m.message ≡ ok payload
    → proto.marshal_secret secret ≡ ok hidden
    → is_empty (string_of payload) ≡ false
    → is_empty (string_of hidden) ≡ false
    → ReadsBack proto m.message
    → (e : Envelope) × ((sign proto Crypto.sign m).1 ≡ ok e)
      × (verify
            (record m { envelope = some (sign_secret proto Crypto.sign secret e).0 })
            id
            Crypto.verify
          ≡ none)
      × (to_gossip_message proto (sign_secret proto Crypto.sign secret e).0
          ≡ ok (record m { envelope = some (sign_secret proto Crypto.sign secret e).0 }))
unfolding sign verify to_gossip_message sign_secret Crypto.sign Crypto.verify
sign-verify proto id m secret payload hidden none_yet enc henc p h back = (
  record { payload = payload; signature = bytes (string_of payload); secret_envelope = none },
  ground arith,
  ground (arith, str_eq_refl (string_of payload), str_eq_refl (string_of hidden)),
  ground (arith, back payload),
)

-- A message of `NoopSign` never verifies: its signature is empty.
pub verify-noop_sign :
    (proto : Proto) (verifier : Verifier) (id : Slice) (m : GossipMessage)
    → (noop_sign proto m).1 ≡ none
    → verify (noop_sign proto m).0 id verifier ≢ none
unfolding noop_sign verify
verify-noop_sign proto verifier id m h = ground arith
