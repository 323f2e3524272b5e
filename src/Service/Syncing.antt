-- ===== src/Service/Syncing.antt =====
-- The membership request of a synchronisation (gossip/discovery.go, InitiateSync: its last loop, and
-- SendToPeer). It is one request that all the peers get, and `request` is its self information;
-- `none` is a panic.
use grpc_gossip.Prelude.{
  ◌≡◌, refl, nil, string_of, is_empty, bytes_equal, Bool, true, false, not, ◌&&◌, is_some, Option,
  none, some, ◌>>=◌, List, [], ◌∷◌, All, Holds, Holds-some, Holds-bind, choose, arith, Option-cases,
  Bool-cases, inl, inr, ◌⊎◌, if◌then◌else◌,
}
use grpc_gossip.Errors.{Result, ok, err, Result-cases}
use grpc_gossip.Types.{Envelope, Tag, GossipMessage, mem_req}
use grpc_gossip.Message.{SignedGossipMessage}
use grpc_gossip.Selecting.{Peer}
use grpc_gossip.Signing.{Proto, to_gossip_message, noop_sign}
use grpc_gossip.Service.Orgs.{Orgs, unknown_org, strip_message}
use grpc_gossip.Service.Disclosure.{omit_concealed_fields}
use grpc_gossip.Service.Secrets.{NoSecret}

abbrev request_with : Option Envelope → GossipMessage
request_with e = record {
  nonce = 0;
  channel = nil;
  tag = Tag.empty;
  content = mem_req (record { self_information = e; known = [] });
}

abbrev parsed : Result SignedGossipMessage → Option SignedGossipMessage
parsed (ok m) = some m
parsed (err x) = none

-- what `SendToPeer` makes of the request's self information
unfoldable pub disclosed_request : Orgs → Proto → Peer → Option Envelope → Option (Option Envelope)
unfolding omit_concealed_fields
disclosed_request o proto p request =
    if is_empty (string_of p.pki_id)
    then some request
    else request >>= λ e. parsed (to_gossip_message proto e) >>= λ m.
        omit_concealed_fields o p m >>= λ m'. some m'.envelope

-- `SendToPeer`: a peer without PKI-ID gets the message as InitiateSync has encoded it, with the
-- self information `original`; the others get it encoded anew, unless that fails
abbrev sent_to :
    Proto
    → Option Envelope
    → Peer
    → Option Envelope
    → List (Peer × Option Envelope)
    → List (Peer × Option Envelope)
sent_to proto original p request rest =
    if is_empty (string_of p.pki_id)
    then (p, original) ∷ rest
    else if is_some (noop_sign proto (request_with request)).1
    then rest
    else (p, request) ∷ rest

-- the last loop of `InitiateSync`
unfoldable pub send_requests :
    Orgs
    → Proto
    → Option Envelope
    → List Peer
    → Option Envelope
    → Option (List (Peer × Option Envelope))
unfolding disclosed_request noop_sign
send_requests o proto original [] request = some []
send_requests o proto original (p ∷ peers) request =
    disclosed_request o proto p request >>= λ request'.
    send_requests o proto original peers request' >>= λ rest.
    some (sent_to proto original p request' rest)

-- what a peer with a PKI-ID gets is without the secret
abbrev pub Lost : Peer × Option Envelope → Type 0
Lost (p, e) = (is_empty (string_of p.pki_id) ≡ true) ⊎ NoSecret e

module _ (o : Orgs) (proto : Proto) (original : Option Envelope) where
  abbrev pub is_foreign : Peer → Bool
  is_foreign p =
      not (is_empty (string_of p.pki_id))
      && (not (unknown_org (o.org_of p.pki_id)) && not (bytes_equal o.self_org (o.org_of p.pki_id)))

  abbrev pub Discreet : Peer × Option Envelope → Type 0
  Discreet (p, e) = (is_foreign p ≡ false) ⊎ NoSecret e

  abbrev Bare : Option Envelope → Type 0
  Bare e = NoSecret e

  all-Holds :
      (P : Option Envelope → Type 0) (r : Option (Option Envelope))
      → ((e : Option Envelope) → P e)
      → Holds P r
  all-Holds P none h = tt
  all-Holds P (some e) h = h e

  abbrev BareMessage : SignedGossipMessage → Type 0
  BareMessage m = NoSecret m.envelope

  stripped-Bare :
      (m : SignedGossipMessage)
      → Holds Bare ((m.envelope >>= λ e. some (strip_message m e)) >>= λ m'. some m'.envelope)
  stripped-Bare m = elim (Option-cases m.envelope) [
    | inl bare ↦ rw bare tt
    | inr (e, env) ↦ rw env refl
  ]

  omitted-Bare :
      (p : Peer) (m : SignedGossipMessage)
      → NoSecret m.envelope
      → Holds BareMessage (omit_concealed_fields o p m)
  unfolding omit_concealed_fields
  omitted-Bare p m bare =
      choose (Holds BareMessage) (unknown_org (o.org_of p.pki_id)) (some m) _ bare (
        choose (Holds BareMessage) (not (bytes_equal o.self_org (o.org_of p.pki_id))) _ (some m)
          (Holds-bind BareMessage m.envelope _ (λ e _. refl)) bare)

  disclosed-Bare :
      (p : Peer) (request : Option Envelope)
      → is_foreign p ≡ true
      → Holds Bare (disclosed_request o proto p request)
  unfolding disclosed_request omit_concealed_fields
  disclosed-Bare p request far =
      let named : is_empty (string_of p.pki_id) ≡ false = ground (arith, far) in
      let known : unknown_org (o.org_of p.pki_id) ≡ false = ground (arith, far) in
      let other : bytes_equal o.self_org (o.org_of p.pki_id) ≡ false = ground (arith, far) in
      rw (named, known, other)
        (Holds-bind Bare request _
          (λ e _. Holds-bind Bare (parsed (to_gossip_message proto e)) _ (λ m _. stripped-Bare m)))

  parsed_same :
      (e : Envelope) (m : SignedGossipMessage)
      → parsed (to_gossip_message proto e) ≡ some m
      → m.envelope ≡ some e
  unfolding to_gossip_message
  parsed_same e m h = elim (Result-cases (proto.unmarshal e.payload)) [
    | inl (x, read) ↦ ground (arith, read, h)
    | inr (x, failed) ↦ absurd (ground (arith, failed, h))
  ]

  disclosed-stays-Bare :
      (p : Peer) (request : Option Envelope)
      → NoSecret request
      → Holds Bare (disclosed_request o proto p request)
  unfolding disclosed_request omit_concealed_fields
  disclosed-stays-Bare p none bare =
      choose (Holds Bare) (is_empty (string_of p.pki_id)) (some none) none tt tt
  disclosed-stays-Bare p (some e) bare =
      choose (Holds Bare) (is_empty (string_of p.pki_id)) (some (some e)) _ bare (
        Holds-bind Bare (parsed (to_gossip_message proto e)) _ (λ m read.
          Holds-bind Bare (omit_concealed_fields o p m) _ (λ m' done.
            Holds-some BareMessage _ m' (omitted-Bare p m (rw (parsed_same e m read) bare)) done)))

  abbrev Outcome : Type 0
  Outcome = List (Peer × Option Envelope)

  sent_to-Bare :
      (p : Peer) (request : Option Envelope) (rest : Outcome)
      → NoSecret request
      → All Lost rest
      → All Lost (sent_to proto original p request rest)
  sent_to-Bare p request rest bare h = elim (Bool-cases (is_empty (string_of p.pki_id))) [
    | inl unnamed ↦ rw unnamed (inl unnamed, h)
    | inr named ↦ rw named (
        choose (All Lost) (is_some (noop_sign proto (request_with request)).1) rest
          ((p, request) ∷ rest) h (inr bare, h))
  ]

  requests-Bare :
      (peers : List Peer) (request : Option Envelope)
      → NoSecret request
      → Holds (All Lost) (send_requests o proto original peers request)
  unfolding send_requests
  requests-Bare [] request bare = tt
  requests-Bare (p ∷ peers) request bare =
      Holds-bind (All Lost) (disclosed_request o proto p request) _ (λ request' done.
        let bare' = Holds-some Bare _ request' (disclosed-stays-Bare p request bare) done in
        Holds-bind (All Lost) (send_requests o proto original peers request') _ (λ rest went.
          sent_to-Bare p request' rest bare'
            (Holds-some (All Lost) _ rest (requests-Bare peers request' bare') went)))

  -- Once the request of a synchronisation has come to a peer of another organization, no peer after it
  -- that has a PKI-ID gets the secret with the internal endpoint, not even one of this organization.
  pub request_loses_secret :
      (p : Peer) (peers : List Peer) (request : Option Envelope)
      (sent : List (Peer × Option Envelope))
      → is_foreign p ≡ true
      → send_requests o proto original (p ∷ peers) request ≡ some sent
      → All Lost sent
  unfolding send_requests
  request_loses_secret p peers request sent far h =
      Holds-some (All Lost) _ sent
        (Holds-bind (All Lost) (disclosed_request o proto p request) _ (λ request' done.
          let bare' = Holds-some Bare _ request' (disclosed-Bare p request far) done in
          Holds-bind (All Lost) (send_requests o proto original peers request') _ (λ rest went.
            sent_to-Bare p request' rest bare'
              (Holds-some (All Lost) _ rest (requests-Bare peers request' bare') went))))
        h

  sent_to-Discreet :
      (p : Peer) (request : Option Envelope) (rest : Outcome)
      → Discreet (p, request)
      → All Discreet rest
      → All Discreet (sent_to proto original p request rest)
  sent_to-Discreet p request rest d h = elim (Bool-cases (is_empty (string_of p.pki_id))) [
    | inl unnamed ↦ rw unnamed (inl (ground (arith, unnamed)), h)
    | inr named ↦ rw named (
        choose (All Discreet) (is_some (noop_sign proto (request_with request)).1) rest
          ((p, request) ∷ rest) h (d, h))
  ]

  disclosed-Discreet :
      (p : Peer) (request request' : Option Envelope)
      → disclosed_request o proto p request ≡ some request'
      → Discreet (p, request')
  disclosed-Discreet p request request' done = elim (Bool-cases (is_foreign p)) [
    | inr near ↦ inl near
    | inl far ↦ inr (Holds-some Bare _ request' (disclosed-Bare p request far) done)
  ]

  requests-Discreet :
      (peers : List Peer) (request : Option Envelope)
      → Holds (All Discreet) (send_requests o proto original peers request)
  unfolding send_requests
  requests-Discreet [] request = tt
  requests-Discreet (p ∷ peers) request =
      Holds-bind (All Discreet) (disclosed_request o proto p request) _ (λ request' done.
        Holds-bind (All Discreet) (send_requests o proto original peers request') _ (λ rest went.
          sent_to-Discreet p request' rest (disclosed-Discreet p request request' done)
            (Holds-some (All Discreet) _ rest (requests-Discreet peers request') went)))

  -- The request of a synchronisation goes without the secret to every peer that has a PKI-ID and is of a
  -- known organization other than this peer's, in whatever order the peers come.
  pub send_requests-Discreet :
      (peers : List Peer) (request : Option Envelope) (sent : List (Peer × Option Envelope))
      → send_requests o proto original peers request ≡ some sent
      → All Discreet sent
  send_requests-Discreet peers request sent h =
      Holds-some (All Discreet) _ sent (requests-Discreet peers request) h
