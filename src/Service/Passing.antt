-- ===== src/Service/Passing.antt =====
-- What the loop over an alive message sends to whom (gossip/gossip.go, sendGossipBatch).
use grpc_gossip.Prelude.{
  ◌≡◌, refl, Bool, true, false, not, ◌&&◌, Option, none, some, ◌>>=◌, List, [], ◌∷◌, map, filter,
  All, arith, Holds, Holds-bind, Holds-some, Holds-same, choose, Bool-cases, Option-cases, inl, inr,
  ◌⊎◌,
}
use grpc_gossip.Types.{Envelope}
use grpc_gossip.Message.{SignedGossipMessage}
use grpc_gossip.Selecting.{RemotePeer}
use grpc_gossip.Service.Orgs.{Orgs, is_in_my_org, has_external_endpoint, strip_message}
use grpc_gossip.Service.Forwarding.{send_alive}
use grpc_gossip.Service.Secrets.{NoSecret}

-- the second is the first, or the first without its secret envelope and otherwise the same
abbrev pub Unaltered : SignedGossipMessage → SignedGossipMessage → Type 0
Unaltered m m' =
    (m'.message ≡ m.message)
    × ((m'.envelope ≡ m.envelope)
        ⊎ ((e : Envelope) × (e' : Envelope) × (m.envelope ≡ some e)
            × (m'.envelope ≡ some e')
            × (e'.payload ≡ e.payload)
            × (e'.signature ≡ e.signature)
            × (e'.secret_envelope ≡ none)))

pub strip-Unaltered :
    (m n : SignedGossipMessage) (e : Envelope)
    → Unaltered m n
    → n.envelope ≡ some e
    → Unaltered m (strip_message n e)
strip-Unaltered m n e (same, inl kept) env = (
  same,
  inr (e, record e { secret_envelope = none }, ground (arith, kept, env), refl, refl, refl, refl),
)
strip-Unaltered m n e (same, inr (x, x', before, after, payload, signature, bare)) env = (
  same,
  inr (
    x,
    record e { secret_envelope = none },
    before,
    refl,
    ground (arith, after, env, payload),
    ground (arith, after, env, signature),
    refl,
  ),
)

module _ (o : Orgs) (foreign : Bool) where
  -- an alive message of another organization goes only to peers with an external endpoint
  abbrev pub is_reachable : RemotePeer → Bool
  is_reachable p = not (foreign && not (has_external_endpoint o p.pki_id))

  -- the peer is of this organization, or the message has no secret
  abbrev pub Discreet : SignedGossipMessage × RemotePeer → Type 0
  Discreet (m, p) = (is_in_my_org o p.pki_id ≡ true) ⊎ NoSecret m.envelope

  abbrev pub Passed :
      List RemotePeer → SignedGossipMessage × List (SignedGossipMessage × RemotePeer) → Type 0
  Passed peers (left, sent) = (map (λ s. s.1) sent ≡ filter is_reachable peers) × All Discreet sent

  abbrev Outcome : Type 0
  Outcome = Option (SignedGossipMessage × List (SignedGossipMessage × RemotePeer))

  abbrev sent_on : SignedGossipMessage → RemotePeer → Outcome → Outcome
  sent_on m p rest = rest >>= λ (left, sent). some (left, (m, p) ∷ sent)

  Passed-skip :
      (p : RemotePeer) (peers : List RemotePeer) (rest : Outcome)
      → (foreign && not (has_external_endpoint o p.pki_id)) ≡ true
      → Holds (Passed peers) rest
      → Holds (Passed (p ∷ peers)) rest
  Passed-skip p peers none far h = tt
  Passed-skip p peers (some (left, sent)) far h = (ground (arith, far, h.0), h.1)

  Passed-more :
      (p : RemotePeer) (peers : List RemotePeer) (m : SignedGossipMessage) (rest : Outcome)
      → (foreign && not (has_external_endpoint o p.pki_id)) ≡ false
      → Discreet (m, p)
      → Holds (Passed peers) rest
      → Holds (Passed (p ∷ peers)) (sent_on m p rest)
  Passed-more p peers m none near d h = tt
  Passed-more p peers m (some (left, sent)) near d h = (ground (arith, near, h.0), (d, h.1))

  send_alive-Passed :
      (peers : List RemotePeer) (m : SignedGossipMessage)
      → Holds (Passed peers) (send_alive o foreign peers m)
  unfolding send_alive
  send_alive-Passed [] m = (refl, tt)
  send_alive-Passed (p ∷ peers) m =
      elim (Bool-cases (foreign && not (has_external_endpoint o p.pki_id))) [
        | inl far ↦
            Holds-same (Passed (p ∷ peers)) _ (send_alive o foreign peers m) (ground (arith, far))
              (Passed-skip p peers (send_alive o foreign peers m) far (send_alive-Passed peers m))
        | inr near ↦ elim (Bool-cases (is_in_my_org o p.pki_id)) [
          | inl ours ↦
              Holds-same (Passed (p ∷ peers)) _ (sent_on m p (send_alive o foreign peers m))
                (ground (arith, near, ours))
                (Passed-more p peers m (send_alive o foreign peers m) near (inl ours)
                  (send_alive-Passed peers m))
          | inr theirs ↦ elim (Option-cases m.envelope) [
            | inl bare ↦
                Holds-same (Passed (p ∷ peers)) _ none (ground (arith, near, theirs, bare)) tt
            | inr (e, env) ↦
                Holds-same (Passed (p ∷ peers)) _
                  (sent_on (strip_message m e) p (send_alive o foreign peers (strip_message m e)))
                  (ground (arith, near, theirs, env))
                  (Passed-more p peers (strip_message m e)
                    (send_alive o foreign peers (strip_message m e)) near (inr refl)
                    (send_alive-Passed peers (strip_message m e)))
          ]
        ]
      ]

  module _ (m : SignedGossipMessage) where
    abbrev Kept : SignedGossipMessage × List (SignedGossipMessage × RemotePeer) → Type 0
    Kept (left, sent) = All (λ s. Unaltered m s.0) sent

    sent_on-Kept :
        (n : SignedGossipMessage) (p : RemotePeer) (rest : Outcome)
        → Unaltered m n
        → Holds Kept rest
        → Holds Kept (sent_on n p rest)
    sent_on-Kept n p none same h = tt
    sent_on-Kept n p (some (left, sent)) same h = (same, h)

    send_alive-Kept :
        (peers : List RemotePeer) (n : SignedGossipMessage)
        → Unaltered m n
        → Holds Kept (send_alive o foreign peers n)
    unfolding send_alive
    send_alive-Kept [] n same = tt
    send_alive-Kept (p ∷ peers) n same =
        choose (Holds Kept) (foreign && not (has_external_endpoint o p.pki_id))
          (send_alive o foreign peers n) _ (send_alive-Kept peers n same)
          (choose (Holds Kept) (not (is_in_my_org o p.pki_id)) _
            (sent_on n p (send_alive o foreign peers n))
            (Holds-bind Kept n.envelope _ (λ e env.
              sent_on-Kept (strip_message n e) p (send_alive o foreign peers (strip_message n e))
                (strip-Unaltered m n e same env)
                (send_alive-Kept peers (strip_message n e) (strip-Unaltered m n e same env))))
            (sent_on-Kept n p (send_alive o foreign peers n) same (send_alive-Kept peers n same)))

  -- An alive message is sent once to each selected peer, in their order, but those without an external
  -- endpoint if it is of another organization; each gets the message itself, with its payload and its
  -- signature, at most without its secret envelope; and the secret goes only to peers of this
  -- organization.
  pub send_alive_lem :
      (peers : List RemotePeer) (m left : SignedGossipMessage)
      (sent : List (SignedGossipMessage × RemotePeer))
      → send_alive o foreign peers m ≡ some (left, sent)
      → (map (λ s. s.1) sent ≡ filter is_reachable peers)
        × All Discreet sent
        × All (λ s. Unaltered m s.0) sent
  send_alive_lem peers m left sent e =
      let (same, discreet) =
        Holds-some (Passed peers) _ (left, sent) (send_alive-Passed peers m) e in
      (
        same,
        discreet,
        Holds-some (Kept m) _ (left, sent) (send_alive-Kept m peers m (refl, inl refl)) e,
      )

  abbrev Bare : SignedGossipMessage × List (SignedGossipMessage × RemotePeer) → Type 0
  Bare (left, sent) = All (λ s. NoSecret s.0.envelope) sent

  Bare-more :
      (p : RemotePeer) (m : SignedGossipMessage) (rest : Outcome)
      → NoSecret m.envelope
      → Holds Bare rest
      → Holds Bare (sent_on m p rest)
  Bare-more p m none n h = tt
  Bare-more p m (some (left, sent)) n h = (n, h)

  send_alive-Bare :
      (peers : List RemotePeer) (m : SignedGossipMessage)
      → NoSecret m.envelope
      → Holds Bare (send_alive o foreign peers m)
  unfolding send_alive
  send_alive-Bare [] m n = tt
  send_alive-Bare (p ∷ peers) m n =
      choose (Holds Bare) (foreign && not (has_external_endpoint o p.pki_id))
        (send_alive o foreign peers m) _ (send_alive-Bare peers m n)
        (choose (Holds Bare) (not (is_in_my_org o p.pki_id)) _
          (sent_on m p (send_alive o foreign peers m))
          (Holds-bind Bare m.envelope _ (λ e _.
            Bare-more p (strip_message m e) (send_alive o foreign peers (strip_message m e)) refl
              (send_alive-Bare peers (strip_message m e) refl)))
          (Bare-more p m (send_alive o foreign peers m) n (send_alive-Bare peers m n)))

  -- Once an alive message has been sent to a peer of another organization, no peer after it gets the
  -- secret envelope, not even one of this organization.
  pub secret_lost_after_foreign :
      (p : RemotePeer) (peers : List RemotePeer) (m left : SignedGossipMessage)
      (sent : List (SignedGossipMessage × RemotePeer))
      → is_reachable p ≡ true
      → is_in_my_org o p.pki_id ≡ false
      → send_alive o foreign (p ∷ peers) m ≡ some (left, sent)
      → All (λ s. NoSecret s.0.envelope) sent
  unfolding send_alive
  secret_lost_after_foreign p peers m left sent near theirs h = elim (Option-cases m.envelope) [
    | inl bare ↦ ground (arith, near, theirs, bare, h)
    | inr (e, env) ↦
        Holds-some Bare
          (sent_on (strip_message m e) p (send_alive o foreign peers (strip_message m e)))
          (left, sent)
          (Bare-more p (strip_message m e) (send_alive o foreign peers (strip_message m e)) refl
            (send_alive-Bare peers (strip_message m e) refl))
          (ground (arith, near, theirs, env, h))
  ]
