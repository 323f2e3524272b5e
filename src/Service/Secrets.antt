-- ===== src/Service/Secrets.antt =====
-- Who gets to see the internal endpoints (gossip/gossip.go: disclosurePolicy, sendGossipBatch).
use grpc_gossip.Prelude.{
  ◌≡◌, Str, bytes_equal, Bool, true, false, not, Option, none, some, ◌>>=◌, List, [], ◌∷◌, All,
  All-append, choose, arith, if◌then◌else◌, Holds, Holds-bind, Holds-some, inl, inr, ◌⊎◌,
}
use grpc_gossip.Types.{Envelope}
use grpc_gossip.Message.{SignedGossipMessage}
use grpc_gossip.Selecting.{Peer}
use grpc_gossip.Discovery.State.{Discovery, MembershipStore}
use grpc_gossip.Service.Orgs.{Orgs, unknown_org}
use grpc_gossip.Service.Disclosure.{
  should_be_disclosed, omit_concealed_fields, disclose, with_entry, Response,
  create_membership_response,
}

abbrev pub NoSecret : Option Envelope → Type 0
NoSecret none = Unit
NoSecret (some e) = e.secret_envelope ≡ none

-- a stored message is not disclosed to the peer, or has no secret
abbrev pub HasLost : Orgs → Peer → Str × SignedGossipMessage → Type 0
HasLost o remote (k, m) = (should_be_disclosed o remote m ≡ some false) ⊎ NoSecret m.envelope

abbrev Hidden : Orgs → Peer → MembershipStore × List (Option Envelope) → Type 0
Hidden o remote (store, envelopes) = All (HasLost o remote) store × All NoSecret envelopes

module _ (o : Orgs) (remote : Peer) (known : unknown_org (o.org_of remote.pki_id) ≡ false)
    (foreign : bytes_equal o.self_org (o.org_of remote.pki_id) ≡ false) where
  omit-NoSecret :
      (m : SignedGossipMessage)
      → Holds (λ m'. NoSecret m'.envelope) (omit_concealed_fields o remote m)
  unfolding omit_concealed_fields
  omit-NoSecret m = ground (arith, known, foreign)

  with_entry-Hidden :
      (k : Str) (m : SignedGossipMessage) (envelopes : List (Option Envelope))
      (rest : Option (MembershipStore × List (Option Envelope)))
      → HasLost o remote (k, m)
      → All NoSecret envelopes
      → Holds (Hidden o remote) rest
      → Holds (Hidden o remote) (with_entry k m envelopes rest)
  with_entry-Hidden k m envelopes none lost hidden h = tt
  with_entry-Hidden k m envelopes (some (store, others)) lost hidden h =
      ((lost, h.0), All-append NoSecret envelopes others hidden h.1)

  turn-Hidden :
      (k : Str) (m : SignedGossipMessage) (rest : Option (MembershipStore × List (Option Envelope)))
      (disclosed : Bool)
      → should_be_disclosed o remote m ≡ some disclosed
      → Holds (Hidden o remote) rest
      → Holds (Hidden o remote) (
          if not disclosed
          then with_entry k m [] rest
          else (omit_concealed_fields o remote m >>= λ m'. with_entry k m' (m'.envelope ∷ []) rest))
  turn-Hidden k m rest false asked h = with_entry-Hidden k m [] rest (inl asked) tt h
  turn-Hidden k m rest true asked h =
      Holds-bind (Hidden o remote) (omit_concealed_fields o remote m) _ (λ m' omitted.
        let hidden = Holds-some (λ m'. NoSecret m'.envelope) _ m' (omit-NoSecret m) omitted in
        with_entry-Hidden k m' (m'.envelope ∷ []) rest (inr hidden) (hidden, tt) h)

  disclose-Hidden : (store : MembershipStore) → Holds (Hidden o remote) (disclose o remote store)
  unfolding disclose
  disclose-Hidden [] = (tt, tt)
  disclose-Hidden ((k, m) ∷ store) =
      Holds-bind (Hidden o remote) (should_be_disclosed o remote m) _ (λ disclosed asked.
        turn-Hidden k m (disclose o remote store) disclosed asked (disclose-Hidden store))

  abbrev Safe : Discovery × Option Response → Type 0
  Safe (d, none) = Unit
  Safe (d, some r) =
      All NoSecret r.alive
      × All NoSecret r.dead
      × All (HasLost o remote) d.alive_membership
      × All (HasLost o remote) d.dead_membership

  create_membership_response-Safe :
      (m : SignedGossipMessage) (d : Discovery)
      → Holds Safe (create_membership_response o m remote d)
  unfolding create_membership_response
  create_membership_response-Safe m d =
      Holds-bind Safe (should_be_disclosed o remote m) _ (λ disclosed asked.
        choose (Holds Safe) (not disclosed) (some (d, none)) _ tt (
          Holds-bind Safe (disclose o remote d.dead_membership) _ (λ (dead_store, dead_peers) dead.
            let gone = Holds-some (Hidden o remote) _ _ (disclose-Hidden d.dead_membership) dead in
            Holds-bind Safe (disclose o remote d.alive_membership) _
              (λ (alive_store, alive_snapshot) alive.
                let here =
                  Holds-some (Hidden o remote) _ _ (disclose-Hidden d.alive_membership) alive in
                Holds-bind Safe (omit_concealed_fields o remote m) _ (λ own omitted.
                  let hidden =
                    Holds-some (λ m'. NoSecret m'.envelope) _ own (omit-NoSecret m) omitted in
                  (
                    All-append NoSecret alive_snapshot (own.envelope ∷ []) here.1 (hidden, tt),
                    gone.1,
                    here.0,
                    gone.0,
                  ))))))

  -- A membership response to a peer of another organization holds no secret envelope.
  pub response_hides :
      (m : SignedGossipMessage) (d d' : Discovery) (r : Response)
      → create_membership_response o m remote d ≡ some (d', some r)
      → All NoSecret r.alive × All NoSecret r.dead
  response_hides m d d' r e =
      let safe = Holds-some Safe _ (d', some r) (create_membership_response-Safe m d) e in
      (safe.0, safe.1)

  -- After a membership response to a peer of another organization the stored messages that were
  -- disclosed to it have lost their secret envelopes themselves, alive members' and dead ones'.
  pub response_loses_secrets :
      (m : SignedGossipMessage) (d d' : Discovery) (r : Response)
      → create_membership_response o m remote d ≡ some (d', some r)
      → All (HasLost o remote) d'.alive_membership × All (HasLost o remote) d'.dead_membership
  response_loses_secrets m d d' r e =
      let safe = Holds-some Safe _ (d', some r) (create_membership_response-Safe m d) e in
      (safe.2, safe.3)
