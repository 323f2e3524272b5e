-- ===== src/Discovery/Listing.antt =====
-- What GetMembership lists (gossip/discovery.go).
use grpc_gossip.Prelude.{
  ◌≡◌, refl, Str, str_eq_refl, string_of, true, false, none, some, List, [], ◌∷◌, All, map, Map,
  get, has, string_eq, arith, Option-cases, inl, inr,
}
use grpc_gossip.Message.{SignedGossipMessage}
use grpc_gossip.Selecting.{Peer}
use grpc_gossip.Discovery.State.{
  Discovery, MembershipStore, get_membership, peers_of, peer_of, to_slice, alive_of,
}
use grpc_gossip.Discovery.Membership.{IsValid, Announces, announced_id}

listed_in :
    (P : Str → Type 0) (m : MembershipStore)
    → ((k : Str) → has m k ≡ true → P k)
    → All (λ e. P e.0) m
unfolding get
listed_in P [] h = tt
listed_in P ((j, v) ∷ m) h =
    (h j (ground (arith, str_eq_refl j)), listed_in P m (λ k is_in. h k (ground (arith, is_in))))

abbrev pub pki_id_of : Peer → Str
pki_id_of p = string_of p.pki_id

peer_of-some :
    (members : Map Str Peer) (m : SignedGossipMessage) (k : Str)
    → announced_id m ≡ some k
    → has members k ≡ true
    → (p : Peer) × (peer_of members m ≡ some p) × (pki_id_of p ≡ k)
peer_of-some members m k a h = elim (Option-cases (alive_of m)) [
  | inl no_member ↦ ground (arith, no_member, a)
  | inr ((am, mem), announced) ↦ elim (Option-cases (get members (string_of mem.pki_id))) [
    | inl unknown ↦ ground (arith, announced, a, h, unknown)
    | inr (p, is_known) ↦ (
      record {
        endpoint = mem.endpoint;
        internal_endpoint = p.internal_endpoint;
        pki_id = mem.pki_id;
        metadata = mem.metadata;
        properties = none;
        envelope = m.envelope;
      },
      ground (arith, announced, is_known),
      ground (arith, announced, a),
    )
  ]
]

peers_of_lem :
    (members : Map Str Peer) (m : MembershipStore)
    → All Announces m
    → All (λ e. has members e.0 ≡ true) m
    → (peers : List Peer) × (peers_of members (to_slice m) ≡ some peers)
      × (map pki_id_of peers ≡ map (λ e. e.0) m)
unfolding peers_of
peers_of_lem members [] a h = ([], refl, refl)
peers_of_lem members ((k, m) ∷ rest) a h =
    let (p, found, is_k) = peer_of-some members m k a.0 h.0 in
    let (peers, returns, same) = peers_of_lem members rest a.1 h.1 in
    (p ∷ peers, ground (arith, found, returns), ground (arith, is_k, same))

-- GetMembership of a discovery service whose maps agree does not panic, and lists exactly the members
-- that are alive, each once for its entry.
pub get_membership_lem :
    (d : Discovery)
    → IsValid d
    → d.to_die ≡ false
    → (peers : List Peer) × (get_membership d ≡ some peers)
      × (map pki_id_of peers ≡ map (λ e. e.0) d.alive_membership)
unfolding get_membership
get_membership_lem d v running =
    let (peers, returns, same) = peers_of_lem d.id_to_member d.alive_membership v.announced (
      listed_in (λ k. has d.id_to_member k ≡ true) d.alive_membership
        (λ k is_in. ground (arith, v.alive_same k, v.known k, is_in))) in
    (peers, ground (arith, running, returns), same)
