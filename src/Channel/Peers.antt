-- ===== src/Channel/Peers.antt =====
-- Which peers a channel lists, and which state infos it shows to whom (gossip/channel.go: GetPeers,
-- createStateInfoSnapshot).
use grpc_gossip.Prelude.{
  ◌≡◌, refl, Str, Slice, string_of, bytes_equal, Bool, true, false, not, ◌&&◌, ◌||◌, is_some,
  Option, none, some, List, [], ◌∷◌, map, filter, All, string_eq, arith, if◌then◌else◌,
  Option-cases, inl, inr, is_empty,
}
use grpc_gossip.Message.{SignedGossipMessage}
use grpc_gossip.Selecting.{Peer}
use grpc_gossip.Store.{Stored, get_items}
use grpc_gossip.Store.Expiring.{All-get_items}
use grpc_gossip.Service.Orgs.{has_external_endpoint}
use grpc_gossip.Channel.State.{Env, GossipChannel}
use grpc_gossip.Channel.Cache.{info_of, state_pki_id, get_id_by_pki_id}
use grpc_gossip.Channel.Newest.{Agrees, view, stored_at}
use grpc_gossip.Channel.Members.{
  has_left, with_info, listed, list_peers, get_peers, eligible_for_channel,
}
use grpc_gossip.Channel.Receiving.{is_disclosed, snapshot_of, create_state_info_snapshot}

module _ (env : Env) (gc : GossipChannel) where
  -- the state info that the channel knows of a peer
  abbrev pub known : Peer → Option SignedGossipMessage
  known p = view gc.state_info_msg_store (string_of p.pki_id)

  abbrev has_not_left : Option SignedGossipMessage → Bool
  has_not_left none = false
  has_not_left (some m) = elim (info_of m) [
    | none ↦ false
    | some si ↦ not (has_left env si.properties)
  ]

  -- an identity, and a state info that does not say that the peer has left
  abbrev pub is_listed : Peer → Bool
  is_listed p =
      not (is_empty (string_of (get_id_by_pki_id env.ids p.pki_id))) && has_not_left (known p)

  abbrev told : Peer → Option SignedGossipMessage → Peer
  told p none = p
  told p (some m) = elim (info_of m) [ none ↦ p | some si ↦ with_info env p si m ]

  stored_at-info :
      (xs : List (Stored SignedGossipMessage)) (k : Str)
      → All (λ x. is_some (info_of x.item) ≡ true) xs
      → (m : SignedGossipMessage) → stored_at xs k ≡ some m
      → is_some (info_of m) ≡ true
  stored_at-info [] k h m e = ground arith
  stored_at-info (x ∷ xs) k h m e = ground (arith, h.0, stored_at-info xs k h.1 m)

  listed_lem :
      (p : Peer)
      → Agrees gc.state_info_msg_store
      → listed env gc p ≡ some (if is_listed p then some (told p (known p)) else none)
  unfolding listed eligible_for_channel
  listed_lem p a = elim (Option-cases (known p)) [
    | inl unknown ↦ ground (arith, unknown)
    | inr (m, is_known) ↦
        let info : is_some (info_of m) ≡ true =
          stored_at-info gc.state_info_msg_store.messages.messages (string_of p.pki_id) a.infos m
            (ground (arith, a.same (string_of p.pki_id), is_known)) in
        ground (arith, is_known, info)
  ]

  list_peers_lem :
      (members : List Peer)
      → Agrees gc.state_info_msg_store
      → list_peers env gc members ≡ some (map (λ p. told p (known p)) (filter is_listed members))
  unfolding list_peers
  list_peers_lem [] a = refl
  list_peers_lem (p ∷ members) a = ground (arith, listed_lem p a, list_peers_lem members a)

  -- GetPeers of a channel whose cache is in order does not panic. It lists nobody once this peer has
  -- left the channel, and else exactly the members that discovery knows, in their order, of which the
  -- channel has an identity and a state info that does not say that they have left; each with the
  -- properties and the envelope of that state info.
  pub get_peers_lem :
      Agrees gc.state_info_msg_store
      → get_peers env gc
        ≡ some (
            if gc.left_channel
            then []
            else map (λ p. told p (known p)) (filter is_listed env.membership))
  unfolding get_peers
  get_peers_lem a = ground (arith, list_peers_lem env.membership a)

  -- what a peer of another organization may see
  abbrev pub is_visible : Slice → SignedGossipMessage → Bool
  is_visible requester m =
      bytes_equal gc.self_org requester
      || not (bytes_equal (env.orgs.org_of (state_pki_id m)) gc.self_org)
      || has_external_endpoint env.orgs (state_pki_id m)

  snapshot_of_lem :
      (requester : Slice) (msgs : List SignedGossipMessage)
      → All (λ m. is_some (info_of m) ≡ true) msgs
      → snapshot_of env gc requester msgs
        ≡ some (map (λ m. m.envelope) (filter (is_visible requester) msgs))
  unfolding snapshot_of is_disclosed
  snapshot_of_lem requester [] h = refl
  snapshot_of_lem requester (m ∷ msgs) h = ground (arith, h.0, snapshot_of_lem requester msgs h.1)

  -- A snapshot of the state infos holds the envelopes of all that the cache has, in their order, for a
  -- peer of this organization. For another peer it leaves out exactly those of this organization's
  -- peers that have no external endpoint. It does not panic while the cache is in order.
  pub snapshot_lem :
      (requester : Slice)
      → Agrees gc.state_info_msg_store
      → create_state_info_snapshot env gc requester
        ≡ some (
            map
              (λ m. m.envelope)
              (filter (is_visible requester) (get_items gc.state_info_msg_store.messages)))
  unfolding create_state_info_snapshot
  snapshot_lem requester a =
      snapshot_of_lem requester (get_items gc.state_info_msg_store.messages)
        (All-get_items (λ m. is_some (info_of m) ≡ true) gc.state_info_msg_store.messages a.infos)
