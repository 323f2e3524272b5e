-- ===== src/Selecting.antt =====
-- Filtering and selecting peers (gossip/filter.go; gossip/discovery.go, Peer and PreferredEndpoint).
-- The permutation that math/rand draws is an argument.
pub mod Chosen
pub mod Passing
use grpc_gossip.Prelude.{
  ℕ, ℤ, eq_ℕ, Str, is_empty, Slice, Bool, true, false, not, Option, none, some, ◌>>=◌, List, [],
  ◌∷◌, ◌++◌, length, get_elem?, if◌then◌else◌,
}
use grpc_gossip.Types.{Properties, Envelope}

-- The fields of Peer that the gossip package uses.
pub record Peer : Type 0 where
  pub endpoint : Str
  pub internal_endpoint : Str
  pub pki_id : Slice
  pub metadata : Slice
  pub properties : Option Properties
  pub envelope : Option Envelope

pub record RemotePeer : Type 0 where
  pub endpoint : Str
  pub pki_id : Slice

abbrev pub RoutingFilter : Type 0
RoutingFilter = Peer → Bool

unfoldable pub preferred_endpoint : Peer → Str
preferred_endpoint p =
    if not (is_empty p.internal_endpoint) then p.internal_endpoint else p.endpoint

abbrev pub select_none_policy : RoutingFilter
select_none_policy peer = false

abbrev pub select_all_policy : RoutingFilter
select_all_policy peer = true

unfoldable pub combine_routing_filters : List RoutingFilter → RoutingFilter
combine_routing_filters [] peer = true
combine_routing_filters (f ∷ filters) peer =
    let rest = combine_routing_filters filters peer in if not (f peer) then false else rest

abbrev pub remote : Peer → RemotePeer
remote p = record { endpoint = preferred_endpoint p; pki_id = p.pki_id }

-- The loop of `SelectPeers`; `none` is an index out of range.
unfoldable pub select_loop :
    ℤ → List Peer → RoutingFilter → List ℕ → List RemotePeer → Option (List RemotePeer)
select_loop k pool f [] res = some res
select_loop k pool f (i ∷ indices) res =
    let rest = λ (r : List RemotePeer). select_loop k pool f indices r in
    if eq_ℕ k (length res)
    then some res
    else (get_elem? pool i >>= λ p. if not (f p) then rest res else rest (res ++ remote p ∷ []))

-- `perm` is the result of rand.Perm(len(peerPool)).
unfoldable pub select_peers : ℤ → List Peer → RoutingFilter → List ℕ → Option (List RemotePeer)
unfolding select_loop preferred_endpoint
select_peers k pool f perm = select_loop k pool f perm []
