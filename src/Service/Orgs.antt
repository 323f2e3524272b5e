-- ===== src/Service/Orgs.antt =====
-- Organizations, and the policies that depend on them (gossip/gossip.go: isInMyorg,
-- hasExternalEndpoint, peersByOriginOrgPolicy, sameOrgOrOurOrgPullFilter).
use grpc_gossip.Prelude.{
  Str, Slice, bytes, string_of, is_nil, is_empty, bytes_equal, Bool, true, false, not, ◌||◌, Option,
  none, some, if◌then◌else◌,
}
use grpc_gossip.Selecting.{Peer, RoutingFilter, select_none_policy, select_all_policy}
use grpc_gossip.Types.{Envelope}
use grpc_gossip.Message.{SignedGossipMessage}

-- What the service asks of its other parts: GetOrgOfPeer, and Discovery.Lookup.
pub record Orgs : Type 0 where
  pub self_org : Slice
  pub org_of : Slice → Slice
  pub lookup : Slice → Option Peer

-- `len(org) == 0`
abbrev pub unknown_org : Slice → Bool
unknown_org org = is_empty (string_of org)

-- `isInMyorg`
unfoldable pub is_in_my_org : Orgs → Slice → Bool
is_in_my_org o pki_id =
    if is_nil pki_id
    then false
    else if is_nil (o.org_of pki_id)
    then false
    else bytes_equal o.self_org (o.org_of pki_id)

-- `hasExternalEndpoint`
unfoldable pub has_external_endpoint : Orgs → Slice → Bool
has_external_endpoint o pki_id = elim (o.lookup pki_id) [
  | none ↦ false
  | some p ↦ not (is_empty p.endpoint)
]

-- `peersByOriginOrgPolicy`
unfoldable pub peers_by_origin_org_policy : Orgs → Slice → RoutingFilter
peers_by_origin_org_policy o origin =
    let peers_org = o.org_of origin in
    if unknown_org peers_org
    then select_none_policy
    else if bytes_equal o.self_org peers_org
    then select_all_policy
    else λ peer.
        if unknown_org (o.org_of peer.pki_id)
        then false
        else bytes_equal o.self_org (o.org_of peer.pki_id)
          || bytes_equal (o.org_of peer.pki_id) peers_org

-- `sameOrgOrOurOrgPullFilter`, for a peer of an organization
unfoldable pub same_org_or_our_org_pull_filter : Orgs → Slice → Str → Bool
unfolding has_external_endpoint
same_org_or_our_org_pull_filter o peers_org item =
    let msgs_org = o.org_of (bytes item) in
    if unknown_org peers_org
    then false
    else if bytes_equal o.self_org peers_org
    then true
    else if unknown_org msgs_org
    then false
    else if not (has_external_endpoint o (bytes item))
    then false
    else bytes_equal msgs_org o.self_org || bytes_equal msgs_org peers_org

-- `SecretEnvelope = nil`
abbrev pub strip : Envelope → Envelope
strip e = record e { secret_envelope = none }

abbrev pub strip_message : SignedGossipMessage → Envelope → SignedGossipMessage
strip_message m e = record m { envelope = some (strip e) }
