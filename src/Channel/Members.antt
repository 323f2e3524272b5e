-- ===== src/Channel/Members.antt =====
-- Who belongs to a channel (gossip/channel.go: GetPeers, IsMemberInChan, IsOrgInChannel,
-- EligibleForChannel, eligibleForChannelAndSameOrg, membershipFilter). `none` is a panic.
use grpc_gossip.Prelude.{
  Slice, string_of, is_nil, is_empty, bytes_equal, Bool, false, not, is_some, Option, none, some,
  ◌>>=◌, List, [], ◌∷◌, filter, if◌then◌else◌,
}
use grpc_gossip.Types.{Properties, StateInfo}
use grpc_gossip.Message.{SignedGossipMessage}
use grpc_gossip.Selecting.{Peer, combine_routing_filters}
use grpc_gossip.Discovery.State.{get_msg_by_id}
use grpc_gossip.Channel.State.{Env, GossipChannel}
use grpc_gossip.Channel.Cache.{info_of, has_org, get_id_by_pki_id}

module _ (env : Env) where
  -- `IsOrgInChannel`
  abbrev pub is_org_in_channel : GossipChannel → Slice → Bool
  is_org_in_channel gc org = has_org gc.orgs org

  -- `IsMemberInChan`
  unfoldable pub is_member_in_chan : GossipChannel → Peer → Bool
  is_member_in_chan gc peer =
      let org = env.orgs.org_of peer.pki_id in
      if is_nil org then false else is_org_in_channel gc org

  -- `EligibleForChannel`
  unfoldable pub eligible_for_channel : GossipChannel → Peer → Bool
  eligible_for_channel gc peer =
      if is_empty (string_of (get_id_by_pki_id env.ids peer.pki_id))
      then false
      else is_some (get_msg_by_id gc.state_info_msg_store.membership peer.pki_id)

  -- `eligibleForChannelAndSameOrg`
  unfoldable pub eligible_and_same_org : GossipChannel → Peer → Bool
  unfolding eligible_for_channel
  eligible_and_same_org gc =
      combine_routing_filters
        (eligible_for_channel gc ∷ (λ p. bytes_equal (env.orgs.org_of p.pki_id) gc.self_org) ∷ [])

  abbrev pub has_left : Option Properties → Bool
  has_left none = false
  has_left (some props) = props.left_channel

  abbrev pub with_info : Peer → StateInfo → SignedGossipMessage → Peer
  with_info peer si m = record peer { properties = si.properties; envelope = m.envelope }

  -- a turn of the loop of `GetPeers`: the peer as it is listed, if it is
  unfoldable pub listed : GossipChannel → Peer → Option (Option Peer)
  unfolding eligible_for_channel
  listed gc peer =
      if not (eligible_for_channel gc peer)
      then some none
      else elim (get_msg_by_id gc.state_info_msg_store.membership peer.pki_id) [
        | none ↦ some none
        | some m ↦ info_of m >>= λ si.
            some (if has_left si.properties then none else some (with_info peer si m))
      ]

  abbrev pub cons_some : Option Peer → List Peer → List Peer
  cons_some none peers = peers
  cons_some (some p) peers = p ∷ peers

  unfoldable pub list_peers : GossipChannel → List Peer → Option (List Peer)
  unfolding listed
  list_peers gc [] = some []
  list_peers gc (peer ∷ members) =
      listed gc peer >>= λ p. list_peers gc members >>= λ peers. some (cons_some p peers)

  -- `GetPeers`
  unfoldable pub get_peers : GossipChannel → Option (List Peer)
  unfolding list_peers
  get_peers gc = if gc.left_channel then some [] else list_peers gc env.membership

  -- `GetMembership` of the membershipFilter
  unfoldable pub filtered_membership : GossipChannel → List Peer
  unfolding eligible_and_same_org
  filtered_membership gc =
      if gc.left_channel then [] else filter (eligible_and_same_org gc) env.membership
