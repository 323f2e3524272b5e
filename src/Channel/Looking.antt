-- ===== src/Channel/Looking.antt =====
-- Finding the channel of a message (gossip/channel.go: LookupChannelForMsg, getGossipChannelByMAC).
use grpc_gossip.Prelude.{
  ◌≡◌, refl, Str, str_eq_iff, Slice, string_of, Option, none, some, [], ◌∷◌, ◌++◌, Map, get,
  string_eq, All, arith,
}
use grpc_gossip.Types.{GossipMessage, get_state_info, get_state_info_pull_req}
use grpc_gossip.Channel.State.{GossipChannel, generate_mac}
use grpc_gossip.Channel.Joining.{
  ChannelState, channel_with_mac, lookup_channel_for_msg, lookup_channel_for_gossip_msg,
}

-- SHA-256 has no collision between a channel's name and those of this peer's channels
abbrev pub NoCollision : (Str → Str) → Slice → Slice → Map Str GossipChannel → Type 0
NoCollision sha256 pki_id chain_id = All (λ e.
    sha256 (string_of pki_id ++ e.0) ≡ sha256 (string_of pki_id ++ string_of chain_id)
    → string_of pki_id ++ e.0 ≡ string_of pki_id ++ string_of chain_id)

append_left_cancel : (a b c : Str) → a ++ b ≡ a ++ c → b ≡ c
append_left_cancel [] b c h = h
append_left_cancel (x ∷ a) b c h = append_left_cancel a b c (cc)

-- the peer and the MAC that a message names its channel by
abbrev pub announced_mac : Slice → GossipMessage → Option (Slice × Slice)
announced_mac sender m = elim (get_state_info m.content) [
  | some si ↦ some (si.pki_id, si.channel_mac)
  | none ↦ elim (get_state_info_pull_req m.content) [ some mac ↦ some (sender, mac) | none ↦ none ]
]

with_mac :
    (sha256 : Str → Str) (pki_id chain_id : Slice) (channels : Map Str GossipChannel)
    → NoCollision sha256 pki_id chain_id channels
    → channel_with_mac sha256 (generate_mac sha256 pki_id chain_id) pki_id channels
      ≡ get channels (string_of chain_id)
unfolding channel_with_mac get
with_mac sha256 pki_id chain_id [] h = refl
with_mac sha256 pki_id chain_id ((name, gc) ∷ channels) h = ground (
  arith,
  with_mac sha256 pki_id chain_id channels h.1,
  h.0,
  append_left_cancel (string_of pki_id) name (string_of chain_id),
  str_eq_iff name (string_of chain_id),
  str_eq_iff (sha256 (string_of pki_id ++ name)) (sha256 (string_of pki_id ++ string_of chain_id)),
)

-- A state info or a request for state infos that carries the MAC of a channel and of its peer finds
-- exactly the channel of that name, if this peer has joined it: the MAC stands for the name, unless
-- SHA-256 collides on the names of this peer's channels.
pub lookup_by_mac :
    (sha256 : Str → Str) (cs : ChannelState) (sender chain_id : Slice) (m : GossipMessage)
    (pki_id : Slice)
    → announced_mac sender m ≡ some (pki_id, generate_mac sha256 pki_id chain_id)
    → NoCollision sha256 pki_id chain_id cs.channels
    → lookup_channel_for_msg sha256 cs sender m ≡ get cs.channels (string_of chain_id)
unfolding lookup_channel_for_msg lookup_channel_for_gossip_msg
lookup_by_mac sha256 cs sender chain_id m pki_id e h =
    ground (arith, e, with_mac sha256 pki_id chain_id cs.channels h)
