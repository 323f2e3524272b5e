-- ===== src/Discovery/State.antt =====
-- The state of the discovery service (gossip/discovery.go: GossipDiscovery, MembershipStore,
-- timestamp), and its reads. `none` is a panic: a nil pointer that is followed. A time is a number of
-- nanoseconds, and `now` the clock at the call.
use grpc_gossip.Prelude.{
  ℕ, ◌-◌, Str, Slice, string_of, bytes, bytes_equal, Bool, ◌&&◌, ◌||◌, ltb, ◌==◌, Option, none,
  some, ◌>>=◌, List, [], ◌∷◌, map, Map, get, put, delete, string_eq, if◌then◌else◌,
}
use grpc_gossip.Types.{PeerTime, Member, AliveMessage, get_alive_msg}
use grpc_gossip.Message.{SignedGossipMessage}
use grpc_gossip.Selecting.{Peer}
use grpc_gossip.Identity.{IdMapper}

pub record Timestamp : Type 0 where
  pub inc_time : ℕ
  pub seq_num : ℕ
  pub last_seen : ℕ

-- MembershipStore
abbrev pub MembershipStore : Type 0
MembershipStore = Map Str SignedGossipMessage

pub record Discovery : Type 0 where
  pub self : Peer
  pub dead_last_ts : Map Str Timestamp
  pub alive_last_ts : Map Str Timestamp
  pub id_to_member : Map Str Peer
  pub alive_membership : MembershipStore
  pub dead_membership : MembershipStore
  -- crypt.IdMapper
  pub id_mapper : IdMapper
  pub to_die : Bool

-- `before`
unfoldable pub before : Timestamp → PeerTime → Bool
before a b = (a.inc_time == b.inc_num && ltb a.seq_num b.seq_num) || ltb a.inc_time b.inc_num

-- `&timestamp{...}` for the time of a message
abbrev pub stamp : ℕ → PeerTime → Timestamp
stamp now t = record { inc_time = t.inc_num; seq_num = t.seq_num; last_seen = now }

-- `MembershipStore.Put`, `Remove`, `GetMsgByID`, `ToSlice`, `Size`
abbrev pub put_msg : MembershipStore → Slice → SignedGossipMessage → MembershipStore
put_msg m pki_id msg = put m (string_of pki_id) msg

abbrev pub remove_msg : MembershipStore → Slice → MembershipStore
remove_msg m pki_id = delete m (string_of pki_id)

abbrev pub get_msg_by_id : MembershipStore → Slice → Option SignedGossipMessage
get_msg_by_id m pki_id = get m (string_of pki_id)

abbrev pub to_slice : MembershipStore → List SignedGossipMessage
to_slice m = map (λ e. e.1) m

-- `GetAliveMsg()` and its membership, both followed
abbrev pub alive_of : SignedGossipMessage → Option (AliveMessage × Member)
alive_of m = get_alive_msg m.message.content >>= λ am. am.membership >>= λ mem. some (am, mem)

-- `Lookup`: nil where the peer is not known
unfoldable pub lookup : Slice → Discovery → Option Peer
lookup pki_id d =
    if bytes_equal pki_id d.self.pki_id then some d.self else get d.id_to_member (string_of pki_id)

-- the peer of GetMembership that a message announces
abbrev pub peer_of : Map Str Peer → SignedGossipMessage → Option Peer
peer_of members m = alive_of m >>= λ (am, mem). get members (string_of mem.pki_id) >>= λ known.
    some (record {
      endpoint = mem.endpoint;
      internal_endpoint = known.internal_endpoint;
      pki_id = mem.pki_id;
      metadata = mem.metadata;
      properties = none;
      envelope = m.envelope;
    })

unfoldable pub peers_of : Map Str Peer → List SignedGossipMessage → Option (List Peer)
peers_of members [] = some []
peers_of members (m ∷ msgs) =
    peer_of members m >>= λ p. peers_of members msgs >>= λ rest. some (p ∷ rest)

-- `GetMembership`
unfoldable pub get_membership : Discovery → Option (List Peer)
unfolding peers_of
get_membership d =
    if d.to_die then some [] else peers_of d.id_to_member (to_slice d.alive_membership)

-- `getDeadMembers`
unfoldable pub get_dead_members : ℕ → ℕ → Map Str Timestamp → List Slice
get_dead_members now timeout [] = []
get_dead_members now timeout ((id, last) ∷ rest) =
    let dead = get_dead_members now timeout rest in
    if ltb timeout (now - last.last_seen) then bytes id ∷ dead else dead

-- what the expiration of a message removes: the callback of NewDiscoveryService
unfoldable pub forget : SignedGossipMessage → Discovery → Option Discovery
forget m d = elim (get_alive_msg m.message.content) [
  | none ↦ some d
  | some am ↦ am.membership >>= λ mem.
      let id = string_of mem.pki_id in
      some (record d {
        alive_membership = remove_msg d.alive_membership mem.pki_id;
        dead_membership = remove_msg d.dead_membership mem.pki_id;
        id_to_member = delete d.id_to_member id;
        dead_last_ts = delete d.dead_last_ts id;
        alive_last_ts = delete d.alive_last_ts id;
      })
]

-- `am != nil` of expireDeadMembers: the stored message moves to the dead
abbrev pub move_msg : Slice → Discovery → Discovery
move_msg pki_id d = elim (get_msg_by_id d.alive_membership pki_id) [
  | none ↦ d
  | some am ↦ record d {
    dead_membership = put_msg d.dead_membership pki_id am;
    alive_membership = remove_msg d.alive_membership pki_id;
  }
]

-- The loop of `expireDeadMembers`, and the members whose connections are closed, nil where one is not
-- known.
unfoldable pub expire_dead_members : List Slice → Discovery → Discovery × List (Option Peer)
expire_dead_members [] d = (d, [])
expire_dead_members (pki_id ∷ dead) d =
    let id = string_of pki_id in
    elim (get d.alive_last_ts id) [
      | none ↦ expire_dead_members dead d
      | some last ↦
          let (d', closed) = expire_dead_members dead (
            move_msg pki_id (record d {
              dead_last_ts = put d.dead_last_ts id last;
              alive_last_ts = delete d.alive_last_ts id;
            })) in
          (d', get d.id_to_member id ∷ closed)
    ]

-- a turn of `periodicalCheckAlive`
unfoldable pub check_alive : ℕ → ℕ → Discovery → Discovery × List (Option Peer)
unfolding get_dead_members expire_dead_members
check_alive now timeout d = expire_dead_members (get_dead_members now timeout d.alive_last_ts) d
