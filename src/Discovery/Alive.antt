-- ===== src/Discovery/Alive.antt =====
-- What an alive message does to the membership (gossip/discovery.go, handleAliveMessage).
use grpc_gossip.Prelude.{
  ℕ, ◌≡◌, Str, str_eq_refl, string_of, bytes_equal, Bool, true, false, Option, none, some, ◌>>=◌,
  [], ◌∷◌, get, has, get-put, string_eq, arith,
}
use grpc_gossip.Types.{PeerTime, Member, Envelope, AliveMessage}
use grpc_gossip.Message.{SignedGossipMessage}
use grpc_gossip.Signing.{Proto}
use grpc_gossip.Selecting.{Peer}
use grpc_gossip.Discovery.State.{Discovery, Timestamp, before, stamp, alive_of}
use grpc_gossip.Discovery.Learning.{
  disclosed, internal_of, peer_at, update_peer, learn_new_members, learn_alive, learn_dead,
  learn_peers, learn_existing_member, resurrect_member, update_alive,
}
use grpc_gossip.Discovery.Membership.{enter, raise}

-- the clock's time of the last message of a member, alive or dead
abbrev pub last_of : Discovery → Str → Option Timestamp
last_of d k = elim (get d.alive_last_ts k) [ none ↦ get d.dead_last_ts k | some t ↦ some t ]

-- whether a message at a time is news of a member that was last heard of at another
abbrev pub is_news : Option Timestamp → PeerTime → Bool
is_news none t = true
is_news (some last) t = before last t

module _ (proto : Proto) (now : ℕ) (m : SignedGossipMessage) (am : AliveMessage) (mem : Member)
    (t : PeerTime) (e : Envelope) (d : Discovery) where
  -- a member that is not known is entered
  pub learn_new-enter :
      alive_of m ≡ some (am, mem)
      → am.timestamp ≡ some t
      → m.envelope ≡ some e
      → bytes_equal mem.pki_id d.self.pki_id ≡ false
      → has d.id_to_member (string_of mem.pki_id) ≡ false
      → learn_new_members proto now (m ∷ []) [] d
        ≡ some (enter (string_of mem.pki_id) (stamp now t) m (peer_at mem (disclosed proto e [])) d)
  unfolding learn_new_members learn_alive learn_dead learn_peers
  learn_new-enter a ts env other unknown = ground (arith, a, ts, env, other, unknown)

  -- one that is alive is updated, if the message is newer
  pub learn_existing-enter :
      (last : Timestamp) (p : Peer) (msg : SignedGossipMessage)
      → am.timestamp ≡ some t
      → m.envelope ≡ some e
      → get d.id_to_member (string_of mem.pki_id) ≡ some p
      → get d.alive_last_ts (string_of mem.pki_id) ≡ some last
      → get d.dead_last_ts (string_of mem.pki_id) ≡ none
      → get d.alive_membership (string_of mem.pki_id) ≡ some msg
      → learn_existing_member proto now m am mem d
        ≡ some (
            enter
              (string_of mem.pki_id)
              (stamp now t)
              m
              (update_peer p mem (disclosed proto e p.internal_endpoint))
              d)
  unfolding learn_existing_member
  learn_existing-enter last p msg ts env is_known is_alive not_dead stored =
      ground (arith, ts, env, is_known, is_alive, not_dead, stored)

  -- one that is dead is raised, and the message is then no news any more
  pub resurrect-raise :
      am.timestamp ≡ some t
      → m.envelope ≡ some e
      → (resurrect_member proto now m mem t d >>= update_alive proto now m am mem)
        ≡ some (
            raise
              (string_of mem.pki_id)
              (stamp now t)
              m
              (peer_at mem
                (disclosed proto e (internal_of (get d.id_to_member (string_of mem.pki_id)))))
              d)
  unfolding resurrect_member update_alive before
  resurrect-raise ts env = ground (
    arith,
    ts,
    env,
    get-put d.alive_last_ts (string_of mem.pki_id) (string_of mem.pki_id) (stamp now t),
    str_eq_refl (string_of mem.pki_id),
  )
