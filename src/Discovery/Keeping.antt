-- ===== src/Discovery/Keeping.antt =====
-- The invariant of the discovery service over its steps (gossip/discovery.go: handleAliveMessage,
-- learnNewMembers).
use grpc_gossip.Prelude.{
  ℕ, ◌≡◌, refl, Str, str_eq, str_eq_iff, string_of, bytes_equal, Bool, true, false, Option, none,
  some, ◌>>=◌, [], Map, get, put, has, string_eq, arith, choose, Holds, Holds-bind, Holds-some,
  Option-cases, Bool-cases, inl, inr, ◌⊎◌,
}
use grpc_gossip.Types.{Member, AliveMessage, PeerTime}
use grpc_gossip.Message.{SignedGossipMessage}
use grpc_gossip.Signing.{Proto}
use grpc_gossip.Identity.{IdMapper}
use grpc_gossip.Selecting.{Peer}
use grpc_gossip.Discovery.State.{Discovery, Timestamp, stamp, alive_of}
use grpc_gossip.Discovery.Learning.{
  handle_alive_message, handle_valid_message, validate_alive_msg, update_alive, learn_new_members,
  learn_alive, learn_dead, learn_peers, peer_at, disclosed,
}
use grpc_gossip.Discovery.Membership.{IsValid, has-put}
use grpc_gossip.Discovery.News.{Taken, handle_alive_message_lem, with_mapper}
use grpc_gossip.Discovery.Receiving.{Service, alive_check_valid, handle_if_valid, learn_dead_member}

Taken-Holds :
    (now : ℕ) (k : Str) (t : PeerTime) (m : SignedGossipMessage) (d : Discovery) (b : Bool)
    (o : Option Discovery)
    → IsValid d
    → Taken now k t m d b o
    → Holds IsValid o
Taken-Holds now k t m d true o v (d', returns, recorded) = rw returns recorded.valid
Taken-Holds now k t m d false o v same = rw same v

-- a message without its time is not taken in
untimed :
    (proto : Proto) (now : ℕ) (m : SignedGossipMessage) (am : AliveMessage) (mem : Member)
    (d : Discovery)
    → alive_of m ≡ some (am, mem)
    → am.timestamp ≡ none
    → (handle_valid_message proto now m am mem d ≡ none)
      ⊎ (handle_valid_message proto now m am mem d ≡ some d)
unfolding handle_valid_message update_alive learn_new_members learn_alive
untimed proto now m am mem d a ts =
    let k = string_of mem.pki_id in
    elim (Bool-cases (bytes_equal mem.pki_id d.self.pki_id)) [
      | inl own ↦ inr (ground (arith, own))
      | inr other ↦ elim (Option-cases (get d.id_to_member k)) [
        | inl unknown ↦ inl (ground (arith, other, unknown, a, ts))
        | inr (p, is_known) ↦ elim (Option-cases (get d.dead_last_ts k)) [
          | inl not_dead ↦ elim (Option-cases (get d.alive_last_ts k)) [
            | inl not_alive ↦ inr (ground (arith, other, is_known, not_dead, not_alive))
            | inr (last, is_alive) ↦ inl (ground (arith, other, is_known, not_dead, is_alive, ts))
          ]
          | inr (last, is_dead) ↦ elim (Option-cases (get d.alive_last_ts k)) [
            | inl not_alive ↦ inl (ground (arith, other, is_known, is_dead, not_alive, ts))
            | inr (_, is_alive) ↦ inr (ground (arith, other, is_known, is_dead, is_alive))
          ]
        ]
      ]
    ]

unless :
    (d : Discovery) (o : Option Discovery) → IsValid d → (o ≡ none) ⊎ (o ≡ some d) → Holds IsValid o
unless d o v (inl panics) = rw panics tt
unless d o v (inr same) = rw same v

no_envelope :
    (times : Map Str ℕ) (now : ℕ) (m : SignedGossipMessage) (is : IdMapper)
    → m.envelope ≡ none
    → (validate_alive_msg times now m is).1 ≡ false
unfolding validate_alive_msg
no_envelope times now m is env = ground (arith, env)

abbrev pub Sound : Service → Type 0
Sound s = IsValid s.discovery

enter_peer-IsValid :
    (k : Str) (p : Peer) (d : Discovery)
    → IsValid d
    → str_eq k (string_of d.self.pki_id) ≡ true
    → IsValid (record d { id_to_member = put d.id_to_member k p })
enter_peer-IsValid k p d v own = record {
  apart = v.apart;
  known = λ j h. ground (arith, has-put d.id_to_member k j p, v.known j h);
  members = λ j other h.
      ground
        (arith, has-put d.id_to_member k j p, h, v.members j other, str_eq_iff k j, own, other);
  alive_same = v.alive_same;
  dead_same = v.dead_same;
  announced = v.announced;
}

enter_dead-IsValid :
    (k : Str) (p : Peer) (t : Timestamp) (m : SignedGossipMessage) (d : Discovery)
    → IsValid d
    → has d.id_to_member k ≡ false
    → IsValid (record d {
      id_to_member = put d.id_to_member k p;
      dead_last_ts = put d.dead_last_ts k t;
      dead_membership = put d.dead_membership k m;
    })
enter_dead-IsValid k p t m d v unknown = record {
  apart = λ j.
      ground (arith, has-put d.dead_last_ts k j t, v.apart j, v.known j, unknown, str_eq_iff k j);
  known = λ j h.
      ground (arith, h, has-put d.dead_last_ts k j t, has-put d.id_to_member k j p, v.known j);
  members = λ j other h.
      ground
        (arith, h, has-put d.dead_last_ts k j t, has-put d.id_to_member k j p, v.members j other);
  alive_same = v.alive_same;
  dead_same = λ j.
      ground (arith, has-put d.dead_last_ts k j t, has-put d.dead_membership k j m, v.dead_same j);
  announced = v.announced;
}

module _ (proto : Proto) (times : Map Str ℕ) (now : ℕ) where
  pub handle_alive_message-Holds :
      (m : SignedGossipMessage) (d : Discovery)
      → IsValid d
      → Holds IsValid (handle_alive_message proto times now m d)
  unfolding handle_alive_message
  handle_alive_message-Holds m d v =
      let (is, valid) = validate_alive_msg times now m d.id_mapper in
      let d1 = record d { id_mapper = is } in
      let v1 = with_mapper d is v in
      elim (Bool-cases valid) [
        | inr invalid ↦ unless d1 _ v1 (inr (ground (arith, invalid)))
        | inl is_valid ↦ elim (Option-cases (alive_of m)) [
          | inl no_member ↦ unless d1 _ v1 (inl (ground (arith, is_valid, no_member)))
          | inr ((am, mem), a) ↦ elim (Option-cases am.timestamp) [
            | inl no_time ↦ elim (untimed proto now m am mem d1 a no_time) [
              | inl panics ↦ unless d1 _ v1 (inl (ground (arith, is_valid, a, panics)))
              | inr same ↦ unless d1 _ v1 (inr (ground (arith, is_valid, a, same)))
            ]
            | inr (t, ts) ↦ elim (Option-cases m.envelope) [
              | inl bare ↦
                  absurd (ground (arith, is_valid, no_envelope times now m d.id_mapper bare))
              | inr (e, env) ↦
                  Taken-Holds now (string_of mem.pki_id) t m d1 _ _ v1
                    (handle_alive_message_lem proto times now m am mem t e d v a ts env)
            ]
          ]
        ]
      ]

  pub handle_if_valid-Holds :
      (m : SignedGossipMessage) (s : Service)
      → Sound s
      → Holds Sound (handle_if_valid proto times now m s)
  unfolding handle_if_valid
  handle_if_valid-Holds m s v = Holds-bind Sound (alive_check_valid m s.msg_store) _ (λ valid _.
      choose (Holds Sound) valid
        (handle_alive_message proto times now m s.discovery >>= λ d.
          some (record s { discovery = d }))
        (some s)
        (Holds-bind Sound (handle_alive_message proto times now m s.discovery) _ (λ d handled.
          Holds-some IsValid _ d (handle_alive_message-Holds m s.discovery v) handled))
        v)

  pub learn_dead_member-Holds :
      (m : SignedGossipMessage) (d : Discovery)
      → IsValid d
      → Holds IsValid (learn_dead_member proto times now m d)
  unfolding learn_new_members learn_alive learn_dead learn_peers
  learn_dead_member-Holds m d v = elim (Option-cases (alive_of m)) [
    | inl no_member ↦ unless d _ v (inl (ground (arith, no_member)))
    | inr ((am, mem), a) ↦
        let k = string_of mem.pki_id in
        elim (Option-cases (get d.id_to_member k)) [
          | inr (p, is_known) ↦ unless d _ v (inr (ground (arith, a, is_known)))
          | inl unknown ↦ elim (Option-cases m.envelope) [
            | inl bare ↦ elim (Bool-cases (bytes_equal mem.pki_id d.self.pki_id)) [
              | inl own ↦ unless d _ v (inl (ground (arith, a, unknown, own, bare)))
              | inr other ↦ unless d _ v (inl (ground (arith, a, unknown, other, bare)))
            ]
            | inr (e, env) ↦
                let p = peer_at mem (disclosed proto e []) in
                elim (Bool-cases (bytes_equal mem.pki_id d.self.pki_id)) [
                  | inl own ↦
                      unless (record d { id_to_member = put d.id_to_member k p }) _
                        (enter_peer-IsValid k p d v own)
                        (inr (ground (arith, a, unknown, own, env)))
                  | inr other ↦ elim (Option-cases am.timestamp) [
                    | inl no_time ↦ unless d _ v (inl (ground (arith, a, unknown, other, no_time)))
                    | inr (t, ts) ↦
                        unless
                          (record d {
                            id_to_member = put d.id_to_member k p;
                            dead_last_ts = put d.dead_last_ts k (stamp now t);
                            dead_membership = put d.dead_membership k m;
                          })
                          _ (enter_dead-IsValid k p (stamp now t) m d v (rw unknown refl))
                          (inr (ground (arith, a, unknown, other, ts, env)))
                  ]
                ]
          ]
        ]
  ]
