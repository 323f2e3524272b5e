-- ===== src/Discovery/News.antt =====
-- Alive messages that are news, and those that are not (gossip/discovery.go, handleAliveMessage).
use grpc_gossip.Prelude.{
  ℕ, ◌≡◌, refl, Str, str_eq, str_eq_iff, string_of, bytes_equal, Bool, true, false, not, ◌&&◌, ◌||◌,
  Option, none, some, [], Map, get, has, get-put, get-delete, string_eq, arith, if◌then◌else◌,
  Bool-cases, Option-cases, inl, inr,
}
use grpc_gossip.Types.{PeerTime, Member, Envelope, AliveMessage}
use grpc_gossip.Message.{SignedGossipMessage}
use grpc_gossip.Signing.{Proto}
use grpc_gossip.Identity.{IdMapper}
use grpc_gossip.Selecting.{Peer}
use grpc_gossip.Discovery.State.{Discovery, Timestamp, before, stamp, alive_of}
use grpc_gossip.Discovery.Learning.{
  validate_alive_msg, disclosed, internal_of, peer_at, update_peer, update_alive,
  handle_valid_message, handle_alive_message,
}
use grpc_gossip.Discovery.Membership.{
  IsValid, announced_id, enter, raise, enter-IsValid, raise-IsValid, has-put,
}
use grpc_gossip.Discovery.Alive.{
  last_of, is_news, learn_new-enter, learn_existing-enter, resurrect-raise,
}

-- After a message of the member k at time t, received at now: the message and its time are recorded,
-- the member is alive and known, and every other member is as before.
pub record Recorded (now : ℕ) (k : Str) (t : PeerTime) (m : SignedGossipMessage) (d d' : Discovery)
    : Type 0 where
  pub alive_ts :
      (j : Str)
      → get d'.alive_last_ts j ≡ (if str_eq k j then some (stamp now t) else get d.alive_last_ts j)
  pub dead_ts :
      (j : Str) → get d'.dead_last_ts j ≡ (if str_eq k j then none else get d.dead_last_ts j)
  pub stored :
      (j : Str)
      → get d'.alive_membership j ≡ (if str_eq k j then some m else get d.alive_membership j)
  pub known : (j : Str) → has d'.id_to_member j ≡ (str_eq k j || has d.id_to_member j)
  pub valid : IsValid d'

-- The message is taken in, and recorded; or the state is left as it is.
abbrev pub Taken :
    ℕ → Str → PeerTime → SignedGossipMessage → Discovery → Bool → Option Discovery → Type 0
Taken now k t m d true o = (d' : Discovery) × (o ≡ some d') × Recorded now k t m d d'
Taken now k t m d false o = (o ≡ some d)

module _ (now : ℕ) (k : Str) (t : PeerTime) (m : SignedGossipMessage) (d : Discovery) (b : Bool)
    (o : Option Discovery) where
  taken :
      (d' : Discovery) → b ≡ true → o ≡ some d' → Recorded now k t m d d' → Taken now k t m d b o
  taken d' is_new returns recorded = rw is_new (d', returns, recorded)

  left_alone : b ≡ false → o ≡ some d → Taken now k t m d b o
  left_alone is_old returns = rw is_old returns

  Taken-same :
      (c : Bool) (r : Option Discovery)
      → c ≡ b
      → r ≡ o
      → Taken now k t m d b o
      → Taken now k t m d c r
  Taken-same c r same_test same_result h = rw (same_test, same_result) h

module _ (now : ℕ) (k : Str) (t : PeerTime) (m : SignedGossipMessage) (p : Peer)
    (d : Discovery) where
  enter-Recorded :
      IsValid d
      → get d.dead_last_ts k ≡ none
      → announced_id m ≡ some k
      → Recorded now k t m d (enter k (stamp now t) m p d)
  enter-Recorded v not_dead a = record {
    alive_ts = λ j. get-put d.alive_last_ts k j (stamp now t);
    dead_ts = λ j. ground (arith, not_dead, str_eq_iff k j);
    stored = λ j. get-put d.alive_membership k j m;
    known = λ j. has-put d.id_to_member k j p;
    valid = enter-IsValid k (stamp now t) m p d v (rw not_dead refl) a;
  }

  raise-Recorded :
      IsValid d → announced_id m ≡ some k → Recorded now k t m d (raise k (stamp now t) m p d)
  raise-Recorded v a = record {
    alive_ts = λ j. get-put d.alive_last_ts k j (stamp now t);
    dead_ts = λ j. get-delete d.dead_last_ts k j;
    stored = λ j. get-put d.alive_membership k j m;
    known = λ j. has-put d.id_to_member k j p;
    valid = raise-IsValid k (stamp now t) m p d v a;
  }

not_both :
    (d : Discovery) (k : Str) (last : Timestamp)
    → IsValid d
    → get d.dead_last_ts k ≡ some last
    → get d.alive_last_ts k ≡ none
not_both d k last v is_dead = ground (arith, v.apart k, is_dead)

none_before :
    (d : Discovery) (k : Str) (t : PeerTime)
    → IsValid d
    → get d.id_to_member k ≡ none
    → is_news (last_of d k) t ≡ true
none_before d k t v unknown = ground (arith, unknown, v.known k)

module _ (proto : Proto) (now : ℕ) (m : SignedGossipMessage) (am : AliveMessage) (mem : Member)
    (t : PeerTime) (e : Envelope) (d : Discovery) (v : IsValid d) (a : alive_of m ≡ some (am, mem))
    (ts : am.timestamp ≡ some t) (env : m.envelope ≡ some e)
    (other : bytes_equal mem.pki_id d.self.pki_id ≡ false) where
  abbrev pub Outcome : Option Discovery → Type 0
  Outcome o =
      Taken now (string_of mem.pki_id) t m d (is_news (last_of d (string_of mem.pki_id)) t) o

  announces : announced_id m ≡ some (string_of mem.pki_id)
  announces = ground (arith, a)

  unknown-Outcome :
      get d.id_to_member (string_of mem.pki_id) ≡ none
      → Outcome (handle_valid_message proto now m am mem d)
  unfolding handle_valid_message
  unknown-Outcome unknown =
      let k = string_of mem.pki_id in
      let learned = learn_new-enter proto now m am mem t e d a ts env other (rw unknown refl) in
      let p = peer_at mem (disclosed proto e []) in
      taken now k t m d _ _ (enter k (stamp now t) m p d) (none_before d k t v unknown)
        (ground (arith, other, unknown, learned))
        (enter-Recorded now k t m p d v (ground (arith, unknown, v.known k)) announces)

  dead-Outcome :
      (p : Peer) (last : Timestamp)
      → get d.id_to_member (string_of mem.pki_id) ≡ some p
      → get d.dead_last_ts (string_of mem.pki_id) ≡ some last
      → Outcome (handle_valid_message proto now m am mem d)
  unfolding handle_valid_message
  dead-Outcome p last is_known is_dead =
      let k = string_of mem.pki_id in
      let raised = resurrect-raise proto now m am mem t e d ts env in
      let p' = peer_at mem (disclosed proto e (internal_of (get d.id_to_member k))) in
      let not_alive = not_both d k last v is_dead in
      elim (Bool-cases (before last t)) [
        | inl news ↦
            taken now k t m d _ _ (raise k (stamp now t) m p' d)
              (ground (arith, not_alive, is_dead, news))
              (ground (arith, other, is_known, is_dead, not_alive, raised, news, ts))
              (raise-Recorded now k t m p' d v announces)
        | inr stale ↦
            left_alone now k t m d _ _ (ground (arith, not_alive, is_dead, stale))
              (ground (arith, other, is_known, is_dead, not_alive, stale, ts))
      ]

  alive-Outcome :
      (p : Peer) (last : Timestamp)
      → get d.id_to_member (string_of mem.pki_id) ≡ some p
      → get d.dead_last_ts (string_of mem.pki_id) ≡ none
      → get d.alive_last_ts (string_of mem.pki_id) ≡ some last
      → Outcome (handle_valid_message proto now m am mem d)
  unfolding handle_valid_message update_alive
  alive-Outcome p last is_known not_dead is_alive =
      let k = string_of mem.pki_id in
      elim (Option-cases (get d.alive_membership k)) [
        | inl not_stored ↦ ground (arith, not_stored, is_alive, v.alive_same k)
        | inr (msg, stored) ↦
            let p' = update_peer p mem (disclosed proto e p.internal_endpoint) in
            let learned =
              learn_existing-enter proto now m am mem t e d last p msg ts env is_known is_alive
                not_dead stored in
            elim (Bool-cases (before last t)) [
              | inl news ↦
                  taken now k t m d _ _ (enter k (stamp now t) m p' d)
                    (ground (arith, is_alive, news))
                    (ground (arith, other, is_known, not_dead, is_alive, learned, news, ts))
                    (enter-Recorded now k t m p' d v not_dead announces)
              | inr stale ↦
                  left_alone now k t m d _ _ (ground (arith, is_alive, stale))
                    (ground (arith, other, is_known, not_dead, is_alive, stale, ts))
            ]
      ]

  handle_valid-Outcome : Outcome (handle_valid_message proto now m am mem d)
  handle_valid-Outcome =
      let k = string_of mem.pki_id in
      elim (Option-cases (get d.id_to_member k)) [
        | inl unknown ↦ unknown-Outcome unknown
        | inr (p, is_known) ↦ elim (Option-cases (get d.dead_last_ts k)) [
          | inr (last, is_dead) ↦ dead-Outcome p last is_known is_dead
          | inl not_dead ↦ elim (Option-cases (get d.alive_last_ts k)) [
            | inl not_alive ↦ ground (arith, is_known, not_dead, not_alive, v.members k other)
            | inr (last, is_alive) ↦ alive-Outcome p last is_known not_dead is_alive
          ]
        ]
      ]

pub with_mapper :
    (d : Discovery) (is : IdMapper) → IsValid d → IsValid (record d { id_mapper = is })
with_mapper d is v = record {
  apart = v.apart;
  known = v.known;
  members = v.members;
  alive_same = v.alive_same;
  dead_same = v.dead_same;
  announced = v.announced;
}

pub handle_alive_message_lem :
    (proto : Proto) (times : Map Str ℕ) (now : ℕ) (m : SignedGossipMessage) (am : AliveMessage)
    (mem : Member) (t : PeerTime) (e : Envelope) (d : Discovery)
    → IsValid d
    → alive_of m ≡ some (am, mem)
    → am.timestamp ≡ some t
    → m.envelope ≡ some e
    → Taken now
        (string_of mem.pki_id)
        t
        m
        (record d { id_mapper = (validate_alive_msg times now m d.id_mapper).0 })
        ((validate_alive_msg times now m d.id_mapper).1
          && not (bytes_equal mem.pki_id d.self.pki_id)
          && is_news (last_of d (string_of mem.pki_id)) t)
        (handle_alive_message proto times now m d)
unfolding handle_alive_message handle_valid_message
handle_alive_message_lem proto times now m am mem t e d v a ts env =
    let (is, valid) = validate_alive_msg times now m d.id_mapper in
    let d1 = record d { id_mapper = is } in
    let k = string_of mem.pki_id in
    elim (Bool-cases valid) [
      | inr invalid ↦
          left_alone now k t m d1 _ _ (ground (arith, invalid)) (ground (arith, invalid))
      | inl is_valid ↦ elim (Bool-cases (bytes_equal mem.pki_id d.self.pki_id)) [
        | inl own ↦
            left_alone now k t m d1 _ _ (ground (arith, own)) (ground (arith, is_valid, a, own))
        | inr other ↦
            Taken-same now k t m d1 _ _ _ _ (ground (arith, is_valid, other))
              (ground (arith, is_valid, a))
              (handle_valid-Outcome proto now m am mem t e d1 (with_mapper d is v) a ts env other)
      ]
    ]
