-- ===== src/Discovery/Membership.antt =====
-- The invariant of the discovery service's maps (gossip/discovery.go).
use grpc_gossip.Prelude.{
  ◌≡◌, Str, str_eq, str_eq_iff, string_of, true, false, ◌&&◌, ◌||◌, Option, some, ◌>>=◌, [], ◌∷◌,
  All, Map, put, delete, has, get-put, get-delete, string_eq, arith, if◌then◌else◌,
}
use grpc_gossip.Message.{SignedGossipMessage}
use grpc_gossip.Selecting.{Peer}
use grpc_gossip.Discovery.State.{Discovery, Timestamp, alive_of}

-- the PKI-ID that an alive message announces
abbrev pub announced_id : SignedGossipMessage → Option Str
announced_id m = alive_of m >>= λ (am, mem). some (string_of mem.pki_id)

abbrev pub Announces : Str × SignedGossipMessage → Type 0
Announces (k, m) = announced_id m ≡ some k

-- Nobody is both alive and dead, both are known members, a stored message belongs to a member that is
-- alive (or dead) and the other way round, and it announces the member that it is stored for.
pub record IsValid (d : Discovery) : Type 0 where
  pub apart : (k : Str) → (has d.alive_last_ts k && has d.dead_last_ts k) ≡ false
  pub known :
      (k : Str)
      → (has d.alive_last_ts k || has d.dead_last_ts k) ≡ true
      → has d.id_to_member k ≡ true
  -- the member that is none of both can only be this peer
  pub members :
      (k : Str)
      → str_eq k (string_of d.self.pki_id) ≡ false
      → has d.id_to_member k ≡ true
      → (has d.alive_last_ts k || has d.dead_last_ts k) ≡ true
  pub alive_same : (k : Str) → has d.alive_membership k ≡ has d.alive_last_ts k
  pub dead_same : (k : Str) → has d.dead_membership k ≡ has d.dead_last_ts k
  pub announced : All Announces d.alive_membership

module _ {V : Type 0} where
  pub has-put : (m : Map Str V) (k j : Str) (v : V) → has (put m k v) j ≡ (str_eq k j || has m j)
  has-put m k j v = ground (arith, get-put m k j v)

  pub has-delete :
      (m : Map Str V) (k j : Str) → has (delete m k) j ≡ (if str_eq k j then false else has m j)
  has-delete m k j = ground (arith, get-delete m k j)

module _ {V : Type 0} (P : Str × V → Type 0) where
  pub All-put : (m : Map Str V) (k : Str) (v : V) → All P m → P (k, v) → All P (put m k v)
  unfolding put
  All-put [] k v h p = (p, tt)
  All-put ((j, w) ∷ m) k v h p =
      elim (str_eq j k) as (λ b. All P (if b then (k, v) ∷ m else (j, w) ∷ put m k v)) [
        | true ↦ (p, h.1)
        | false ↦ (h.0, All-put m k v h.1 p)
      ]

  pub All-delete : (m : Map Str V) (k : Str) → All P m → All P (delete m k)
  unfolding delete
  All-delete [] k h = tt
  All-delete ((j, w) ∷ m) k h =
      elim (str_eq j k) as (λ b. All P (if b then delete m k else (j, w) ∷ delete m k)) [
        | true ↦ All-delete m k h.1
        | false ↦ (h.0, All-delete m k h.1)
      ]

-- a member that becomes or stays alive
abbrev pub enter : Str → Timestamp → SignedGossipMessage → Peer → Discovery → Discovery
enter k t m p d = record d {
  alive_last_ts = put d.alive_last_ts k t;
  alive_membership = put d.alive_membership k m;
  id_to_member = put d.id_to_member k p;
}

-- a member that was dead
abbrev pub raise : Str → Timestamp → SignedGossipMessage → Peer → Discovery → Discovery
raise k t m p d = enter k t m p (record d {
  dead_last_ts = delete d.dead_last_ts k;
  dead_membership = delete d.dead_membership k;
})

pub enter-IsValid :
    (k : Str) (t : Timestamp) (m : SignedGossipMessage) (p : Peer) (d : Discovery)
    → IsValid d
    → has d.dead_last_ts k ≡ false
    → announced_id m ≡ some k
    → IsValid (enter k t m p d)
enter-IsValid k t m p d v not_dead a = record {
  apart = λ j. ground (arith, has-put d.alive_last_ts k j t, v.apart j, not_dead, str_eq_iff k j);
  known = λ j h.
      ground (arith, h, has-put d.alive_last_ts k j t, has-put d.id_to_member k j p, v.known j);
  members = λ j other h.
      ground
        (arith, h, has-put d.alive_last_ts k j t, has-put d.id_to_member k j p, v.members j other);
  alive_same = λ j.
      ground
        (arith, has-put d.alive_last_ts k j t, has-put d.alive_membership k j m, v.alive_same j);
  dead_same = v.dead_same;
  announced = All-put Announces d.alive_membership k m v.announced a;
}

pub raise-IsValid :
    (k : Str) (t : Timestamp) (m : SignedGossipMessage) (p : Peer) (d : Discovery)
    → IsValid d
    → announced_id m ≡ some k
    → IsValid (raise k t m p d)
raise-IsValid k t m p d v a = record {
  apart =
      λ j. ground (arith, has-put d.alive_last_ts k j t, has-delete d.dead_last_ts k j, v.apart j);
  known = λ j h. ground (
    arith,
    h,
    has-put d.alive_last_ts k j t,
    has-delete d.dead_last_ts k j,
    has-put d.id_to_member k j p,
    v.known j,
  );
  members = λ j other h. ground (
    arith,
    h,
    has-put d.alive_last_ts k j t,
    has-delete d.dead_last_ts k j,
    has-put d.id_to_member k j p,
    v.members j other,
  );
  alive_same = λ j.
      ground
        (arith, has-put d.alive_last_ts k j t, has-put d.alive_membership k j m, v.alive_same j);
  dead_same = λ j.
      ground
        (arith, has-delete d.dead_last_ts k j, has-delete d.dead_membership k j, v.dead_same j);
  announced = All-put Announces d.alive_membership k m v.announced a;
}
