-- ===== src/Discovery/Expiry.antt =====
-- What the check for silent members leaves (gossip/discovery.go: getDeadMembers, expireDeadMembers).
use grpc_gossip.Prelude.{
  ℕ, ◌-◌, ◌≡◌, refl, Str, str_eq, str_eq_iff, Slice, string_of, Bool, true, ◌&&◌, is_some, Option,
  none, some, List, [], ◌∷◌, All, any, Map, get, put, delete, has, get-put, get-delete, string_eq,
  arith, if◌then◌else◌, Option-cases, inl, inr, ltb,
}
use grpc_gossip.Message.{SignedGossipMessage}
use grpc_gossip.Selecting.{Peer}
use grpc_gossip.Discovery.State.{
  Discovery, Timestamp, get_dead_members, expire_dead_members, check_alive,
}
use grpc_gossip.Discovery.Membership.{IsValid, Announces, has-put, has-delete, All-delete}

-- a member is on a list
abbrev pub listed : List Slice → Str → Bool
listed dead k = any (λ s. str_eq (string_of s) k) dead

-- a member was last heard of longer ago than the timeout
abbrev pub is_silent : ℕ → ℕ → Map Str Timestamp → Str → Bool
is_silent now timeout m k = any (λ e. str_eq e.0 k && ltb timeout (now - e.1.last_seen)) m

listed-get_dead_members :
    (now timeout : ℕ) (m : Map Str Timestamp) (k : Str)
    → listed (get_dead_members now timeout m) k ≡ is_silent now timeout m k
unfolding get_dead_members
listed-get_dead_members now timeout [] k = refl
listed-get_dead_members now timeout ((id, last) ∷ m) k =
    ground (arith, listed-get_dead_members now timeout m k)

-- What it means to declare the members on a list dead: those of them that were alive are dead, with the
-- time of their last message; nobody else is any different.
pub record Expired (dead : List Slice) (d d' : Discovery) : Type 0 where
  pub alive_ts :
      (k : Str) → get d'.alive_last_ts k ≡ (if listed dead k then none else get d.alive_last_ts k)
  pub dead_ts :
      (k : Str)
      → get d'.dead_last_ts k ≡ (
          if listed dead k && has d.alive_last_ts k
          then get d.alive_last_ts k
          else get d.dead_last_ts k)
  pub known : d'.id_to_member ≡ d.id_to_member
  pub valid : IsValid d'

-- a member that is alive is declared dead
abbrev buried : Str → Timestamp → SignedGossipMessage → Discovery → Discovery
buried k last m d = record d {
  dead_last_ts = put d.dead_last_ts k last;
  alive_last_ts = delete d.alive_last_ts k;
  dead_membership = put d.dead_membership k m;
  alive_membership = delete d.alive_membership k;
}

buried-IsValid :
    (k : Str) (last : Timestamp) (m : SignedGossipMessage) (d : Discovery)
    → IsValid d
    → get d.alive_last_ts k ≡ some last
    → IsValid (buried k last m d)
buried-IsValid k last m d v is_alive = record {
  apart = λ j. ground (
    arith,
    has-delete d.alive_last_ts k j,
    has-put d.dead_last_ts k j last,
    v.apart j,
    str_eq_iff k j,
  );
  known = λ j h. ground (
    arith,
    h,
    has-delete d.alive_last_ts k j,
    has-put d.dead_last_ts k j last,
    v.known j,
    is_alive,
    str_eq_iff k j,
  );
  members = λ j other h.
      ground (
        arith,
        has-delete d.alive_last_ts k j,
        has-put d.dead_last_ts k j last,
        v.members j other h,
      );
  alive_same = λ j.
      ground
        (arith, has-delete d.alive_last_ts k j, has-delete d.alive_membership k j, v.alive_same j);
  dead_same = λ j.
      ground
        (arith, has-put d.dead_last_ts k j last, has-put d.dead_membership k j m, v.dead_same j);
  announced = All-delete Announces d.alive_membership k v.announced;
}

-- no member is nil whose connection is to be closed
abbrev pub AllKnown : List (Option Peer) → Type 0
AllKnown closed = All (λ p. is_some p ≡ true) closed

module _ (s : Slice) (dead : List Slice) (d d' : Discovery) where
  skip-Expired :
      get d.alive_last_ts (string_of s) ≡ none → Expired dead d d' → Expired (s ∷ dead) d d'
  skip-Expired not_alive h = record {
    alive_ts = λ k. ground (arith, h.alive_ts k, not_alive, str_eq_iff (string_of s) k);
    dead_ts = λ k. ground (arith, h.dead_ts k, not_alive, str_eq_iff (string_of s) k);
    known = h.known;
    valid = h.valid;
  }

  buried-Expired :
      (last : Timestamp) (m : SignedGossipMessage)
      → get d.alive_last_ts (string_of s) ≡ some last
      → Expired dead (buried (string_of s) last m d) d'
      → Expired (s ∷ dead) d d'
  buried-Expired last m is_alive h = record {
    alive_ts = λ k. ground (arith, h.alive_ts k, get-delete d.alive_last_ts (string_of s) k);
    dead_ts = λ k. ground (
      arith,
      h.dead_ts k,
      get-delete d.alive_last_ts (string_of s) k,
      get-put d.dead_last_ts (string_of s) k last,
      is_alive,
      str_eq_iff (string_of s) k,
    );
    known = h.known;
    valid = h.valid;
  }

abbrev pub Done : List Slice → Discovery → Discovery × List (Option Peer) → Type 0
Done dead d r = Expired dead d r.0 × AllKnown r.1

Done-same :
    (dead : List Slice) (d : Discovery) (r r' : Discovery × List (Option Peer))
    → r ≡ r'
    → Done dead d r'
    → Done dead d r
Done-same dead d r r' same h = rw same h

expire_dead_members_lem :
    (dead : List Slice) (d : Discovery) → IsValid d → Done dead d (expire_dead_members dead d)
unfolding expire_dead_members
expire_dead_members_lem [] d v =
    (record { alive_ts = λ k. refl; dead_ts = λ k. refl; known = refl; valid = v }, tt)
expire_dead_members_lem (s ∷ dead) d v = elim (Option-cases (get d.alive_last_ts (string_of s))) [
  | inl not_alive ↦
      let (expired, closed) = expire_dead_members_lem dead d v in
      Done-same (s ∷ dead) d _ _ (ground (arith, not_alive))
        (skip-Expired s dead d (expire_dead_members dead d).0 not_alive expired, closed)
  | inr (last, is_alive) ↦ elim (Option-cases (get d.alive_membership (string_of s))) [
    | inl not_stored ↦ ground (arith, not_stored, v.alive_same (string_of s), is_alive)
    | inr (m, stored) ↦
        let d1 = buried (string_of s) last m d in
        let (expired, closed) =
          expire_dead_members_lem dead d1 (buried-IsValid (string_of s) last m d v is_alive) in
        let r = expire_dead_members dead d1 in
        Done-same (s ∷ dead) d _ (r.0, get d.id_to_member (string_of s) ∷ r.1)
          (ground (arith, is_alive, stored))
          (
            buried-Expired s dead d r.0 last m is_alive expired,
            (ground (arith, v.known (string_of s), is_alive), closed),
          )
  ]
]

-- A turn of the check for silent members declares dead exactly the members that are alive and were
-- last heard of longer ago than the timeout: they are no longer alive, and dead with the time of their
-- last message. Nobody else changes, no member is forgotten, the maps still agree, and no connection
-- is closed to a member that is nil.
pub check_alive_lem :
    (now timeout : ℕ) (d : Discovery)
    → IsValid d
    → ((k : Str)
        → (get (check_alive now timeout d).0.alive_last_ts k
            ≡ (if is_silent now timeout d.alive_last_ts k then none else get d.alive_last_ts k))
          × (get (check_alive now timeout d).0.dead_last_ts k ≡ (
              if is_silent now timeout d.alive_last_ts k && has d.alive_last_ts k
              then get d.alive_last_ts k
              else get d.dead_last_ts k)))
      × ((check_alive now timeout d).0.id_to_member ≡ d.id_to_member)
      × IsValid (check_alive now timeout d).0
      × AllKnown (check_alive now timeout d).1
unfolding check_alive
check_alive_lem now timeout d v =
    let dead = get_dead_members now timeout d.alive_last_ts in
    let (expired, closed) = expire_dead_members_lem dead d v in
    (
      (λ k. (
        rw (← listed-get_dead_members now timeout d.alive_last_ts k) (expired.alive_ts k),
        rw (← listed-get_dead_members now timeout d.alive_last_ts k) (expired.dead_ts k),
      )),
      expired.known,
      expired.valid,
      closed,
    )
