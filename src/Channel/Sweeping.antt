-- ===== src/Channel/Sweeping.antt =====
-- Forgetting state infos (gossip/channel.go: Purge of the cache, its sweep).
use grpc_gossip.Prelude.{
  ◌≡◌, refl, Str, Slice, string_of, str_eq, str_eq_iff, Bool, true, false, not, is_some, Option,
  none, some, List, [], ◌∷◌, map, filter, any, All, AllPairs, AllPairs-filter, All-filter, get,
  delete, get-delete, string_eq, arith, if◌then◌else◌, Option-cases, Bool-cases, inl, inr,
}
use grpc_gossip.Message.{SignedGossipMessage}
use grpc_gossip.Store.{Stored, purge}
use grpc_gossip.Store.Expiring.{purge_lem}
use grpc_gossip.Discovery.State.{MembershipStore}
use grpc_gossip.Channel.State.{StateInfoCache}
use grpc_gossip.Channel.Cache.{info_of, untrack, cache_purge, state_pki_id}
use grpc_gossip.Channel.Newest.{Agrees, Apart, view, key, stored_at}

abbrev pub keep_unless : (Slice → Bool) → Option SignedGossipMessage → Option SignedGossipMessage
keep_unless p none = none
keep_unless p (some m) = if p (state_pki_id m) then none else some m

abbrev picked : (Slice → Bool) → Option SignedGossipMessage → Bool
picked p none = false
picked p (some m) = p (state_pki_id m)

abbrev Messages : Type 0
Messages = List (Stored SignedGossipMessage)

pub stored_at-absent :
    (x : Stored SignedGossipMessage) (xs : Messages) (k : Str)
    → All (Apart x) xs
    → str_eq (key x.item) k ≡ true
    → stored_at xs k ≡ none
stored_at-absent x [] k a h = refl
stored_at-absent x (y ∷ ys) k a h = ground (
  arith,
  stored_at-absent x ys k a.1,
  str_eq_iff (key x.item) k,
  str_eq_iff (key y.item) k,
  str_eq_iff (key x.item) (key y.item),
)

module _ (p : Slice → Bool) where
  abbrev test : Stored SignedGossipMessage → Bool
  test x = p (state_pki_id x.item)

  stored_at-kept :
      (xs : Messages) (k : Str)
      → AllPairs Apart xs
      → stored_at (filter (λ x. not (test x)) xs) k ≡ keep_unless p (stored_at xs k)
  stored_at-kept [] k a = refl
  stored_at-kept (x ∷ xs) k a = ground (arith, stored_at-kept xs k a.1, stored_at-absent x xs k a.0)

  any-dropped :
      (xs : Messages) (k : Str)
      → AllPairs Apart xs
      → any (λ d. str_eq (key d) k) (map (λ x. x.item) (filter test xs)) ≡ picked p (stored_at xs k)
  any-dropped [] k a = refl
  any-dropped (x ∷ xs) k a = ground (arith, any-dropped xs k a.1, stored_at-absent x xs k a.0)

get-untrack-All :
    (dropped : List SignedGossipMessage) (ms : MembershipStore)
    → All (λ d. is_some (info_of d) ≡ true) dropped
    → (ms' : MembershipStore) × (untrack dropped ms ≡ some ms')
      × ((k : Str) → get ms' k ≡ (if any (λ d. str_eq (key d) k) dropped then none else get ms k))
unfolding untrack
get-untrack-All [] ms h = (ms, refl, λ k. refl)
get-untrack-All (d ∷ dropped) ms h = elim (Option-cases (info_of d)) [
  | inl no_info ↦ absurd (ground (arith, no_info, h.0))
  | inr (si, info) ↦
      let (ms', done, same) = get-untrack-All dropped (delete ms (string_of si.pki_id)) h.1 in
      (
        ms',
        ground (arith, info, done),
        λ k. ground (arith, same k, info, get-delete ms (string_of si.pki_id) k),
      )
]

All-picked :
    (q : Stored SignedGossipMessage → Bool) (xs : Messages)
    → All (λ x. is_some (info_of x.item) ≡ true) xs
    → All (λ d. is_some (info_of d) ≡ true) (map (λ x. x.item) (filter q xs))
All-picked q [] h = tt
All-picked q (x ∷ xs) h = elim (Bool-cases (q x)) [
  | inl hit ↦ rw hit (h.0, All-picked q xs h.1)
  | inr miss ↦ rw miss (All-picked q xs h.1)
]

all_infos_lem :
    (xs : Messages)
    → All (λ x. is_some (info_of x.item) ≡ true) xs
    → any (λ x. not (is_some (info_of x.item))) xs ≡ false
all_infos_lem [] h = refl
all_infos_lem (x ∷ xs) h = ground (arith, h.0, all_infos_lem xs h.1)

-- A purge of a cache whose copies agree does not panic. It forgets exactly the peers that the test
-- picks, from both copies.
pub cache_purge_lem :
    (p : Slice → Bool) (c : StateInfoCache)
    → Agrees c
    → (c' : StateInfoCache) × (cache_purge p c ≡ some c')
      × Agrees c'
      × ((k : Str) → view c' k ≡ keep_unless p (view c k))
unfolding cache_purge
cache_purge_lem p c a =
    let xs = c.messages.messages in
    let (left, dropped) = purge_lem (λ m. p (state_pki_id m)) c.messages in
    let (ms', done, same) =
      get-untrack-All (map (λ x. x.item) (filter (test p) xs)) c.membership
        (All-picked (test p) xs a.infos) in
    let seen : (k : Str) → get ms' k ≡ keep_unless p (stored_at xs k) =
      λ k. ground (arith, same k, any-dropped p xs k a.apart, a.same k) in
    (
      record { membership = ms'; messages = (purge (λ m. p (state_pki_id m)) c.messages).0 },
      ground (arith, all_infos_lem xs a.infos, dropped, done),
      record {
        infos = rw left (All-filter _ (λ x. not (test p x)) xs a.infos);
        live = rw left (All-filter _ (λ x. not (test p x)) xs a.live);
        apart = rw left (AllPairs-filter Apart (λ x. not (test p x)) xs a.apart);
        same = λ k. rw left (ground (arith, seen k, stored_at-kept p xs k a.apart));
      },
      λ k. ground (arith, seen k, a.same k),
    )
