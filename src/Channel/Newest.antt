-- ===== src/Channel/Newest.antt =====
-- The cache of state infos keeps its promise (gossip/channel.go, stateInfoCache): seen from outside it
-- is the newest state info of each peer.
use grpc_gossip.Prelude.{
  ℕ, ◌≡◌, ◌≢◌, refl, Str, string_of, str_eq, str_eq_iff, Bool, true, false, not, ◌&&◌, is_some,
  Option, none, some, ◌>>=◌, List, [], ◌∷◌, ◌++◌, All, AllPairs, AllPairs-filter, AllPairs-snoc,
  All-append, All-filter, get, get-put, delete, put, get-delete, string_eq, arith, if◌then◌else◌,
  Option-cases, Bool-cases, inl, inr,
}
use grpc_gossip.Policy.{InvalidationResult, no_action}
use grpc_gossip.Types.{StateInfo}
use grpc_gossip.Message.{
  SignedGossipMessage, invalidation_policy, compare_timestamps, state_invalidation_policy,
}
use grpc_gossip.Store.{Stored, check_valid, check_valid_loop}
use grpc_gossip.Store.Adding.{fresh, items, replaced, survivors, is_invalidates, add_valid}
use grpc_gossip.Discovery.State.{MembershipStore}
use grpc_gossip.Channel.State.{StateInfoCache}
use grpc_gossip.Channel.Cache.{info_of, untrack, cache_add, state_pki_id}

-- What the cache promises: for each peer its newest state info.
abbrev pub Newest : Type 0
Newest = Str → Option SignedGossipMessage

abbrev pub view : StateInfoCache → Newest
view c k = get c.membership k

abbrev pub key : SignedGossipMessage → Str
key m = string_of (state_pki_id m)

-- A state info is taken if none of its peer is known, or an older one; `none` is the panic of the
-- comparison.
abbrev pub is_newer : SignedGossipMessage → Option SignedGossipMessage → Option Bool
is_newer m none = some true
is_newer m (some x) = invalidation_policy 0 m x >>= λ r. some (is_invalidates (some r))

abbrev pub learn : SignedGossipMessage → Bool → Newest → Newest
learn m added v k = if added && str_eq (key m) k then some m else v k

-- the newest message of a peer in the message store
abbrev pub stored_at : List (Stored SignedGossipMessage) → Newest
stored_at [] k = none
stored_at (x ∷ xs) k =
    let rest = stored_at xs k in if str_eq (key x.item) k then some x.item else rest

abbrev pub Apart : Stored SignedGossipMessage → Stored SignedGossipMessage → Type 0
Apart x y = str_eq (key x.item) (key y.item) ≡ false

-- The two copies agree, and there is one state info for each peer.
pub record Agrees (c : StateInfoCache) : Type 0 where
  pub infos : All (λ x. is_some (info_of x.item) ≡ true) c.messages.messages
  pub live : All (λ x. x.expired ≡ false) c.messages.messages
  pub apart : AllPairs Apart c.messages.messages
  pub same : (k : Str) → get c.membership k ≡ stored_at c.messages.messages k

abbrev policy : SignedGossipMessage → SignedGossipMessage → Option InvalidationResult
policy = invalidation_policy 0

-- the policy between state infos: other peers' are left alone
policy_apart :
    (m x : SignedGossipMessage)
    → is_some (info_of m) ≡ true
    → is_some (info_of x) ≡ true
    → str_eq (key m) (key x) ≡ false
    → policy m x ≡ some no_action
unfolding invalidation_policy state_invalidation_policy
policy_apart m x a b h = ground arith

-- a state info of the same peer is replaced, or replaces
policy_same :
    (m x : SignedGossipMessage)
    → is_some (info_of m) ≡ true
    → is_some (info_of x) ≡ true
    → str_eq (key m) (key x) ≡ true
    → policy m x ≢ some no_action
unfolding invalidation_policy state_invalidation_policy compare_timestamps
policy_same m x a b h = ground arith

-- What a message that the store accepts does to the newest messages.
stored_at-survivors :
    (now : ℕ) (m : SignedGossipMessage) (xs : List (Stored SignedGossipMessage)) (k : Str)
    → is_some (info_of m) ≡ true
    → All (λ x. is_some (info_of x.item) ≡ true) xs
    → check_valid_loop policy m xs ≡ some true
    → stored_at (survivors policy m xs ++ fresh now m ∷ []) k
      ≡ (if str_eq (key m) k then some m else stored_at xs k)
unfolding check_valid_loop
stored_at-survivors now m [] k s h valid = refl
stored_at-survivors now m (x ∷ xs) k s h valid = ground (
  arith,
  stored_at-survivors now m xs k s h.1,
  policy_same m x.item s h.0,
  policy_apart m x.item s h.0,
  str_eq_iff (key m) (key x.item),
  str_eq_iff (key m) k,
  str_eq_iff (key x.item) k,
)

-- The messages that it drops are of its peer.
replaced-key :
    (m : SignedGossipMessage) (xs : List (Stored SignedGossipMessage))
    → is_some (info_of m) ≡ true
    → All (λ x. is_some (info_of x.item) ≡ true) xs
    → All
        (λ d. (is_some (info_of d) ≡ true) × (str_eq (key m) (key d) ≡ true))
        (items (replaced policy m xs))
replaced-key m [] s h = tt
replaced-key m (x ∷ xs) s h = elim (Bool-cases (is_invalidates (policy m x.item))) [
  | inl older ↦
      rw older ((h.0, ground (arith, policy_apart m x.item s h.0, older)), replaced-key m xs s h.1)
  | inr other ↦ rw other (replaced-key m xs s h.1)
]

valid_alone :
    (m : SignedGossipMessage) (x : Stored SignedGossipMessage)
    (xs : List (Stored SignedGossipMessage))
    → is_some (info_of m) ≡ true
    → str_eq (key m) (key x.item) ≡ true
    → All (λ y. is_some (info_of y.item) ≡ true) xs
    → All (Apart x) xs
    → check_valid_loop policy m xs ≡ some true
unfolding check_valid_loop
valid_alone m x [] s same h a = refl
valid_alone m x (y ∷ ys) s same h a = ground (
  arith,
  valid_alone m x ys s same h.1 a.1,
  policy_apart m y.item s h.0,
  str_eq_iff (key m) (key y.item),
  str_eq_iff (key m) (key x.item),
  str_eq_iff (key x.item) (key y.item),
)

-- With one message for each peer the store accepts exactly what is newer.
pub check_valid-is_newer :
    (m : SignedGossipMessage) (xs : List (Stored SignedGossipMessage))
    → is_some (info_of m) ≡ true
    → All (λ x. is_some (info_of x.item) ≡ true) xs
    → AllPairs Apart xs
    → check_valid_loop policy m xs ≡ is_newer m (stored_at xs (key m))
unfolding check_valid_loop
check_valid-is_newer m [] s h a = refl
check_valid-is_newer m (x ∷ xs) s h a = elim (Bool-cases (str_eq (key m) (key x.item))) [
  | inl same ↦ ground (
    arith,
    same,
    valid_alone m x xs s same h.1 a.0,
    policy_same m x.item s h.0 same,
    str_eq_iff (key m) (key x.item),
    str_eq_iff (key x.item) (key m),
  )
  | inr other ↦ ground (
    arith,
    other,
    policy_apart m x.item s h.0,
    check_valid-is_newer m xs s h.1 a.1,
    str_eq_iff (key m) (key x.item),
    str_eq_iff (key x.item) (key m),
  )
]

get-untrack :
    (m : SignedGossipMessage) (dropped : List SignedGossipMessage) (ms : MembershipStore)
    → All (λ d. (is_some (info_of d) ≡ true) × (str_eq (key m) (key d) ≡ true)) dropped
    → (ms' : MembershipStore) × (untrack dropped ms ≡ some ms')
      × ((k : Str) → str_eq (key m) k ≡ false → get ms' k ≡ get ms k)
unfolding untrack
get-untrack m [] ms h = (ms, refl, λ k _. refl)
get-untrack m (d ∷ dropped) ms h = elim (Option-cases (info_of d)) [
  | inl no_info ↦ absurd (ground (arith, no_info, h.0.0))
  | inr (si, info) ↦
      let (ms', done, same) = get-untrack m dropped (delete ms (string_of si.pki_id)) h.1 in
      (
        ms',
        ground (arith, info, done),
        λ k other. ground (
          arith,
          same k other,
          info,
          get-delete ms (string_of si.pki_id) k,
          h.0.1,
          str_eq_iff (key m) (key d),
          str_eq_iff (key d) k,
          str_eq_iff (key m) k,
        ),
      )
]

survivors-Apart :
    (now : ℕ) (m : SignedGossipMessage) (xs : List (Stored SignedGossipMessage))
    → is_some (info_of m) ≡ true
    → All (λ x. is_some (info_of x.item) ≡ true) xs
    → check_valid_loop policy m xs ≡ some true
    → All (λ y. Apart y (fresh now m)) (survivors policy m xs)
unfolding check_valid_loop
survivors-Apart now m [] s h valid = tt
survivors-Apart now m (x ∷ xs) s h valid = elim (Bool-cases (is_invalidates (policy m x.item))) [
  | inl older ↦ rw older (survivors-Apart now m xs s h.1 (ground (arith, older)))
  | inr other ↦ rw other (
    ground (
      arith,
      other,
      policy_same m x.item s h.0,
      str_eq_iff (key m) (key x.item),
      str_eq_iff (key x.item) (key m),
    ),
    survivors-Apart now m xs s h.1 (ground (arith, other)),
  )
]

module _ (verify : SignedGossipMessage → Option Bool) (now : ℕ) where
  Outcome : SignedGossipMessage → StateInfoCache → StateInfoCache → Bool → Type 0
  Outcome m c c' added =
      Agrees c'
      × ((is_newer m (view c (key m)) >>= λ newer. if not newer then some false else verify m)
          ≡ some added)
      × ((k : Str) → view c' k ≡ learn m added (view c) k)

  after :
      (m : SignedGossipMessage) (c c' : StateInfoCache) (added : Bool) (ms' : MembershipStore)
      (si : StateInfo)
      → check_valid_loop policy m c.messages.messages ≡ some true
      → verify m ≡ some true
      → untrack (items (replaced policy m c.messages.messages)) c.membership ≡ some ms'
      → info_of m ≡ some si
      → cache_add verify now m c ≡ some (c', added)
      → (c' ≡ record {
        membership = put ms' (string_of si.pki_id) m;
        messages = record c.messages {
          messages = survivors policy m c.messages.messages ++ fresh now m ∷ [];
        };
      })
        × (added ≡ true)
  unfolding cache_add check_valid
  after m c c' added ms' si valid ok done info e =
      ground (arith, add_valid policy now m c.messages valid, valid, ok, done, info, e)

  taken :
      (m : SignedGossipMessage) (c c' : StateInfoCache) (added : Bool)
      → is_some (info_of m) ≡ true
      → Agrees c
      → check_valid_loop policy m c.messages.messages ≡ some true
      → verify m ≡ some true
      → cache_add verify now m c ≡ some (c', added)
      → Outcome m c c' added
  unfolding Outcome
  taken m c c' added s a valid ok e =
      let xs = c.messages.messages in
      let (ms', done, same) =
        get-untrack m (items (replaced policy m xs)) c.membership (replaced-key m xs s a.infos) in
      let newer = check_valid-is_newer m xs s a.infos a.apart in
      elim (Option-cases (info_of m)) [
        | inl no_info ↦ absurd (ground (arith, no_info, s))
        | inr (si, info) ↦
            let (is, new) = after m c c' added ms' si valid ok done info e in
            rw (is, new)
              (
                record {
                  infos =
                      All-append (λ x. is_some (info_of x.item) ≡ true) (survivors policy m xs)
                        (fresh now m ∷ [])
                        (All-filter (λ x. is_some (info_of x.item) ≡ true)
                          (λ x. not (is_invalidates (policy m x.item))) xs a.infos)
                        (s, tt);
                  live =
                      All-append (λ x. x.expired ≡ false) (survivors policy m xs) (fresh now m ∷ [])
                        (All-filter (λ x. x.expired ≡ false)
                          (λ x. not (is_invalidates (policy m x.item))) xs a.live)
                        (refl, tt);
                  apart =
                      AllPairs-snoc Apart (fresh now m) (survivors policy m xs)
                        (AllPairs-filter Apart (λ x. not (is_invalidates (policy m x.item))) xs
                          a.apart)
                        (survivors-Apart now m xs s a.infos valid);
                  same = λ k. ground (
                    arith,
                    get-put ms' (string_of si.pki_id) k m,
                    same k,
                    a.same k,
                    info,
                    stored_at-survivors now m xs k s a.infos valid,
                  );
                },
                ground (arith, newer, valid, ok, a.same (key m)),
                λ k. ground (arith, get-put ms' (string_of si.pki_id) k m, same k, info),
              )
      ]

  refused :
      (m : SignedGossipMessage) (c c' : StateInfoCache) (added : Bool)
      → is_some (info_of m) ≡ true
      → Agrees c
      → (check_valid_loop policy m c.messages.messages >>= λ newer.
          if not newer then some false else verify m)
        ≡ some false
      → cache_add verify now m c ≡ some (c', added)
      → (c' ≡ c) × (added ≡ false)
  unfolding cache_add check_valid
  refused m c c' added s a h e = ground arith

  kept :
      (m : SignedGossipMessage) (c c' : StateInfoCache) (added : Bool)
      → is_some (info_of m) ≡ true
      → Agrees c
      → (check_valid_loop policy m c.messages.messages >>= λ newer.
          if not newer then some false else verify m)
        ≡ some false
      → cache_add verify now m c ≡ some (c', added)
      → Outcome m c c' added
  unfolding Outcome
  kept m c c' added s a h e =
      let (is, no_news) = refused m c c' added s a h e in
      rw (is, no_news)
        (
          a,
          ground (
            arith,
            check_valid-is_newer m c.messages.messages s a.infos a.apart,
            a.same (key m),
            h,
          ),
          λ k. refl,
        )

  -- The cache behaves as the newest state info of each peer. A state info is taken exactly if none of
  -- its peer is known or only an older one, and the cache's check accepts it; then it is the one known
  -- of its peer, and nothing else changes. Its two copies stay in agreement.
  pub cache_add_refines :
      (m : SignedGossipMessage) (c c' : StateInfoCache) (added : Bool)
      → is_some (info_of m) ≡ true
      → Agrees c
      → cache_add verify now m c ≡ some (c', added)
      → Agrees c'
        × ((is_newer m (view c (key m)) >>= λ newer. if not newer then some false else verify m)
            ≡ some added)
        × ((k : Str) → view c' k ≡ learn m added (view c) k)
  unfolding Outcome cache_add check_valid
  cache_add_refines m c c' added s a e =
      elim (Option-cases (check_valid_loop policy m c.messages.messages)) [
        | inl panic ↦ absurd (ground (arith, panic, e))
        | inr (false, old) ↦ kept m c c' added s a (ground (arith, old)) e
        | inr (true, valid) ↦ elim (Option-cases (verify m)) [
          | inl panic ↦ absurd (ground (arith, valid, panic, e))
          | inr (false, bad) ↦ kept m c c' added s a (ground (arith, valid, bad)) e
          | inr (true, good) ↦ taken m c c' added s a valid good e
        ]
      ]

  -- a newer message that passes the check does get in
  pub cache_add_newer :
      (m : SignedGossipMessage) (c : StateInfoCache)
      → is_some (info_of m) ≡ true
      → Agrees c
      → is_newer m (view c (key m)) ≡ some true
      → verify m ≡ some true
      → (c' : StateInfoCache) × (cache_add verify now m c ≡ some (c', true))
  unfolding cache_add check_valid
  cache_add_newer m c s a newer good =
      let xs = c.messages.messages in
      let valid : check_valid_loop policy m xs ≡ some true =
        ground (arith, check_valid-is_newer m xs s a.infos a.apart, a.same (key m), newer) in
      let (ms', done, same) =
        get-untrack m (items (replaced policy m xs)) c.membership (replaced-key m xs s a.infos) in
      elim (Option-cases (info_of m)) [
        | inl no_info ↦ absurd (ground (arith, no_info, s))
        | inr (si, info) ↦ (
          record {
            membership = put ms' (string_of si.pki_id) m;
            messages = record c.messages { messages = survivors policy m xs ++ fresh now m ∷ [] };
          },
          ground (arith, add_valid policy now m c.messages valid, valid, good, done, info),
        )
      ]
