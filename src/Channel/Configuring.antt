-- ===== src/Channel/Configuring.antt =====
-- What a join message changes (gossip/channel.go, ConfigureChannel).
use grpc_gossip.Prelude.{
  ℕ, ◌≤◌, ◌≡◌, refl, Str, Slice, string_of, str_eq, str_eq_iff, str_eq_refl, bytes_equal, Bool,
  true, false, ◌&&◌, Option, none, some, List, [], ◌∷◌, map, any, All, AllPairs, get, delete,
  get-delete, string_eq, arith, if◌then◌else◌, Option-cases, inl, inr,
}
use mathlib.Core.Path.{subst}
use grpc_gossip.Types.{StateInfo}
use grpc_gossip.Message.{SignedGossipMessage}
use grpc_gossip.Store.{Stored, get_items}
use grpc_gossip.Store.Expiring.{get_items-live}
use grpc_gossip.Channel.State.{Env, GossipChannel, StateInfoCache, JoinChanMsg, orgs_of}
use grpc_gossip.Channel.Cache.{info_of, verify_state_info, cache_purge}
use grpc_gossip.Channel.Newest.{Agrees, Apart, view, key, stored_at}
use grpc_gossip.Channel.Sweeping.{cache_purge_lem, stored_at-absent}
use grpc_gossip.Channel.Joining.{reverify, configure_channel}

pub stored_at-key :
    (xs : List (Stored SignedGossipMessage)) (k : Str) (m : SignedGossipMessage)
    → stored_at xs k ≡ some m
    → key m ≡ k
stored_at-key [] k m h = ground arith
stored_at-key (x ∷ xs) k m h = ground (arith, stored_at-key xs k m, str_eq_iff (key x.item) k)

abbrev refuses : Option Bool → Bool
refuses (some false) = true
refuses _ = false

module _ (verify : SignedGossipMessage → Option Bool) where
  abbrev pub keep_verified : Option SignedGossipMessage → Option SignedGossipMessage
  keep_verified none = none
  keep_verified (some m) = if refuses (verify m) then none else some m

  abbrev is_refused : Str → SignedGossipMessage → Bool
  is_refused k m = refuses (verify m) && str_eq (key m) k

  none-refused :
      (x : Stored SignedGossipMessage) (xs : List (Stored SignedGossipMessage)) (k : Str)
      → All (Apart x) xs
      → str_eq (key x.item) k ≡ true
      → any (is_refused k) (map (λ x. x.item) xs) ≡ false
  none-refused x [] k a h = refl
  none-refused x (y ∷ ys) k a h = ground (
    arith,
    none-refused x ys k a.1,
    str_eq_iff (key x.item) k,
    str_eq_iff (key y.item) k,
    str_eq_iff (key x.item) (key y.item),
  )

  any-refused :
      (xs : List (Stored SignedGossipMessage)) (k : Str)
      → AllPairs Apart xs
      → (if any (is_refused k) (map (λ x. x.item) xs) then none else stored_at xs k)
        ≡ keep_verified (stored_at xs k)
  any-refused [] k a = refl
  any-refused (x ∷ xs) k a =
      ground (arith, any-refused xs k a.1, none-refused x xs k a.0, stored_at-absent x xs k a.0)

-- A purge of the peer of one state info, with the removal that follows it.
forget_one :
    (si : StateInfo) (c : StateInfoCache)
    → Agrees c
    → (c' : StateInfoCache) × (cache_purge (λ id. bytes_equal id si.pki_id) c ≡ some c')
      × Agrees (record c' { membership = delete c'.membership (string_of si.pki_id) })
      × ((k : Str)
          → get (delete c'.membership (string_of si.pki_id)) k
            ≡ (if str_eq (string_of si.pki_id) k then none else view c k))
forget_one si c a =
    let (c', done, a', seen) = cache_purge_lem (λ id. bytes_equal id si.pki_id) c a in
    let key_of : (k : Str) (m : SignedGossipMessage) → view c k ≡ some m → key m ≡ k =
      λ k m e. stored_at-key c.messages.messages k m (ground (arith, a.same k, e)) in
    let gone : view c' (string_of si.pki_id) ≡ none =
      elim (Option-cases (view c (string_of si.pki_id))) [
        | inl unknown ↦ ground (arith, seen (string_of si.pki_id), unknown)
        | inr (m, is_known) ↦ ground (
          arith,
          seen (string_of si.pki_id),
          is_known,
          key_of (string_of si.pki_id) m is_known,
          str_eq_refl (key m),
        )
      ] in
    let others : (k : Str) → str_eq (string_of si.pki_id) k ≡ false → view c' k ≡ view c k =
      λ k other. elim (Option-cases (view c k)) [
        | inl unknown ↦ ground (arith, seen k, unknown)
        | inr (m, is_known) ↦ ground (
          arith,
          seen k,
          is_known,
          key_of k m is_known,
          other,
          str_eq_iff (key m) (string_of si.pki_id),
          str_eq_iff (string_of si.pki_id) k,
        )
      ] in
    (
      c',
      done,
      record {
        infos = a'.infos;
        live = a'.live;
        apart = a'.apart;
        same = λ k. ground (
          arith,
          get-delete c'.membership (string_of si.pki_id) k,
          a'.same k,
          gone,
          str_eq_iff (string_of si.pki_id) k,
        );
      },
      λ k. ground (arith, get-delete c'.membership (string_of si.pki_id) k, others k),
    )

module _ (env : Env) (gc : GossipChannel) (orgs : List Slice) where
  abbrev check : SignedGossipMessage → Option Bool
  check = verify_state_info env gc orgs

  reverify_lem :
      (msgs : List SignedGossipMessage) (c c' : StateInfoCache)
      → Agrees c
      → reverify env gc orgs msgs c ≡ some c'
      → Agrees c'
        × ((k : Str) → view c' k ≡ (if any (is_refused check k) msgs then none else view c k))
  unfolding reverify
  reverify_lem [] c c' a e =
      let same : c ≡ c' = ground (arith, e) in (subst Agrees same a, λ k. ground (arith, same))
  reverify_lem (m ∷ msgs) c c' a e = elim (Option-cases (check m)) [
    | inl panic ↦ absurd (ground (arith, panic, e))
    | inr (true, good) ↦
        let (a', seen) = reverify_lem msgs c c' a (ground (arith, good, e)) in
        (a', λ k. ground (arith, seen k, good))
    | inr (false, bad) ↦ elim (Option-cases (info_of m)) [
      | inl no_info ↦ absurd (ground (arith, bad, no_info, e))
      | inr (si, info) ↦
          let (c1, purged, a1, forgot) = forget_one si c a in
          let (a', seen) =
            reverify_lem msgs
              (record c1 { membership = delete c1.membership (string_of si.pki_id) }) c' a1
              (ground (arith, bad, info, purged, e)) in
          (a', λ k. ground (arith, seen k, forgot k, bad, info))
    ]
  ]

-- A join message for some organizations takes effect whatever is in force, since the clock numbers both:
-- the channel then has exactly its organizations, and of the state infos exactly those that the check
-- does not refuse for these organizations are still known. Only the organizations, the message and the
-- cache change, whose copies stay in agreement.
pub configure_channel_lem :
    (env : Env) (first second : ℕ) (join : JoinChanMsg) (gc gc' : GossipChannel) (org : Slice)
    (orgs : List Slice)
    → orgs_of join ≡ org ∷ orgs
    → first ≤ second
    → Agrees gc.state_info_msg_store
    → configure_channel env first second join gc ≡ some gc'
    → (gc' ≡ record gc {
      orgs = orgs_of join;
      join_msg = some join;
      state_info_msg_store = gc'.state_info_msg_store;
    })
      × Agrees gc'.state_info_msg_store
      × ((k : Str)
          → view gc'.state_info_msg_store k
            ≡ keep_verified
                (verify_state_info env
                  (record gc { orgs = orgs_of join; join_msg = some join })
                  (orgs_of join))
                (view gc.state_info_msg_store k))
unfolding configure_channel
configure_channel_lem env first second join gc gc' org orgs some_org clock a e =
    let joined = record gc { orgs = orgs_of join; join_msg = some join } in
    let c = gc.state_info_msg_store in
    elim (Option-cases (reverify env joined (orgs_of join) (get_items c.messages) c)) [
      | inl panic ↦ absurd (ground (arith, some_org, clock, panic, e))
      | inr (c', done) ↦
          let is : record joined { state_info_msg_store = c' } ≡ gc' =
            ground (arith, some_org, clock, done, e) in
          let (a', seen) =
            reverify_lem env joined (orgs_of join) (get_items c.messages) c c' a done in
          let known : (k : Str)
              → view c' k ≡ keep_verified (check env joined (orgs_of join)) (view c k) =
            λ k. ground (
              arith,
              seen k,
              a.same k,
              get_items-live c.messages a.live,
              any-refused (check env joined (orgs_of join)) c.messages.messages k a.apart,
            ) in
          subst Configured is (refl, a', known)
    ]
  where
    Configured : GossipChannel → Type 0
    Configured g =
        (g ≡ record gc {
          orgs = orgs_of join;
          join_msg = some join;
          state_info_msg_store = g.state_info_msg_store;
        })
        × Agrees g.state_info_msg_store
        × ((k : Str)
            → view g.state_info_msg_store k
              ≡ keep_verified
                  (verify_state_info env (record gc { orgs = orgs_of join; join_msg = some join })
                    (orgs_of join))
                  (view gc.state_info_msg_store k))
