-- ===== src/Store/Expiring.antt =====
-- Expiry, the size and Purge of the message store (gossip/msg.go).
use grpc_gossip.Prelude.{
  ℕ, ◌+◌, ◌-◌, ◌≡◌, refl, pos, sub_ℕ, List, [], ◌∷◌, length, Bool, true, false, not, some, arith,
  All, filter, count, any, count-append, Bool-cases, inl, inr,
}
use grpc_gossip.Policy.{MessageReplacingPolicy}
use grpc_gossip.Store.{
  Stored, MessageStore, add, size, live_items, get_items, older_than, purge_loop, purge,
  has_message_expired, expire_loop, expire_messages, expiration_turn,
}
use grpc_gossip.Store.Adding.{replaced, survivors, accepted, items, fresh}

module _ {M : Type 0} where
  abbrev pub count_expired : List (Stored M) → ℕ
  count_expired = count (λ s. s.expired)

  -- the counter is the number of the stored messages that are marked as expired
  abbrev pub IsCounted : MessageStore M → Type 0
  IsCounted s = s.expired_count ≡ count_expired s.messages

  length-live_items : (xs : List (Stored M)) → length (live_items xs) + count_expired xs ≡ length xs
  unfolding live_items
  length-live_items [] = omega arith
  length-live_items (x ∷ xs) = ground (arith, length-live_items xs)

  -- With an exact counter the size is the number of messages that `Get` returns.
  size-get_items : (s : MessageStore M) → IsCounted s → size s ≡ pos (length (get_items s))
  unfolding size get_items
  size-get_items s h = ground (arith, length-live_items s.messages)

  All-live_items :
      (P : M → Type 0) (xs : List (Stored M)) → All (λ x. P x.item) xs → All P (live_items xs)
  unfolding live_items
  All-live_items P [] h = tt
  All-live_items P (x ∷ xs) h = elim (Bool-cases x.expired) [
    | inl gone ↦ rw gone (All-live_items P xs h.1)
    | inr live ↦ rw live (h.0, All-live_items P xs h.1)
  ]

  pub All-get_items :
      (P : M → Type 0) (s : MessageStore M) → All (λ x. P x.item) s.messages → All P (get_items s)
  unfolding get_items
  All-get_items P s h = All-live_items P s.messages h

  live_items-All :
      (xs : List (Stored M)) → All (λ x. x.expired ≡ false) xs → live_items xs ≡ items xs
  unfolding live_items
  live_items-All [] h = refl
  live_items-All (x ∷ xs) h = ground (arith, h.0, live_items-All xs h.1)

  -- where nothing is marked as expired
  pub get_items-live :
      (s : MessageStore M)
      → All (λ x. x.expired ≡ false) s.messages
      → get_items s ≡ items s.messages
  unfolding get_items
  get_items-live s h = live_items-All s.messages h

  expire_loop_count :
      (now ttl : ℕ) (xs : List (Stored M)) (n c : ℕ)
      → n ≡ c + count_expired xs
      → (expire_loop now ttl xs n).2 ≡ c + count_expired (expire_loop now ttl xs n).0
  unfolding expire_loop
  expire_loop_count now ttl [] n c h = h
  expire_loop_count now ttl (x ∷ xs) n c h = ground (
    arith,
    expire_loop_count now ttl xs n c,
    expire_loop_count now ttl xs n (c + 1),
    expire_loop_count now ttl xs (n + 1) (c + 1),
    expire_loop_count now ttl xs (n - 1) c,
  )

  expire_loop_live :
      (now ttl : ℕ) (xs : List (Stored M)) (n : ℕ)
      → live_items (expire_loop now ttl xs n).0
        ≡ live_items (filter (λ x. not (older_than now ttl x)) xs)
  unfolding expire_loop live_items
  expire_loop_live now ttl [] n = refl
  expire_loop_live now ttl (x ∷ xs) n = ground (
    arith,
    expire_loop_live now ttl xs n,
    expire_loop_live now ttl xs (n + 1),
    expire_loop_live now ttl xs (n - 1),
  )

  expire_loop_called :
      (now ttl : ℕ) (xs : List (Stored M)) (n : ℕ)
      → (expire_loop now ttl xs n).1 ≡ live_items (filter (older_than now ttl) xs)
  unfolding expire_loop live_items
  expire_loop_called now ttl [] n = refl
  expire_loop_called now ttl (x ∷ xs) n = ground (
    arith,
    expire_loop_called now ttl xs n,
    expire_loop_called now ttl xs (n + 1),
    expire_loop_called now ttl xs (n - 1),
  )

  expire_loop_idle :
      (now ttl : ℕ) (xs : List (Stored M)) (n : ℕ)
      → any (has_message_expired now ttl) xs ≡ false
      → expire_loop now ttl xs n ≡ (xs, [], n)
  unfolding expire_loop has_message_expired
  expire_loop_idle now ttl [] n h = refl
  expire_loop_idle now ttl (x ∷ xs) n h = ground (arith, expire_loop_idle now ttl xs n)

  -- The counter stays exact under expiry.
  expire_messages-IsCounted :
      (now : ℕ) (s : MessageStore M) → IsCounted s → IsCounted (expire_messages now s).0
  unfolding expire_messages
  expire_messages-IsCounted now s h =
      ground (arith, expire_loop_count now s.msg_ttl s.messages s.expired_count 0)

  -- A turn of the expiration routine on a store that runs: afterwards `Get` returns exactly the live
  -- messages not older than the time to live, in order, and the callback has been called exactly on the
  -- live messages that are older. The test that guards the work never skips any of it.
  pub expiration_turn_lem :
      (now : ℕ) (s : MessageStore M)
      → s.stopped ≡ false
      → (get_items (expiration_turn now s).0
          ≡ live_items (filter (λ x. not (older_than now s.msg_ttl x)) s.messages))
        × ((expiration_turn now s).1 ≡ live_items (filter (older_than now s.msg_ttl) s.messages))
  unfolding expiration_turn get_items
  expiration_turn_lem now s h =
      let live = expire_loop_live now s.msg_ttl s.messages s.expired_count in
      let called = expire_loop_called now s.msg_ttl s.messages s.expired_count in
      elim (Bool-cases (any (has_message_expired now s.msg_ttl) s.messages)) [
        | inl some_old ↦ ground (arith, live, called)
        | inr all_young ↦ ground (
          arith,
          live,
          called,
          expire_loop_idle now s.msg_ttl s.messages s.expired_count all_young,
        )
      ]

  count_expired-survivors :
      (policy : MessageReplacingPolicy M) (m : M) (xs : List (Stored M))
      → count_expired (survivors policy m xs) + count_expired (replaced policy m xs)
        ≡ count_expired xs
  count_expired-survivors policy m [] = omega arith
  count_expired-survivors policy m (x ∷ xs) = ground (arith, count_expired-survivors policy m xs)

  -- `Add` leaves the counter alone, also when it replaces messages that are marked as expired: after an
  -- accepted message the size is the number of messages that `Get` returns less the number of expired
  -- messages that were replaced.
  pub size-add :
      (policy : MessageReplacingPolicy M) (now : ℕ) (m : M) (s s' : MessageStore M)
      (dropped : List M)
      → IsCounted s
      → add policy now m s ≡ some (s', dropped, true)
      → size s' ≡ sub_ℕ (length (get_items s')) (count_expired (replaced policy m s.messages))
  unfolding size get_items
  size-add policy now m s s' dropped h e =
      let (same, counter, _, _) = accepted policy now m s s' dropped e in
      ground (
        arith,
        length-live_items s'.messages,
        count_expired-survivors policy m s.messages,
        count-append (λ (x : Stored M). x.expired) (survivors policy m s.messages)
            (fresh now m ∷ []),
        same,
        counter,
      )

  purge_loop_lem :
      (p : M → Bool) (xs : List (Stored M))
      → purge_loop p xs ≡ (filter (λ x. not (p x.item)) xs, items (filter (λ x. p x.item) xs))
  unfolding purge_loop
  purge_loop_lem p [] = refl
  purge_loop_lem p (x ∷ xs) = ground (arith, purge_loop_lem p xs)

  unneeded :
      (p : M → Bool) (xs : List (Stored M))
      → any (λ x. p x.item) xs ≡ false
      → purge_loop p xs ≡ (xs, [])
  unfolding purge_loop
  unneeded p [] h = refl
  unneeded p (x ∷ xs) h = ground (arith, unneeded p xs)

  -- `Purge` removes exactly the messages that the caller's test picks, in whatever state they are, and
  -- calls the trigger on exactly these, in order; the test that guards it never skips any.
  pub purge_lem :
      (p : M → Bool) (s : MessageStore M)
      → ((purge p s).0.messages ≡ filter (λ x. not (p x.item)) s.messages)
        × ((purge p s).1 ≡ items (filter (λ x. p x.item) s.messages))
  unfolding purge
  purge_lem p s = elim (Bool-cases (any (λ x. p x.item) s.messages)) [
    | inl needed ↦ ground (arith, purge_loop_lem p s.messages)
    | inr idle ↦ ground (arith, purge_loop_lem p s.messages, unneeded p s.messages idle)
  ]
