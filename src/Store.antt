-- ===== src/Store.antt =====
-- The message store (gossip/msg.go, MessageStore), over messages of any type. A method returns the new
-- state. `now` is the clock at the call; times are numbers and the clock does not run backwards, so
-- the age of a message is a truncated difference.
pub mod Adding
pub mod Expiring
pub mod Repeating
pub mod Keeping
use grpc_gossip.Prelude.{
  ℕ, ◌+◌, ◌-◌, ◌*◌, ℤ, sub_ℕ, List, [], ◌∷◌, ◌++◌, length, Bool, true, false, not, ◌&&◌, ◌||◌,
  Option, some, ◌>>=◌, ltb, if◌then◌else◌, any,
}
use grpc_gossip.Policy.{
  InvalidationResult, no_action, invalidates, invalidated, MessageReplacingPolicy,
}

-- `msg`
pub record Stored (M : Type 0) : Type 0 where
  pub item : M
  pub created : ℕ
  pub expired : Bool

pub record MessageStore (M : Type 0) : Type 0 where
  pub messages : List (Stored M)
  pub msg_ttl : ℕ
  pub expired_count : ℕ
  -- `doneCh` is closed
  pub stopped : Bool

module _ {M : Type 0} where
  -- `newMsgStore`, with the time to live of an expirable store
  unfoldable pub new_msg_store : ℕ → MessageStore M
  new_msg_store ttl = record { messages = []; msg_ttl = ttl; expired_count = 0; stopped = false }

  module _ (policy : MessageReplacingPolicy M) where
    -- The loop of `Add`: what stays, what the trigger is called on, and whether the message is new.
    unfoldable pub add_loop : M → List (Stored M) → Option (List (Stored M) × List M × Bool)
    add_loop m [] = some ([], [], true)
    add_loop m (s ∷ rest) = policy m s.item >>= λ r. elim r [
      | invalidated ↦ some (s ∷ rest, [], false)
      | invalidates ↦ add_loop m rest >>= λ (kept, dropped, new). some (kept, s.item ∷ dropped, new)
      | no_action ↦ add_loop m rest >>= λ (kept, dropped, new). some (s ∷ kept, dropped, new)
    ]

    -- The store, the messages given to `invTrigger`, and the result.
    unfoldable pub add : ℕ → M → MessageStore M → Option (MessageStore M × List M × Bool)
    add now m s = add_loop m s.messages >>= λ (kept, dropped, new).
        if new
        then some (
          record s { messages = kept ++ record { item = m; created = now; expired = false } ∷ [] },
          dropped,
          true,
        )
        else some (record s { messages = kept }, dropped, false)

    unfoldable pub check_valid_loop : M → List (Stored M) → Option Bool
    check_valid_loop m [] = some true
    check_valid_loop m (s ∷ rest) =
        policy m s.item >>= λ r. elim r [ invalidated ↦ some false | _ ↦ check_valid_loop m rest ]

    unfoldable pub check_valid : M → MessageStore M → Option Bool
    unfolding check_valid_loop
    check_valid m s = check_valid_loop m s.messages

  -- an int, so that a count that is too large shows
  pub size : MessageStore M → ℤ
  size s = sub_ℕ (length s.messages) s.expired_count

  unfoldable pub live_items : List (Stored M) → List M
  live_items [] = []
  live_items (s ∷ rest) =
      let items = live_items rest in if not s.expired then s.item ∷ items else items

  -- `Get`
  unfoldable pub get_items : MessageStore M → List M
  unfolding live_items
  get_items s = live_items s.messages

  abbrev pub is_purge_needed : (Stored M → Bool) → MessageStore M → Bool
  is_purge_needed should_be_purged s = any should_be_purged s.messages

  -- The loop of `Purge`: what stays, and what the trigger is called on.
  unfoldable pub purge_loop : (M → Bool) → List (Stored M) → List (Stored M) × List M
  purge_loop p [] = ([], [])
  purge_loop p (s ∷ rest) =
      let (kept, dropped) = purge_loop p rest in
      if not (p s.item) then (s ∷ kept, dropped) else (kept, s.item ∷ dropped)

  unfoldable pub purge : (M → Bool) → MessageStore M → MessageStore M × List M
  unfolding purge_loop
  purge p s =
      if not (is_purge_needed (λ x. p x.item) s)
      then (s, [])
      else (let (kept, dropped) = purge_loop p s.messages in
          (record s { messages = kept }, dropped))

  unfoldable pub stop : MessageStore M → MessageStore M
  stop s = record s { stopped = true }

  abbrev pub older_than : ℕ → ℕ → Stored M → Bool
  older_than now age s = ltb age (now - s.created)

  -- `hasMessageExpired`
  pub has_message_expired : ℕ → ℕ → Stored M → Bool
  has_message_expired now ttl s =
      if not s.expired && older_than now ttl s then true else older_than now (ttl * 2) s

  -- The loop of `expireMessages`: what stays, what the callback is called on, and the new count.
  pub expire_loop : ℕ → ℕ → List (Stored M) → ℕ → List (Stored M) × List M × ℕ
  expire_loop now ttl [] n = ([], [], n)
  expire_loop now ttl (s ∷ rest) n = elim s.expired [
    | false ↦ elim (older_than now ttl s) [
      | true ↦
          let (kept, called, n') = expire_loop now ttl rest (n + 1) in
          (record s { expired = true } ∷ kept, s.item ∷ called, n')
      | false ↦ let (kept, called, n') = expire_loop now ttl rest n in (s ∷ kept, called, n')
    ]
    | true ↦ elim (older_than now (ttl * 2) s) [
      | true ↦ expire_loop now ttl rest (n - 1)
      | false ↦ let (kept, called, n') = expire_loop now ttl rest n in (s ∷ kept, called, n')
    ]
  ]

  pub expire_messages : ℕ → MessageStore M → MessageStore M × List M
  unfolding expire_loop
  expire_messages now s =
      let (kept, called, n) = expire_loop now s.msg_ttl s.messages s.expired_count in
      (record s { messages = kept; expired_count = n }, called)

  -- One turn of `expirationRoutine`: the store and what the callback is called on.
  pub expiration_turn : ℕ → MessageStore M → MessageStore M × List M
  unfolding has_message_expired expire_messages
  expiration_turn now s =
      if s.stopped
      then (s, [])
      else if is_purge_needed (has_message_expired now s.msg_ttl) s
      then expire_messages now s
      else (s, [])
