-- ===== src/Channel/Returning.antt =====
-- When HandleMessage of a channel returns, and when it panics (gossip/channel.go).
use grpc_gossip.Prelude.{
  ℕ, ◌≡◌, ◌≢◌, refl, Slice, string_of, str_eq_refl, bytes_equal, Bool, true, is_some, Option, none,
  some, List, [], ◌∷◌, arith, Option-cases, Bool-cases, inl, inr,
}
use grpc_gossip.Types.{data_msg, data_update, state_info, DataMessage, DataUpdate, StateInfo}
use grpc_gossip.Policy.{InvalidationResult}
use grpc_gossip.Message.{
  SignedGossipMessage, invalidation_policy, data_invalidation_policy, state_invalidation_policy,
}
use grpc_gossip.Store
use grpc_gossip.Store.{Stored, check_valid, check_valid_loop}
use grpc_gossip.Store.Adding.{add-check_valid}
use grpc_gossip.Store.Keeping.{AllStored, add-All}
use grpc_gossip.Channel.State.{Env, GossipChannel, Action}
use grpc_gossip.Channel.Cache.{info_of, cache_add}
use grpc_gossip.Channel.Blocks.{payload_of, add_block}
use grpc_gossip.Channel.Newest.{view, check_valid-is_newer}
use grpc_gossip.Channel.Receiving.{
  handle_data_msg, handle_state_info, add_state_info, is_admitted, handle_message,
}
use grpc_gossip.Channel.Guarding.{admitted-channel, handle_message-IsValid}
use grpc_gossip.Channel.Keeping.{IsBlockOf, IsValid, remove_blocks-Valid}

-- the comparison of two blocks gives a result
blocks_compare :
    (size : ℕ) (m x : SignedGossipMessage)
    → is_some (payload_of m) ≡ true
    → is_some (payload_of x) ≡ true
    → (r : InvalidationResult) × (invalidation_policy size m x ≡ some r)
unfolding invalidation_policy data_invalidation_policy
blocks_compare size m x a b = elim (Option-cases (invalidation_policy size m x)) [
  | inl panic ↦ absurd (ground (arith, panic))
  | inr found ↦ found
]

blocks_checked :
    (size : ℕ) (chain_id : Slice) (m : SignedGossipMessage) (xs : List (Stored SignedGossipMessage))
    → is_some (payload_of m) ≡ true
    → AllStored (IsBlockOf chain_id) xs
    → check_valid_loop (invalidation_policy size) m xs ≢ none
unfolding check_valid_loop
blocks_checked size chain_id m [] a h = ground arith
blocks_checked size chain_id m (x ∷ xs) a h =
    let (r, compared) = blocks_compare size m x.item a h.0.0 in
    ground (arith, compared, blocks_checked size chain_id m xs a h.1)

-- The store's CheckValid says yes to an update of the puller, whatever the store holds: the check in the
-- loop over its blocks turns nothing away.
pub update_always_valid :
    (size : ℕ) (m : SignedGossipMessage) (u : DataUpdate) (xs : List (Stored SignedGossipMessage))
    → m.message.content ≡ data_update u
    → check_valid_loop (invalidation_policy size) m xs ≡ some true
unfolding check_valid_loop invalidation_policy
update_always_valid size m u [] is = refl
update_always_valid size m u (x ∷ xs) is = ground (arith, is, update_always_valid size m u xs is)

module _ (env : Env) (now : ℕ) where
  add_block_returns :
      (m : SignedGossipMessage) (gc : GossipChannel)
      → IsBlockOf gc.chain_id m
      → IsValid env gc
      → (gc' : GossipChannel) × (added : Bool) × (add_block now m gc ≡ some (gc', added))
  unfolding add_block check_valid
  add_block_returns m gc b v =
      let policy = invalidation_policy gc.max_block_count in
      elim (Option-cases (Store.add policy now m gc.block_msg_store)) [
        | inl panic ↦ absurd (
            ground (
              arith,
              panic,
              add-check_valid policy now m gc.block_msg_store,
              blocks_checked gc.max_block_count gc.chain_id m gc.block_msg_store.messages b.0
                  v.blocks,
            ))
        | inr ((s, dropped, new), done) ↦
            let (kept, gone) =
              add-All (IsBlockOf gc.chain_id) policy now m gc.block_msg_store s dropped new b
                v.blocks done in
            let (p, removed, engine) =
              remove_blocks-Valid dropped gc.blocks_puller gc.chain_id gone v.engine in
            (
              record gc { block_msg_store = s; blocks_puller = p },
              new,
              ground (arith, done, removed),
            )
      ]

  abbrev Returns : Option (GossipChannel × List Action) → Type 0
  Returns o = is_some o ≡ true

  data_msg-Returns :
      (sender : Slice) (m : SignedGossipMessage) (gc : GossipChannel)
      → bytes_equal m.message.channel gc.chain_id ≡ true
      → IsValid env gc
      → Returns (handle_data_msg env now sender m gc)
  unfolding handle_data_msg check_valid
  data_msg-Returns sender m gc ours v = elim (Bool-cases (is_some (payload_of m))) [
    | inr bare ↦ rw bare refl
    | inl block ↦
        let (gc', added, done) = add_block_returns m gc (block, ours) v in
        ground (
          arith,
          block,
          done,
          blocks_checked gc.max_block_count gc.chain_id m gc.block_msg_store.messages block
              v.blocks,
        )
  ]

  -- A block never makes a channel in order panic: HandleMessage returns, whoever sends it, whatever its
  -- channel, number and payload, also where it has none.
  pub block_returns :
      (sender : Slice) (m : SignedGossipMessage) (d : DataMessage) (gc : GossipChannel)
      → m.message.content ≡ data_msg d
      → IsValid env gc
      → (gc' : GossipChannel) × (actions : List Action) × (handle_message env now
            (record { signed = some m; sender = sender })
            gc
          ≡ some (gc', actions))
        × IsValid env gc'
  unfolding handle_message
  block_returns sender m d gc is_data v = elim (Bool-cases (is_admitted env gc sender m)) [
    | inr turned_away ↦ (gc, [], ground (arith, turned_away), v)
    | inl admitted ↦ elim (Option-cases (handle_data_msg env now sender m gc)) [
      | inl panic ↦ absurd (
          ground (
            arith,
            panic,
            data_msg-Returns sender m gc (admitted-channel env now gc sender m d is_data admitted)
                v,
          ))
      | inr ((gc', actions), done) ↦
          let returned : handle_message env now (record { signed = some m; sender = sender }) gc
              ≡ some (gc', actions) =
            ground (arith, admitted, is_data, done) in
          (
            gc',
            actions,
            returned,
            handle_message-IsValid env now (record { signed = some m; sender = sender }) gc gc'
                actions v returned,
          )
    ]
  ]

  untimed :
      (m x : SignedGossipMessage) (si sx : StateInfo)
      → info_of m ≡ some si
      → info_of x ≡ some sx
      → si.timestamp ≡ none
      → string_of si.pki_id ≡ string_of sx.pki_id
      → invalidation_policy 0 m x ≡ none
  unfolding invalidation_policy state_invalidation_policy
  untimed m x si sx info known bare same =
      ground (arith, info, known, bare, same, str_eq_refl (string_of sx.pki_id))

  -- A state info without a timestamp makes HandleMessage panic, if it is admitted and another of its
  -- peer is known: the comparison of the two follows the timestamp though it is nil.
  pub untimed_state_info_panics :
      (sender : Slice) (m x : SignedGossipMessage) (si sx : StateInfo) (gc : GossipChannel)
      → IsValid env gc
      → is_admitted env gc sender m ≡ true
      → m.message.content ≡ state_info si
      → si.timestamp ≡ none
      → view gc.state_info_msg_store (string_of si.pki_id) ≡ some x
      → info_of x ≡ some sx
      → string_of si.pki_id ≡ string_of sx.pki_id
      → handle_message env now (record { signed = some m; sender = sender }) gc ≡ none
  unfolding handle_message handle_state_info add_state_info cache_add check_valid
  untimed_state_info_panics sender m x si sx gc v admitted is bare known info same =
      let store = gc.state_info_msg_store in
      let compared = untimed m x si sx (ground (arith, is)) info bare same in
      let stuck : check_valid_loop (invalidation_policy 0) m store.messages.messages ≡ none =
        ground (
          arith,
          check_valid-is_newer m store.messages.messages (ground (arith, is)) v.agrees.infos
              v.agrees.apart,
          v.agrees.same (string_of si.pki_id),
          known,
          compared,
          is,
        ) in
      ground (arith, admitted, is, stuck)
