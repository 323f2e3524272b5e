-- ===== src/Channel/Keeping.antt =====
-- The invariant of a channel (gossip/channel.go), and what keeps it.
use grpc_gossip.Prelude.{
  ℕ, ◌≡◌, refl, Str, Slice, bytes_equal, Bool, true, false, is_some, some, List, [], ◌∷◌, All, inl,
  inr, arith, Option-cases, ◌||◌,
}
use mathlib.Core.Path.{subst}
use grpc_gossip.Message.{SignedGossipMessage, invalidation_policy}
use grpc_gossip.Store
use grpc_gossip.Store.{Stored, MessageStore, check_valid, check_valid_loop}
use grpc_gossip.Store.Keeping.{AllStored, add-All}
use grpc_gossip.Pull.Safety
use grpc_gossip.Pull.Safety.{remove_runes-same, add-IsString}
use grpc_gossip.Pull.Mediator
use grpc_gossip.Pull.Mediator.{PullMediator}
use grpc_gossip.Channel.State.{Env, GossipChannel, StateInfoCache}
use grpc_gossip.Channel.Cache.{info_of, has_org, state_pki_id, cache_add, verify_state_info}
use grpc_gossip.Channel.Newest.{Agrees, cache_add_refines}
use grpc_gossip.Channel.Decimal.{decimal}
use grpc_gossip.Channel.Blocks.{payload_of, remove_blocks, add_block}
use grpc_gossip.Channel.Receiving.{add_state_info}

-- a block with a payload, of this channel
abbrev pub IsBlockOf : Slice → SignedGossipMessage → Type 0
IsBlockOf chain_id m =
    (is_some (payload_of m) ≡ true) × (bytes_equal m.message.channel chain_id ≡ true)

module _ (env : Env) where
  -- the state info is this peer's own, or of a peer whose organization is in the channel
  abbrev pub IsMember : GossipChannel → SignedGossipMessage → Type 0
  IsMember gc m =
      (bytes_equal gc.pki_id (state_pki_id m) || has_org gc.orgs (env.orgs.org_of (state_pki_id m)))
      ≡ true

  -- The cache is in order and knows members of the channel only, the block store holds blocks of the
  -- channel only, and the puller is well formed.
  pub record IsValid (gc : GossipChannel) : Type 0 where
    pub agrees : Agrees gc.state_info_msg_store
    pub members : AllStored (IsMember gc) gc.state_info_msg_store.messages.messages
    pub blocks : AllStored (IsBlockOf gc.chain_id) gc.block_msg_store.messages
    pub engine : Safety.IsValid gc.blocks_puller.engine

  verified-IsMember :
      (gc : GossipChannel) (m : SignedGossipMessage)
      → verify_state_info env gc [] m ≡ some true
      → IsMember gc m
  unfolding verify_state_info
  verified-IsMember gc m h = ground arith

remove-engine :
    (p : PullMediator) (digest : Str)
    → Safety.IsValid p.engine
    → Safety.IsValid (Mediator.remove digest p).engine
unfolding Mediator.remove
remove-engine p digest v = record {
  strings = rw (remove_runes-same digest p.engine.state v.strings) v.strings;
  owned = v.owned;
}

-- The triggers do not panic at blocks.
pub remove_blocks-Valid :
    (dropped : List SignedGossipMessage) (p : PullMediator) (chain_id : Slice)
    → All (IsBlockOf chain_id) dropped
    → Safety.IsValid p.engine
    → (p' : PullMediator) × (remove_blocks dropped p ≡ some p') × Safety.IsValid p'.engine
unfolding remove_blocks
remove_blocks-Valid [] p chain_id h v = (p, refl, v)
remove_blocks-Valid (m ∷ dropped) p chain_id h v = elim (Option-cases (payload_of m)) [
  | inl bare ↦ absurd (ground (arith, bare, h.0.0))
  | inr (b, payload) ↦
      let (p', done, v') =
        remove_blocks-Valid dropped (Mediator.remove (decimal b.seq_num) p) chain_id h.1
          (remove-engine p (decimal b.seq_num) v) in
      (p', ground (arith, payload, done), v')
]

module _ (env : Env) (now : ℕ) (m : SignedGossipMessage) (gc gc' : GossipChannel)
    (added : Bool) where
  pub add_block-IsValid :
      IsBlockOf gc.chain_id m
      → IsValid env gc
      → add_block now m gc ≡ some (gc', added)
      → IsValid env gc' × (gc'.chain_id ≡ gc.chain_id)
  unfolding add_block
  add_block-IsValid b v e =
      elim (Option-cases
        (Store.add (invalidation_policy gc.max_block_count) now m gc.block_msg_store)) [
          | inl panic ↦ absurd (ground (arith, panic, e))
          | inr ((s, dropped, new), done) ↦
              let (kept, gone) =
                add-All (IsBlockOf gc.chain_id) (invalidation_policy gc.max_block_count) now m
                  gc.block_msg_store s dropped new b v.blocks done in
              let (p, removed, engine) =
                remove_blocks-Valid dropped gc.blocks_puller gc.chain_id gone v.engine in
              let is : record gc { block_msg_store = s; blocks_puller = p } ≡ gc' =
                ground (arith, done, removed, e) in
              subst (λ (g : GossipChannel). IsValid env g × (g.chain_id ≡ gc.chain_id)) is
                (
                  record { agrees = v.agrees; members = v.members; blocks = kept; engine = engine },
                  refl,
                )
        ]

  cache_add-members :
      (c : StateInfoCache) (new : Bool)
      → IsValid env gc
      → cache_add (verify_state_info env gc []) now m gc.state_info_msg_store ≡ some (c, new)
      → AllStored (IsMember env gc) c.messages.messages
  unfolding cache_add
  cache_add-members c new v e =
      let old = gc.state_info_msg_store in
      let stayed : old ≡ c → AllStored (IsMember env gc) c.messages.messages = λ same.
        subst (λ (d : StateInfoCache). AllStored (IsMember env gc) d.messages.messages) same
          v.members in
      elim (Option-cases (check_valid (invalidation_policy 0) m old.messages)) [
        | inl panic ↦ absurd (ground (arith, panic, e))
        | inr (false, stale) ↦ stayed (ground (arith, stale, e))
        | inr (true, valid) ↦ elim (Option-cases (verify_state_info env gc [] m)) [
          | inl panic ↦ absurd (ground (arith, valid, panic, e))
          | inr (false, bad) ↦ stayed (ground (arith, valid, bad, e))
          | inr (true, good) ↦
              elim (Option-cases (Store.add (invalidation_policy 0) now m old.messages)) [
                | inl panic ↦ absurd (ground (arith, valid, good, panic, e))
                | inr ((s, dropped, new'), done) ↦
                    let kept =
                      add-All (IsMember env gc) (invalidation_policy 0) now m old.messages s dropped
                        new' (verified-IsMember env gc m good) v.members done in
                    let same : s ≡ c.messages = ground (arith, valid, good, done, e) in
                    subst
                      (λ (d : MessageStore SignedGossipMessage).
                        AllStored (IsMember env gc) d.messages)
                      same kept.0
              ]
        ]
      ]

  pub add_state_info-IsValid :
      is_some (info_of m) ≡ true
      → IsValid env gc
      → add_state_info env now m gc ≡ some (gc', added)
      → IsValid env gc' × (gc'.chain_id ≡ gc.chain_id)
  unfolding add_state_info
  add_state_info-IsValid info v e =
      elim (Option-cases (cache_add (verify_state_info env gc []) now m gc.state_info_msg_store)) [
        | inl panic ↦ absurd (ground (arith, panic, e))
        | inr ((c, new), done) ↦
            let (a, _, _) =
              cache_add_refines (verify_state_info env gc []) now m gc.state_info_msg_store c new
                info v.agrees done in
            let members = cache_add-members c new v done in
            let is : record gc { state_info_msg_store = c } ≡ gc' = ground (arith, done, e) in
            subst (λ (g : GossipChannel). IsValid env g × (g.chain_id ≡ gc.chain_id)) is
              (record { agrees = a; members = members; blocks = v.blocks; engine = v.engine }, refl)
      ]
