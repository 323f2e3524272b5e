-- ===== src/Channel/Guarding.antt =====
-- A channel stays in order whatever its peers send (gossip/channel.go, HandleMessage).
use grpc_gossip.Prelude.{
  ℕ, ◌≡◌, refl, Slice, bytes_equal, true, not, ◌&&◌, is_some, Option, none, some, List, [], ◌∷◌,
  Holds, Holds-some, Holds-bind, choose, arith, Option-cases, Bool-cases, inl, inr,
}
use grpc_gossip.Errors.{Result-cases}
use grpc_gossip.Types.{
  Envelope, Content, data_msg, data_update, state_info, state_snapshot, state_info_pull_req,
  leadership_msg, DataMessage, block_msg,
}
use grpc_gossip.Message.{SignedGossipMessage, invalidation_policy, is_pull_msg, get_pull_msg_type}
use grpc_gossip.Store
use grpc_gossip.Store.{check_valid}
use grpc_gossip.Signing.{to_gossip_message}
use grpc_gossip.Pull.Safety.{add-IsString}
use grpc_gossip.Pull.Mediator
use grpc_gossip.Pull.Mediator.{Received, pull_type_eq}
use grpc_gossip.Pull.Histories.{handle_message-Valid}
use grpc_gossip.Channel.State.{Env, GossipChannel, Action}
use grpc_gossip.Discovery.State.{get_msg_by_id}
use grpc_gossip.Channel.Cache.{info_of}
use grpc_gossip.Channel.Members.{eligible_and_same_org}
use grpc_gossip.Channel.Blocks.{payload_of, puller, verify_block_msg, add_block, offer_block}
use grpc_gossip.Channel.Receiving.{
  verify_msg, add_state_info, is_acceptable, handle_state_info_snapshot, handle_data_msg,
  handle_state_info, filter_update, to_puller, handle_pull_msg, handle_leadership_msg,
  handle_content, is_admitted, handle_signed, handle_message, bare_peer, create_state_info_snapshot,
  update_filtered, pull_content,
}
use grpc_gossip.Channel.Keeping.{IsValid, add_block-IsValid, add_state_info-IsValid}

module _ (env : Env) (now : ℕ) where
  abbrev Kept : GossipChannel × List Action → Type 0
  Kept (gc, actions) = IsValid env gc

  snapshot-IsValid :
      (elements : List Envelope) (gc : GossipChannel)
      → IsValid env gc
      → Holds (IsValid env) (handle_state_info_snapshot env now elements gc)
  unfolding handle_state_info_snapshot
  snapshot-IsValid [] gc v = v
  snapshot-IsValid (e ∷ elements) gc v = elim (Result-cases (to_gossip_message env.proto e)) [
    | inr (x, bad) ↦ rw (bad, handle_state_info_snapshot) v
    | inl (m, parsed) ↦ elim (Option-cases (info_of m)) [
      | inl no_info ↦ rw (parsed, handle_state_info_snapshot) (rw no_info v)
      | inr (si, info) ↦
          rw (parsed, handle_state_info_snapshot)
            (rw info (
              Holds-bind (IsValid env) (is_acceptable env gc m si) _ (λ acceptable _.
                choose (Holds (IsValid env)) (not acceptable) (some gc) _ v (
                  choose (Holds (IsValid env)) (not (is_some (env.orgs.lookup si.pki_id)))
                    (handle_state_info_snapshot env now elements gc) _
                    (snapshot-IsValid elements gc v)
                    (Holds-bind (IsValid env) (add_state_info env now m gc) _ (λ (gc', added) done.
                      snapshot-IsValid elements gc'
                        (add_state_info-IsValid env now m gc gc' added (ground (arith, info)) v
                          done).0))))))
    ]
  ]

  offer_block-IsValid :
      (m : SignedGossipMessage) (gc : GossipChannel)
      → IsValid env gc
      → IsValid env (offer_block m gc)
  unfolding Mediator.add
  offer_block-IsValid m gc v = record {
    agrees = v.agrees;
    members = v.members;
    blocks = v.blocks;
    engine = record {
      strings = add-IsString gc.blocks_puller.engine.state _ v.engine.strings;
      owned = v.engine.owned;
    };
  }

  data_msg-IsValid :
      (sender : Slice) (m : SignedGossipMessage) (gc : GossipChannel)
      → bytes_equal m.message.channel gc.chain_id ≡ true
      → IsValid env gc
      → Holds Kept (handle_data_msg env now sender m gc)
  unfolding handle_data_msg
  data_msg-IsValid sender m gc ours v = elim (Bool-cases (is_some (payload_of m))) [
    | inr bare ↦ rw bare v
    | inl block ↦ rw block (
        Holds-bind Kept (check_valid (invalidation_policy gc.max_block_count) m gc.block_msg_store)
          _
          (λ valid _. choose (Holds Kept) (not valid) (some (gc, [])) _ v (
            choose (Holds Kept) (not (verify_block_msg m)) (some (gc, [])) _ v (
              Holds-bind Kept (add_block now m gc) _ (λ (gc', added) done.
                let v' = (add_block-IsValid env now m gc gc' added (block, ours) v done).0 in
                choose (IsValid env) added (offer_block m gc') gc' (offer_block-IsValid m gc' v')
                  v')))))
  ]

  state_info-IsValid :
      (sender : Slice) (m : SignedGossipMessage) (gc : GossipChannel)
      → is_some (info_of m) ≡ true
      → IsValid env gc
      → Holds Kept (handle_state_info env now sender m gc)
  unfolding handle_state_info
  state_info-IsValid sender m gc info v =
      Holds-bind Kept (add_state_info env now m gc) _
        (λ (gc', added) done. (add_state_info-IsValid env now m gc gc' added info v done).0)

  abbrev KeptItems : GossipChannel × Option (List Envelope) → Type 0
  KeptItems (gc, kept) = IsValid env gc

  update-IsValid :
      (m : SignedGossipMessage) (items : List Envelope) (gc : GossipChannel)
      → IsValid env gc
      → Holds KeptItems (filter_update env now m items gc)
  unfolding filter_update
  update-IsValid m [] gc v = v
  update-IsValid m (item ∷ items) gc v = elim (Result-cases (to_gossip_message env.proto item)) [
    | inr (x, bad) ↦ rw (bad, filter_update) v
    | inl (b, parsed) ↦ elim (Bool-cases (bytes_equal b.message.channel gc.chain_id)) [
      | inr foreign ↦ rw (parsed, filter_update) (rw foreign v)
      | inl ours ↦
          rw (parsed, filter_update)
            (rw ours (
              Holds-bind KeptItems
                (check_valid (invalidation_policy gc.max_block_count) m gc.block_msg_store) _
                (λ valid _.
                  choose (Holds KeptItems) (not valid) (some (gc, none)) _ v
                    (elim (Bool-cases (verify_block_msg b)) [
                      | inr bad ↦ rw bad v
                      | inl good ↦ rw good (
                          Holds-bind KeptItems (add_block now b gc) _ (λ (gc', added) done.
                            let v' =
                              (add_block-IsValid env now b gc gc' added
                                (verified-payload b good, ours) v done).0 in
                            Holds-bind KeptItems (filter_update env now m items gc') _
                              (λ (gc'', rest) then'.
                                Holds-some KeptItems _ (gc'', rest) (update-IsValid m items gc' v')
                                  then')))
                    ]))))
    ]
  ]
    where
      verified-payload :
          (b : SignedGossipMessage) → verify_block_msg b ≡ true → is_some (payload_of b) ≡ true
      verified-payload b h = unfold verify_block_msg in ground arith

  to_puller-IsValid :
      (sender : Slice) (m : SignedGossipMessage) (gc : GossipChannel)
      → IsValid env gc
      → Holds Kept (to_puller env sender m gc)
  to_puller-IsValid sender m gc v =
      let (p, actions, done, engine) =
        handle_message-Valid (record { signed = some m; sender = sender }) (puller gc) v.engine in
      rw done
        (record { agrees = v.agrees; members = v.members; blocks = v.blocks; engine = engine })

  pull_content-IsValid :
      (sender : Slice) (m : SignedGossipMessage) (gc : GossipChannel) (c : Content)
      → IsValid env gc
      → Holds Kept (pull_content env now sender m gc c)
  pull_content-IsValid sender m gc (data_update u) v =
      Holds-bind Kept (filter_update env now m u.envelopes gc) _ (λ (gc', kept) done.
        filtered gc' kept
          (Holds-some KeptItems _ (gc', kept) (update-IsValid m u.envelopes gc v) done))
    where
      filtered :
          (gc' : GossipChannel) (kept : Option (List Envelope))
          → IsValid env gc'
          → Holds Kept (update_filtered env sender m u (gc', kept))
      filtered gc' none v' = v'
      filtered gc' (some items) v' = to_puller-IsValid sender _ gc' v'
  pull_content-IsValid sender m gc c v = to_puller-IsValid sender m gc v

  pull_msg-IsValid :
      (sender : Slice) (m : SignedGossipMessage) (gc : GossipChannel)
      → IsValid env gc
      → Holds Kept (handle_pull_msg env now sender m gc)
  unfolding handle_pull_msg
  pull_msg-IsValid sender m gc v = choose (Holds Kept) gc.left_channel (some (gc, [])) _ v (
      choose (Holds Kept) (not (is_some (get_msg_by_id gc.state_info_msg_store.membership sender)))
        (some (gc, [])) _ v
        (choose (Holds Kept) (not (eligible_and_same_org env gc (bare_peer sender))) (some (gc, []))
          (pull_content env now sender m gc m.message.content) v
          (pull_content-IsValid sender m gc m.message.content v)))

  leadership-IsValid :
      (m : SignedGossipMessage) (gc : GossipChannel)
      → IsValid env gc
      → Holds Kept (handle_leadership_msg env now m gc)
  unfolding handle_leadership_msg
  leadership-IsValid m gc v =
      Holds-bind Kept (Store.add (invalidation_policy 0) now m gc.leader_msg_store) _ (λ r _.
        record { agrees = v.agrees; members = v.members; blocks = v.blocks; engine = v.engine })

  -- the channel of a message whose content names none by a MAC
  pub admitted-channel :
      (gc : GossipChannel) (sender : Slice) (m : SignedGossipMessage) (d : DataMessage)
      → m.message.content ≡ data_msg d
      → is_admitted env gc sender m ≡ true
      → bytes_equal m.message.channel gc.chain_id ≡ true
  unfolding verify_msg
  admitted-channel gc sender m d is_data h = ground (arith, is_data)

  content-IsValid :
      (sender : Slice) (m : SignedGossipMessage) (gc : GossipChannel) (c : Content)
      → m.message.content ≡ c
      → is_admitted env gc sender m ≡ true
      → IsValid env gc
      → Holds Kept (handle_content env now sender m gc c)
  content-IsValid sender m gc (state_info_pull_req mac) is h v =
      Holds-bind Kept (create_state_info_snapshot env gc (env.orgs.org_of sender)) _
        (λ elements _. v)
  content-IsValid sender m gc (state_snapshot s) is h v =
      Holds-bind Kept (handle_state_info_snapshot env now s.elements gc) _
        (λ gc' done. Holds-some (IsValid env) _ gc' (snapshot-IsValid s.elements gc v) done)
  content-IsValid sender m gc (data_msg d) is h v =
      data_msg-IsValid sender m gc (admitted-channel gc sender m d is h) v
  content-IsValid sender m gc (state_info si) is h v =
      state_info-IsValid sender m gc (ground (arith, is)) v
  content-IsValid sender m gc (leadership_msg l) is h v = leadership-IsValid m gc v
  content-IsValid sender m gc c is h v =
      choose (Holds Kept) (is_pull_msg c && pull_type_eq (get_pull_msg_type c) block_msg)
        (handle_pull_msg env now sender m gc) (some (gc, [])) (pull_msg-IsValid sender m gc v) v

  signed-IsValid :
      (sender : Slice) (s : Option SignedGossipMessage) (gc : GossipChannel)
      → IsValid env gc
      → Holds Kept (handle_signed env now sender s gc)
  signed-IsValid sender none gc v = v
  signed-IsValid sender (some m) gc v = elim (Bool-cases (is_admitted env gc sender m)) [
    | inl admitted ↦ rw admitted (content-IsValid sender m gc m.message.content refl admitted v)
    | inr turned_away ↦ rw turned_away v
  ]

  -- Whatever message a peer sends, the channel stays in order when HandleMessage returns: the two copies
  -- of the state infos agree, all of them are this peer's own or of peers whose organization is in the
  -- channel, and every stored block has a payload and is of this channel.
  pub handle_message-IsValid :
      (r : Received) (gc gc' : GossipChannel) (actions : List Action)
      → IsValid env gc
      → handle_message env now r gc ≡ some (gc', actions)
      → IsValid env gc'
  unfolding handle_message
  handle_message-IsValid r gc gc' actions v e =
      Holds-some Kept (handle_signed env now r.sender r.signed gc) (gc', actions)
        (signed-IsValid r.sender r.signed gc v) e
