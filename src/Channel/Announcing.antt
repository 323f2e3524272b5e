-- ===== src/Channel/Announcing.antt =====
-- What a channel announces of this peer (gossip/channel.go: updateProperties, UpdateLedgerHeight,
-- LeaveChannel).
use grpc_gossip.Prelude.{
  ℕ, ◌+◌, ◌≤◌, ◌<◌, ◌≡◌, refl, Str, Slice, string_of, str_eq_refl, bytes, Option-cases, inl, inr,
  Bool, true, Option, none, some, List, [], arith,
}
use grpc_gossip.Errors.{ok}
use grpc_gossip.Types.{Chaincode, Properties, StateInfo, PeerTime, GossipMessage}
use grpc_gossip.Message.{
  SignedGossipMessage, invalidation_policy, state_invalidation_policy, compare_timestamps,
}
use grpc_gossip.Signing.{Proto, seal}
use grpc_gossip.Crypto
use grpc_gossip.Channel.State.{Env, GossipChannel, generate_mac}
use grpc_gossip.Channel.Cache.{info_of, verify_state_info}
use grpc_gossip.Channel.Newest.{Agrees, view, key, is_newer, cache_add_newer, cache_add_refines}
use grpc_gossip.Channel.Configuring.{stored_at-key}
use grpc_gossip.Channel.Receiving.{add_state_info}
use grpc_gossip.Channel.Publishing.{
  properties_of, state_info_message, adapter_sign, update_properties, update_ledger_height,
  leave_channel,
}

-- the encoding of messages does not fail
abbrev pub Encodes : Proto → Type 0
Encodes proto = (m : GossipMessage) → (payload : Slice) × (proto.marshal m ≡ ok payload)

abbrev pub IsOlder : ℕ → ℕ → Option SignedGossipMessage → Type 0
IsOlder inc now none = Unit
IsOlder inc now (some m) =
    (si : StateInfo) × (t : PeerTime) × (info_of m ≡ some si)
    × (si.timestamp ≡ some t)
    × (t.inc_num ≡ inc)
    × (t.seq_num < now)

IsOlder-later :
    (inc now later : ℕ) (o : Option SignedGossipMessage)
    → now ≤ later
    → IsOlder inc now o
    → IsOlder inc later o
IsOlder-later inc now later none h older = tt
IsOlder-later inc now later (some m) h (si, t, info, stamped, same, before) =
    (si, t, info, stamped, same, omega arith)

-- what the channel knows of this peer is from before the clock
abbrev pub own_key : GossipChannel → Str
own_key gc = string_of gc.pki_id

abbrev pub Ticking : ℕ → GossipChannel → Type 0
Ticking now gc = IsOlder gc.inc_time now (view gc.state_info_msg_store (own_key gc))

-- The channel knows and will gossip this very state info of this peer.
pub record Announces (gc : GossipChannel) (props : Properties) (now : ℕ) : Type 0 where
  pub message : SignedGossipMessage
  pub latest : gc.state_info_msg ≡ some message
  pub cached : view gc.state_info_msg_store (own_key gc) ≡ some message
  pub says : properties_of message ≡ some props
  pub height : gc.ledger_height ≡ props.ledger_height
  pub due : gc.should_gossip_state_info ≡ true
  pub ticking : Ticking (now + 1) gc
  pub agrees : Agrees gc.state_info_msg_store

module _ (env : Env) (encodes : Encodes env.proto) where
  newer_than :
      (gc : GossipChannel) (m x : SignedGossipMessage) (now : ℕ) (si : StateInfo)
      → info_of m ≡ some si
      → si.pki_id ≡ gc.pki_id
      → si.timestamp ≡ some (record { inc_num = gc.inc_time; seq_num = now })
      → key x ≡ own_key gc
      → IsOlder gc.inc_time now (some x)
      → is_newer m (some x) ≡ some true
  unfolding invalidation_policy state_invalidation_policy compare_timestamps
  newer_than gc m x now si info own stamped same (sx, t, ix, tx, inc, before) =
      ground (arith, info, own, stamped, same, ix, tx, inc, before, str_eq_refl (own_key gc))

  abbrev own_message : ℕ → ℕ → List Chaincode → Bool → GossipChannel → SignedGossipMessage
  own_message now height chaincodes left gc =
      let m = state_info_message env.sha256 now height chaincodes left gc in
      let payload = (encodes m).0 in
      record {
        envelope = some (record {
          payload = payload;
          signature = bytes (string_of payload);
          secret_envelope = none;
        });
        message = m;
      }

  signs :
      (now height : ℕ) (chaincodes : List Chaincode) (left : Bool) (gc : GossipChannel)
      → adapter_sign env.proto (state_info_message env.sha256 now height chaincodes left gc)
        ≡ ok (own_message now height chaincodes left gc)
  unfolding adapter_sign seal Crypto.sign
  signs now height chaincodes left gc =
      rw (encodes (state_info_message env.sha256 now height chaincodes left gc)).1 refl

  own_newer :
      (now height : ℕ) (chaincodes : List Chaincode) (left : Bool) (gc : GossipChannel)
      → Agrees gc.state_info_msg_store
      → Ticking now gc
      → is_newer
          (own_message now height chaincodes left gc)
          (view gc.state_info_msg_store (own_key gc))
        ≡ some true
  unfolding state_info_message
  own_newer now height chaincodes left gc a older =
      elim (Option-cases (view gc.state_info_msg_store (own_key gc))) [
        | inl unknown ↦ rw unknown refl
        | inr (x, is_known) ↦
            let same : key x ≡ own_key gc =
              stored_at-key gc.state_info_msg_store.messages.messages (own_key gc) x
                (ground (arith, a.same (own_key gc), is_known)) in
            rw is_known (
              newer_than gc (own_message now height chaincodes left gc) x now _ refl refl refl same
                (rw is_known at older))
      ]

  still_ticking :
      (now height : ℕ) (chaincodes : List Chaincode) (left : Bool) (gc : GossipChannel)
      → IsOlder gc.inc_time (now + 1) (some (own_message now height chaincodes left gc))
  unfolding state_info_message
  still_ticking now height chaincodes left gc = (
    record {
      timestamp = some (record { inc_num = gc.inc_time; seq_num = now });
      pki_id = gc.pki_id;
      channel_mac = generate_mac env.sha256 gc.pki_id gc.chain_id;
      properties =
          some (record { ledger_height = height; left_channel = left; chaincodes = chaincodes });
    },
    record { inc_num = gc.inc_time; seq_num = now },
    refl,
    refl,
    refl,
    omega arith,
  )

  -- An update of the properties is known and due to be gossiped once it returns, and it does return.
  update_properties-Announces :
      (now height : ℕ) (chaincodes : List Chaincode) (left : Bool) (gc : GossipChannel)
      → Agrees gc.state_info_msg_store
      → Ticking now gc
      → (gc' : GossipChannel) × (update_properties env now height chaincodes left gc ≡ some gc')
        × Announces gc'
            (record { ledger_height = height; left_channel = left; chaincodes = chaincodes })
            now
        × (gc'.left_channel ≡ gc.left_channel)
  unfolding update_properties add_state_info verify_state_info state_info_message
  update_properties-Announces now height chaincodes left gc a older =
      let m = own_message now height chaincodes left gc in
      let c = gc.state_info_msg_store in
      let verify = verify_state_info env gc [] in
      let own : verify m ≡ some true = ground (arith, str_eq_refl (own_key gc)) in
      let newer = own_newer now height chaincodes left gc a older in
      let (c', added) = cache_add_newer verify now m c refl a newer own in
      let (a', _, seen) = cache_add_refines verify now m c c' true refl a added in
      let kept : view c' (own_key gc) ≡ some m =
        ground (arith, seen (own_key gc), str_eq_refl (own_key gc)) in
      (
        record gc {
          state_info_msg_store = c';
          ledger_height = height;
          state_info_msg = some m;
          should_gossip_state_info = true;
        },
        ground (arith, signs now height chaincodes left gc, added),
        record {
          message = m;
          latest = refl;
          cached = kept;
          says = refl;
          height = refl;
          due = refl;
          ticking = rw kept (still_ticking now height chaincodes left gc);
          agrees = a';
        },
        refl,
      )

  -- Leaving a channel is for good: this peer's state info says that it has left from then on, with the
  -- height and the chaincodes of before, and a later update of the ledger height changes the height
  -- only. Both return, if the clock moves on and messages can be encoded, and what is announced is what
  -- the channel itself knows of this peer.
  pub left_for_good :
      (now later height : ℕ) (gc : GossipChannel) (m : SignedGossipMessage) (props : Properties)
      → Agrees gc.state_info_msg_store
      → Ticking now gc
      → now < later
      → gc.state_info_msg ≡ some m
      → properties_of m ≡ some props
      → (gc1 : GossipChannel) × (gc2 : GossipChannel) × (leave_channel env now gc ≡ some gc1)
        × Announces gc1 (record props { left_channel = true }) now
        × (update_ledger_height env later height gc1 ≡ some gc2)
        × Announces gc2 (record props { left_channel = true; ledger_height = height }) later
        × (gc2.left_channel ≡ true)
  unfolding leave_channel update_ledger_height
  left_for_good now later height gc m props a older clock published says =
      let (gc1, left, first, flag) =
        update_properties-Announces now props.ledger_height props.chaincodes true
          (record gc { left_channel = true }) a older in
      let (gc2, updated, second, flag') =
        update_properties-Announces later height props.chaincodes true gc1 first.agrees (
          IsOlder-later gc1.inc_time (now + 1) later (view gc1.state_info_msg_store (own_key gc1))
            (omega arith) first.ticking) in
      (
        gc1,
        gc2,
        ground (arith, published, says, left),
        first,
        ground (arith, first.latest, first.says, updated),
        second,
        ground (arith, flag, flag'),
      )
