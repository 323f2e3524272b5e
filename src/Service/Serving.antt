-- ===== src/Service/Serving.antt =====
-- The service keeps its channels in order, and a message reaches its channel after its checks
-- (gossip/gossip.go, handleMessage).
use grpc_gossip.Prelude.{
  ℕ, ◌≡◌, sym, Bool, true, false, ◌>>=◌, refl, map, put, Bool-cases, if◌then◌else◌, Str, Slice,
  bytes, string_of, bytes_equal, not, ◌&&◌, is_some, Option, none, some, List, [], ◌∷◌, Map, get,
  string_eq, All, All-get, All-put, Holds, Holds-some, Holds-bind, choose, Option-cases, inl, inr,
}
use grpc_gossip.Types.{get_leadership_msg, get_state_info, get_state_info_pull_req}
use grpc_gossip.Message.{SignedGossipMessage, is_channel_restricted}
use grpc_gossip.Pull.Mediator.{Received}
use grpc_gossip.Channel.State.{Env, GossipChannel, generate_mac}
use grpc_gossip.Channel.State
use grpc_gossip.Channel.Receiving
use grpc_gossip.Channel.Joining.{
  channel_with_mac, get_gossip_channel_by_chain_id, lookup_channel_for_gossip_msg,
  lookup_channel_for_msg, ChannelState,
}
use grpc_gossip.Channel.Keeping.{IsValid}
use grpc_gossip.Channel.Guarding.{handle_message-IsValid}
use grpc_gossip.Service.Dispatching.{
  GossipService, Action, validate_msg, leader_valid, in_its_channel, handle_restricted,
  handle_unrestricted, handle_signed, handle_message, without_channel, in_channel, with_channel,
}
use grpc_gossip.Service.Validating.{validate_leadership_message}
use grpc_gossip.Identity.{IdMapper}
use grpc_gossip.Service.Checking.{is_valid, is_leader_valid, checked, validated}
use grpc_gossip.Service.Untouched.{Same, without-Same, other-Same}

module _ (P : GossipChannel → Type 0) where
  abbrev InAll : Map Str GossipChannel → Type 0
  InAll = All (λ e. P e.1)

  with_mac-Holds :
      (sha256 : Str → Str) (mac pki_id : Slice) (channels : Map Str GossipChannel)
      → InAll channels
      → Holds P (channel_with_mac sha256 mac pki_id channels)
  unfolding channel_with_mac
  with_mac-Holds sha256 mac pki_id [] h = tt
  with_mac-Holds sha256 mac pki_id ((name, gc) ∷ channels) h =
      choose (Holds P) (bytes_equal (generate_mac sha256 pki_id (bytes name)) mac) (some gc)
        (channel_with_mac sha256 mac pki_id channels) h.0
        (with_mac-Holds sha256 mac pki_id channels h.1)

  get-Holds :
      (channels : Map Str GossipChannel) (k : Str) → InAll channels → Holds P (get channels k)
  get-Holds channels k h = elim (Option-cases (get channels k)) [
    | inl absent ↦ rw absent tt
    | inr (gc, found) ↦ rw found (All-get P channels k gc h found)
  ]

  -- what all channels have, the channel of a message has
  lookup-Holds :
      (sha256 : Str → Str) (cs : ChannelState) (sender : Slice) (m : SignedGossipMessage)
      → InAll cs.channels
      → Holds P (lookup_channel_for_msg sha256 cs sender m.message)
  unfolding get_gossip_channel_by_chain_id lookup_channel_for_msg
  lookup-Holds sha256 cs sender m h =
      elim (Option-cases (get_state_info_pull_req m.message.content)) [
        | inr (mac, req) ↦
            rw (lookup_channel_for_msg, req) (with_mac-Holds sha256 mac sender cs.channels h)
        | inl no_req ↦ elim (Option-cases (get_state_info m.message.content)) [
          | inr (si, info) ↦
              rw (lookup_channel_for_msg, no_req, lookup_channel_for_gossip_msg, info)
                (with_mac-Holds sha256 si.channel_mac si.pki_id cs.channels h)
          | inl no_info ↦
              rw (lookup_channel_for_msg, no_req, lookup_channel_for_gossip_msg, no_info)
                (choose (Holds P) cs.stopping none (get cs.channels (string_of m.message.channel))
                  tt (get-Holds cs.channels (string_of m.message.channel) h))
        ]
      ]

module _ (env : Env) (times : Map Str ℕ) (now : ℕ) where
  -- the message that is for a joined channel, and the channel
  abbrev pub accepting :
      Slice
      → Option SignedGossipMessage
      → GossipService
      → Option (SignedGossipMessage × GossipChannel)
  accepting sender none g = none
  accepting sender (some m) g =
      if not g.stop_flag
        && is_channel_restricted m.message
        && is_valid env m
        && is_leader_valid env m
      then (lookup_channel_for_msg env.sha256 g.chan_state sender m.message >>= λ gc. some (m, gc))
      else none

  -- the channel has handled the message, and is the only thing of the channels that has changed; or
  -- none of them has
  abbrev pub Served :
      Slice
      → GossipService
      → Option (SignedGossipMessage × GossipChannel)
      → GossipService × List Action
      → Type 0
  Served sender g none (g', actions) = g'.chan_state ≡ g.chan_state
  Served sender g (some (m, gc)) (g', actions) =
      (gc' : GossipChannel) × (done : List State.Action) × (Receiving.handle_message env now
          (record { signed = some m; sender = sender }) gc
        ≡ some (gc', done))
      × (g'.chan_state ≡ record g.chan_state {
        channels = put g.chan_state.channels (string_of gc'.chain_id) gc';
      })
      × (actions ≡ map in_channel done)

  abbrev Accepted : Type 0
  Accepted = Option (SignedGossipMessage × GossipChannel)

  nothing_else : (b : Bool) (x : Accepted) → x ≡ none → (if b then x else none) ≡ none
  nothing_else true x e = e
  nothing_else false x e = refl

  unserved :
      (sender : Slice) (s : Option SignedGossipMessage) (g : GossipService)
      (r : GossipService × List Action)
      → accepting sender s g ≡ none
      → Same env times now g r
      → Served sender g (accepting sender s g) r
  unserved sender s g r none_accepted h = rw none_accepted h

  same-Served :
      (sender : Slice) (s : Option SignedGossipMessage) (g : GossipService)
      (x : Option (GossipService × List Action))
      → accepting sender s g ≡ none
      → Holds (Same env times now g) x
      → Holds (Served sender g (accepting sender s g)) x
  same-Served sender s g x none_accepted h = rw none_accepted h

  received :
      (sender : Slice) (m : SignedGossipMessage) (g : GossipService) (is : IdMapper)
      (gc gc' : GossipChannel) (actions : List State.Action)
      → accepting sender (some m) g ≡ some (m, gc)
      → Receiving.handle_message env now (record { signed = some m; sender = sender }) gc
        ≡ some (gc', actions)
      → Served sender g
          (accepting sender (some m) g)
          (with_channel env times now (record g { id_mapper = is }) gc', map in_channel actions)
  received sender m g is gc gc' actions accepted done = rw accepted (gc', actions, done, refl, refl)

  channel-Served :
      (sender : Slice) (m : SignedGossipMessage) (g : GossipService) (is : IdMapper)
      (gc : GossipChannel) (valid : Bool)
      → g.stop_flag ≡ false
      → is_channel_restricted m.message ≡ true
      → is_valid env m ≡ true
      → lookup_channel_for_msg env.sha256 g.chan_state sender m.message ≡ some gc
      → valid ≡ is_leader_valid env m
      → Holds (Served sender g (accepting sender (some m) g)) (
          if not valid
          then some (record g { id_mapper = is }, [])
          else (Receiving.handle_message env now (record { signed = some m; sender = sender }) gc
              >>= λ (gc', actions). some (
                with_channel env times now (record g { id_mapper = is }) gc',
                map in_channel actions,
              )))
  channel-Served sender m g is gc false running restricted valid found leader =
      unserved sender (some m) g (record g { id_mapper = is }, [])
        (rw (running, restricted, valid, sym leader) refl) refl
  channel-Served sender m g is gc true running restricted valid found leader =
      Holds-bind (Served sender g (accepting sender (some m) g))
        (Receiving.handle_message env now (record { signed = some m; sender = sender }) gc) _
        (λ (gc', actions) done.
          received sender m g is gc gc' actions
            (rw (running, restricted, valid, sym leader, found) refl) done)

  unknown-Served :
      (sender : Slice) (m : SignedGossipMessage) (g : GossipService) (is : IdMapper)
      → lookup_channel_for_msg env.sha256 g.chan_state sender m.message ≡ none
      → Holds
          (Served sender g (accepting sender (some m) g))
          (without_channel env times now sender m (record g { id_mapper = is }))
  unknown-Served sender m g is unknown =
      same-Served sender (some m) g
        (without_channel env times now sender m (record g { id_mapper = is }))
        (nothing_else
          (not g.stop_flag
            && is_channel_restricted m.message
            && is_valid env m
            && is_leader_valid env m)
          (lookup_channel_for_msg env.sha256 g.chan_state sender m.message >>= λ gc. some (m, gc))
          (rw unknown refl))
        (without-Same env times now sender m (record g { id_mapper = is }))

  handle_restricted-Holds :
      (Q : GossipService × List Action → Type 0) (sender : Slice) (m : SignedGossipMessage)
      (g : GossipService)
      → (lookup_channel_for_msg env.sha256 g.chan_state sender m.message ≡ none
          → Holds Q (without_channel env times now sender m g))
      → ((gc : GossipChannel)
          → lookup_channel_for_msg env.sha256 g.chan_state sender m.message ≡ some gc
          → Holds Q (in_its_channel env times now sender m g gc))
      → Holds Q (handle_restricted env times now sender m g)
  unfolding handle_restricted
  handle_restricted-Holds Q sender m g for_unknown for_known =
      elim (Option-cases (lookup_channel_for_msg env.sha256 g.chan_state sender m.message)) [
        | inl unknown ↦ rw (unknown, handle_restricted) (for_unknown unknown)
        | inr (gc, found) ↦ rw (found, handle_restricted) (for_known gc found)
      ]

  valid-Served :
      (sender : Slice) (m : SignedGossipMessage) (g : GossipService) (is : IdMapper) (valid : Bool)
      → g.stop_flag ≡ false
      → is_channel_restricted m.message ≡ true
      → valid ≡ is_valid env m
      → Holds (Served sender g (accepting sender (some m) g)) (
          if not valid
          then some (record g { id_mapper = is }, [])
          else handle_restricted env times now sender m (record g { id_mapper = is }))
  valid-Served sender m g is false running restricted valid =
      unserved sender (some m) g (record g { id_mapper = is }, [])
        (rw (running, restricted, sym valid) refl) refl
  valid-Served sender m g is true running restricted valid =
      handle_restricted-Holds (Served sender g (accepting sender (some m) g)) sender m
        (record g { id_mapper = is }) (unknown-Served sender m g is)
        (λ gc found.
          Holds-bind (Served sender g (accepting sender (some m) g)) (leader_valid env times now m)
            _
            (λ leader e.
              channel-Served sender m g is gc leader running restricted (sym valid) found (
                checked (is_some (get_leadership_msg m.message.content))
                  (validate_leadership_message env.ids m) leader e)))

  restricted-Holds :
      (Q : GossipService × List Action → Type 0) (b valid : Bool)
      (x y z : Option (GossipService × List Action))
      → b ≡ true
      → Holds Q (if not valid then x else y)
      → Holds Q (if not valid then x else if b then y else z)
  restricted-Holds Q b valid x y z restricted h = rw restricted h

  signed-Served :
      (sender : Slice) (s : Option SignedGossipMessage) (g : GossipService)
      → g.stop_flag ≡ false
      → Holds (Served sender g (accepting sender s g)) (handle_signed env times now sender s g)
  signed-Served sender none g running = refl
  signed-Served sender (some m) g running = elim (Bool-cases (is_channel_restricted m.message)) [
    | inl restricted ↦
        Holds-bind (Served sender g (accepting sender (some m) g))
          (validate_msg env times now m g.id_mapper) _
          (λ (is, valid) e.
            restricted-Holds (Served sender g (accepting sender (some m) g))
              (is_channel_restricted m.message) valid (some (record g { id_mapper = is }, []))
              (handle_restricted env times now sender m (record g { id_mapper = is }))
              (handle_unrestricted env times now sender m (record g { id_mapper = is })) restricted
              (valid-Served sender m g is valid running restricted
                (validated env times now m g.id_mapper is valid restricted e)))
    | inr other ↦
        same-Served sender (some m) g (handle_signed env times now sender (some m) g)
          (rw (running, other) refl) (other-Same env times now sender m g other)
  ]

  stopped-Served :
      (sender : Slice) (s : Option SignedGossipMessage) (g : GossipService) (stop : Bool)
      → g.stop_flag ≡ stop
      → Holds
          (Served sender g (accepting sender s g))
          (if stop then some (g, []) else handle_signed env times now sender s g)
  stopped-Served sender none g true stop = refl
  stopped-Served sender (some m) g true stop =
      unserved sender (some m) g (g, []) (rw stop refl) refl
  stopped-Served sender s g false stop = signed-Served sender s g stop

  abbrev pub AllValid : GossipService → Type 0
  AllValid g = All (λ e. IsValid env e.1) g.chan_state.channels

  lookup-IsValid :
      (sender : Slice) (s : Option SignedGossipMessage) (g : GossipService)
      → AllValid g
      → Holds (λ (m, gc). IsValid env gc) (accepting sender s g)
  lookup-IsValid sender none g h = tt
  lookup-IsValid sender (some m) g h =
      choose (Holds (λ (m, gc). IsValid env gc))
        (not g.stop_flag
          && is_channel_restricted m.message
          && is_valid env m
          && is_leader_valid env m)
        _ none
        (Holds-bind (λ (m, gc). IsValid env gc)
          (lookup_channel_for_msg env.sha256 g.chan_state sender m.message) _
          (λ gc found.
            Holds-some (IsValid env) _ gc
              (lookup-Holds (IsValid env) env.sha256 g.chan_state sender m h) found))
        tt

  kept :
      (sender : Slice) (g g' : GossipService) (actions : List Action) (a : Accepted)
      → AllValid g
      → Holds (λ (m, gc). IsValid env gc) a
      → Served sender g a (g', actions)
      → AllValid g'
  kept sender g g' actions none h v same = rw same h
  kept sender g g' actions (some (m, gc)) h v (gc', done, received, changed, sent) = rw changed (
      All-put (λ e. IsValid env e.1) g.chan_state.channels (string_of gc'.chain_id) gc'
        (handle_message-IsValid env now (record { signed = some m; sender = sender }) gc gc' done v
          received)
        h)

  -- Let all channels of this peer be in order: the state infos of a channel are of its members, one for
  -- each and the same in both copies, and its blocks are blocks of the channel. When handleMessage
  -- returns, for whatever message from whatever connection, they still are. If the service is not
  -- stopped, the message has a tag that restricts it to a channel and that is legal for its content, it
  -- is for a channel this peer has joined and, where it is a state info or a leadership message, it is
  -- signed by the peer it names, then the channel has handled it, its actions are what
  -- happens, in their order, and nothing else of the channels changes. In all other cases no channel
  -- changes.
  pub channels_stay-IsValid :
      (r : Received) (g g' : GossipService) (actions : List Action)
      → All (λ e. IsValid env e.1) g.chan_state.channels
      → handle_message env times now r g ≡ some (g', actions)
      → All (λ e. IsValid env e.1) g'.chan_state.channels
        × Served r.sender g (accepting r.sender r.signed g) (g', actions)
  unfolding handle_message
  channels_stay-IsValid r g g' actions h e =
      let served =
        Holds-some (Served r.sender g (accepting r.sender r.signed g)) _ (g', actions)
          (stopped-Served r.sender r.signed g g.stop_flag refl) e in
      (
        kept r.sender g g' actions (accepting r.sender r.signed g) h
            (lookup-IsValid r.sender r.signed g h) served,
        served,
      )
