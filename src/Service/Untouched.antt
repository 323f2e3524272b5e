-- ===== src/Service/Untouched.antt =====
-- What of handleMessage leaves the channels as they are (gossip/gossip.go, handleMessage).
use grpc_gossip.Prelude.{
  ℕ, ◌≡◌, false, refl, Str, Slice, not, ◌&&◌, is_some, some, List, [], Map, string_eq, Holds,
  Holds-some, Holds-bind, choose,
}
use grpc_gossip.Types.{get_state_info}
use grpc_gossip.Message.{SignedGossipMessage, is_channel_restricted, invalidation_policy}
use grpc_gossip.Store
use grpc_gossip.Pull.Mediator
use grpc_gossip.Pull.Mediator.{Received}
use grpc_gossip.Channel.State.{Env}
use grpc_gossip.Service.Orgs.{is_in_my_org}
use grpc_gossip.Service.Routing.{select_only_discovery_messages, is_forwarded}
use grpc_gossip.Service.Dispatching.{
  GossipService, Action, validate_msg, handle_identity_pull, handle_unrestricted, handle_signed,
  update_valid, without_channel,
}

module _ (env : Env) (times : Map Str ℕ) (now : ℕ) where
  abbrev pub Same : GossipService → GossipService × List Action → Type 0
  Same g (g', actions) = g'.chan_state ≡ g.chan_state

  pub without-Same :
      (sender : Slice) (m : SignedGossipMessage) (g : GossipService)
      → Holds (Same g) (without_channel env times now sender m g)
  without-Same sender m g =
      choose (Holds (Same g))
        (is_in_my_org env.orgs sender && is_some (get_state_info m.message.content)) _
        (some (g, []))
        (Holds-bind (Same g) (Store.add (invalidation_policy 0) now m g.state_info_msg_store) _
          (λ r _. refl))
        refl

  pub pull-Same :
      (sender : Slice) (m : SignedGossipMessage) (g : GossipService)
      → Holds (Same g) (handle_identity_pull env times now sender m g)
  unfolding handle_identity_pull
  pull-Same sender m g = choose (Holds (Same g)) _ (some (g, [])) _ refl (
      choose (Holds (Same g)) (not (update_valid env times now m.message.content)) (some (g, [])) _
        refl
        (Holds-bind (Same g)
          (Mediator.handle_message (record { signed = some m; sender = sender }) g.cert_puller) _
          (λ (p, actions) _. refl)))

  pub unrestricted-Same :
      (sender : Slice) (m : SignedGossipMessage) (g : GossipService)
      → Holds (Same g) (handle_unrestricted env times now sender m g)
  unfolding handle_unrestricted
  unrestricted-Same sender m g =
      choose (Holds (Same g)) (select_only_discovery_messages m) _
        (handle_identity_pull env times now sender m g)
        (Holds-bind (Same g) (is_forwarded env.proto sender m) _ (λ forwarded _.
          choose (Holds (Same g)) (not forwarded) (some (g, [])) _ refl (
            Holds-bind (Same g) (handle_identity_pull env times now sender m g) _
              (λ (g', actions) done.
                Holds-some (Same g) _ (g', actions) (pull-Same sender m g) done))))
        (pull-Same sender m g)

  pub other-Same :
      (sender : Slice) (m : SignedGossipMessage) (g : GossipService)
      → is_channel_restricted m.message ≡ false
      → Holds (Same g) (handle_signed env times now sender (some m) g)
  other-Same sender m g other =
      Holds-bind (Same g) (validate_msg env times now m g.id_mapper) _ (λ (is, valid) e.
        choose (Holds (Same g)) (not valid) (some (record g { id_mapper = is }, [])) _ refl
          (rw other (unrestricted-Same sender m (record g { id_mapper = is }))))
