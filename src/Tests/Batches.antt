-- ===== src/Tests/Batches.antt =====
-- What the service does with a message and with a batch, on small states.
use mathlib.Core.List.{Permᴰ, Memᴰ}
use grpc_gossip.Prelude.{
  ℕ, pos, ◌≡◌, refl, Slice, string_of, is_empty, bytes_equal, false, not, ◌&&◌, some, List, [], ◌∷◌,
  map, filter, All, if◌then◌else◌, str_eq, get, put, delete,
}
use grpc_gossip.Random.{count_from}
use grpc_gossip.Selecting.{remote, select_peers, combine_routing_filters}
use grpc_gossip.Channel.Members.{eligible_for_channel}
use grpc_gossip.Message.{
  is_tag_legal, is_channel_restricted, invalidation_policy, state_invalidation_policy,
  compare_timestamps,
}
use grpc_gossip.Signing
use grpc_gossip.Crypto
use grpc_gossip.Store
use grpc_gossip.Channel.Receiving
use grpc_gossip.Service.Validating.{validate_state_info_msg}
use grpc_gossip.Channel.Keeping.{IsValid}
use grpc_gossip.Channel.State
use grpc_gossip.Service.Batches.{
  Emitted, Sent, gossip_in_chan, send_gossip_batch, in_channel_and_org, grabs,
}
use grpc_gossip.Service.Confining.{Proper, batch_confined}
use grpc_gossip.Service.Gossiping.{is_joined, messages_of, gossip_in_chan_lem}
use grpc_gossip.Service.Finishing.{IsSendable, batch_returns}
use grpc_gossip.Service.Dispatching.{GossipService, Action, in_channel, handle_message}
use grpc_gossip.Service.Serving.{Served, accepting, channels_stay-IsValid}
use grpc_gossip.Tests.Data.{bob, alive_message, peer, lenient}
use grpc_gossip.Tests.Channels.{
  env, joined, channel, channel-IsValid, own_block, news, informed, carl, state_of,
}

abbrev block_out : Emitted
block_out = record { message = own_block; filter = λ id. not (bytes_equal id bob) }

abbrev alive_out : Emitted
alive_out = record { message = alive_message bob 1; filter = λ id. not (bytes_equal id bob) }

abbrev batch : List Emitted
batch = alive_out ∷ block_out ∷ []

abbrev perms : ℕ → List ℕ
perms n = 0 ∷ 1 ∷ []

perms_shuffled : (n : ℕ) → Permᴰ (perms n) (count_from 0 2)
unfolding count_from
perms_shuffled n = Permᴰ.cons refl (Permᴰ.cons refl Permᴰ.nil)

abbrev sent : List Sent
sent = (own_block, remote (peer carl) ∷ []) ∷ (alive_message bob 1, remote (peer carl) ∷ []) ∷ []

sends : send_gossip_batch env joined env.membership (pos 2) perms batch ≡ some (3, sent)
unfolding send_gossip_batch str_eq get select_peers combine_routing_filters eligible_for_channel
sends = refl

batch_confined_example : All (Proper env joined env.membership (λ e. Memᴰ e batch)) sent
batch_confined_example = batch_confined env joined env.membership (pos 2) perms batch 3 sent sends

batch-IsSendable : All IsSendable batch
batch-IsSendable = (((λ h. refl), refl), (((λ h. h), refl), tt))

batch_returns_example :
    (n : ℕ) × (out : List Sent) × (send_gossip_batch env joined env.membership (pos 2) perms batch
      ≡ some (n, out))
batch_returns_example =
    batch_returns env joined env.membership (pos 2) perms perms_shuffled batch batch-IsSendable

gossip_in_chan_example :
    (j : ℕ) × (out : List Sent) × (gossip_in_chan env joined env.membership
        (pos 2)
        perms
        (in_channel_and_org env)
        0
        (block_out ∷ [])
      ≡ some (j, out))
    × ((d : Slice)
        → messages_of d out ≡ (
            if not (is_empty (string_of d)) && is_joined joined d
            then map (λ e. e.message) (filter (grabs d) (block_out ∷ []))
            else []))
gossip_in_chan_example =
    gossip_in_chan_lem env joined env.membership (pos 2) perms perms_shuffled
      (in_channel_and_org env) 0 (block_out ∷ [])

abbrev service : GossipService
service = record {
  stop_flag = false;
  chan_state = record { stopping = false; channels = (5 ∷ [], channel) ∷ [] };
  state_info_msg_store = channel.state_info_msg_store.messages;
  cert_puller = channel.blocks_puller;
  id_mapper = record { mcs = lenient; pki_id_to_cert = []; self_pki_id = 1 ∷ [] };
}

abbrev served : GossipService
served = record service {
  chan_state = record { stopping = false; channels = (5 ∷ [], informed) ∷ [] };
}

abbrev actions : List Action
actions =
    in_channel (State.forward (state_of carl 2) carl)
    ∷ in_channel (State.deliver (state_of carl 2))
    ∷ []

serves : handle_message env [] 2 news service ≡ some (served, actions)
unfolding handle_message is_tag_legal validate_state_info_msg Signing.verify
    Crypto.get_pki_id_of_cert Crypto.verify str_eq is_channel_restricted Receiving.handle_message
    Store.check_valid invalidation_policy state_invalidation_policy compare_timestamps
    Crypto.verify_by_channel Store.add Store.add_loop put delete
serves = refl

channels_stay-IsValid_example :
    All (λ e. IsValid env e.1) served.chan_state.channels
    × Served env [] 2 news.sender service
        (accepting env [] 2 news.sender news.signed service)
        (served, actions)
channels_stay-IsValid_example =
    channels_stay-IsValid env [] 2 news service served actions (channel-IsValid, tt) serves
