-- ===== src/Pull/Mediator.antt =====
-- The mediator of the pull protocol (gossip/channel.go, PullMediator). An operation takes what the
-- membership service and the random numbers give it, and returns the new state and what it does, in
-- order. `none` is a panic, or draws that are used up. A timer's function is a step of its own.
use grpc_gossip.Prelude.{
  ℕ, Str, Slice, bytes, string_of, Bool, true, false, not, str_eq, Option, none, some, ◌>>=◌, ◌==◌,
  List, [], ◌∷◌, ◌++◌, map, Map, get, put, delete, string_eq, if◌then◌else◌,
}
use grpc_gossip.Types.{
  Envelope, Content, hello, data_dig, data_req, data_update, DataDigest, PullMsgType, undefined,
  block_msg, identity_msg, unknown, Tag, GossipMessage,
}
use grpc_gossip.Message.{SignedGossipMessage, is_pull_msg, get_pull_msg_type}
use grpc_gossip.Errors.{Error, ok, err}
use grpc_gossip.Signing.{Proto, noop_sign, to_gossip_message}
use grpc_gossip.Selecting.{Peer, RemotePeer, preferred_endpoint, remote}
use grpc_gossip.Sets
use grpc_gossip.Pull.Engine
use grpc_gossip.Pull.Engine.{
  Item, item_eq, string, rune, PullEngine, on_hello, on_digest, on_req, on_res, select_endpoints,
  initiate,
}

-- a message, and the PKI-ID of the connection that it came from
pub record Received : Type 0 where
  pub signed : Option SignedGossipMessage
  pub sender : Slice

pub record Config : Type 0 where
  pub channel : Slice
  pub peer_count_to_select : ℕ
  pub tag : Tag
  pub msg_type : PullMsgType

-- the functions of PullAdapter
pub record Adapter : Type 0 where
  pub id_extractor : SignedGossipMessage → Str
  pub egress_dig_filter : Received → Str → Bool
  pub ingress_dig_filter : DataDigest → DataDigest

pub data MsgType : Type 0 where
  hello_msg_type digest_msg_type request_msg_type response_msg_type : MsgType

pub record PullMediator : Type 0 where
  pub config : Config
  pub adapter : Adapter
  pub proto : Proto
  pub item_id_to_msg : Map Str SignedGossipMessage
  pub engine : PullEngine

pub data Action : Type 0 where
  send : SignedGossipMessage → List RemotePeer → Action
  respond : GossipMessage → Action
  -- the nonce and the data of a DataUpdate, in which an envelope may be nil
  respond_update : ℕ → List (Option Envelope) → Action
  -- MsgConsumer
  consume : SignedGossipMessage → Action
  call_hooks : MsgType → List Str → List SignedGossipMessage → Action

abbrev pub pull_type_eq : PullMsgType → PullMsgType → Bool
pull_type_eq undefined undefined = true
pull_type_eq block_msg block_msg = true
pull_type_eq identity_msg identity_msg = true
pull_type_eq (unknown a) (unknown b) = a == b
pull_type_eq _ _ = false

-- `BytesToStrings` and `StringsToBytes`
unfoldable pub bytes_to_strings : List Slice → List Str
bytes_to_strings bs = map string_of bs

unfoldable pub strings_to_bytes : List Str → List Slice
strings_to_bytes strings = map bytes strings

-- `peersWithEndpoints`, called on one endpoint
unfoldable pub peers_with_endpoint : List Peer → Str → List RemotePeer
unfolding preferred_endpoint
peers_with_endpoint [] dest = []
peers_with_endpoint (p ∷ pool) dest =
    let rest = peers_with_endpoint pool dest in
    if str_eq (preferred_endpoint p) dest then remote p ∷ rest else rest

abbrev message_of : Config → Content → GossipMessage
message_of c content = record { nonce = 0; channel = c.channel; tag = c.tag; content = content }

abbrev unless_error : SignedGossipMessage × Option Error → List RemotePeer → List Action
unless_error (m, none) to = send m to ∷ []
unless_error (m, some x) to = []

-- `Hello`
unfoldable pub hello_to : PullMediator → List Peer → Str → ℕ → List Action
unfolding noop_sign peers_with_endpoint
hello_to p pool dest nonce =
    unless_error
      (noop_sign p.proto (
        message_of p.config
          (hello (record { nonce = nonce; metadata = Slice.nil; msg_type = p.config.msg_type }))))
      (peers_with_endpoint pool dest)

-- `SendDigest`
unfoldable pub send_digest : PullMediator → List Str → ℕ → Action
unfolding strings_to_bytes
send_digest p digest nonce = respond (
    message_of p.config (
      data_dig (record {
        nonce = nonce;
        digests = strings_to_bytes digest;
        msg_type = p.config.msg_type;
      })))

-- `SendReq`
unfoldable pub send_req : PullMediator → List Peer → Str → List Str → ℕ → List Action
unfolding noop_sign peers_with_endpoint strings_to_bytes
send_req p pool dest items nonce =
    unless_error
      (noop_sign p.proto (
        message_of p.config (
          data_req (record {
            nonce = nonce;
            digests = strings_to_bytes items;
            msg_type = p.config.msg_type;
          }))))
      (peers_with_endpoint pool dest)

-- the loop of `SendRes`
unfoldable pub envelopes_of : Map Str SignedGossipMessage → List Str → List (Option Envelope)
envelopes_of store [] = []
envelopes_of store (item ∷ items) =
    let rest = envelopes_of store items in
    elim (get store item) [ none ↦ rest | some m ↦ m.envelope ∷ rest ]

-- `SendRes`
unfoldable pub send_res : PullMediator → List Str → ℕ → Action
unfolding envelopes_of
send_res p items nonce = respond_update nonce (envelopes_of p.item_id_to_msg items)

-- `Add`
unfoldable pub add : SignedGossipMessage → PullMediator → PullMediator
add msg p =
    let item_id = p.adapter.id_extractor msg in
    record p {
      item_id_to_msg = put p.item_id_to_msg item_id msg;
      engine = record p.engine { state = Sets.add p.engine.state (string item_id) };
    }

-- `for _, seq := range digest { engine.state.Remove(seq) }`: the items removed are runes. A byte
-- stands for its rune.
unfoldable pub remove_runes : Str → List Item → List Item
remove_runes [] state = state
remove_runes (c ∷ digest) state = remove_runes digest (Sets.remove state (rune c))

-- `Remove`
unfoldable pub remove : Str → PullMediator → PullMediator
unfolding remove_runes
remove digest p = record p {
  item_id_to_msg = delete p.item_id_to_msg digest;
  engine = record p.engine { state = remove_runes digest p.engine.state };
}

-- The loop over the data of a response: the store, the IDs and the messages, and what is consumed.
-- It ends at a message that does not parse, with no IDs and messages.
pub take_response :
    PullMediator
    → List Envelope
    → Map Str SignedGossipMessage
    → Map Str SignedGossipMessage × Option (List Str × List SignedGossipMessage) × List Action
unfolding to_gossip_message
take_response p [] store = (store, some ([], []), [])
take_response p (e ∷ envelopes) store = elim (to_gossip_message p.proto e) [
  | err x ↦ (store, none, [])
  | ok msg ↦
      let (store', items, actions) =
        take_response p envelopes (put store (p.adapter.id_extractor msg) msg) in
      (
        store',
        items >>= λ (ids, msgs). some (p.adapter.id_extractor msg ∷ ids, msg ∷ msgs),
        consume msg ∷ actions,
      )
]

abbrev pub maybe_digest : PullMediator → Option (List Str) → ℕ → List Action
maybe_digest p none nonce = []
maybe_digest p (some digest) nonce = send_digest p digest nonce ∷ []

abbrev pub maybe_res : PullMediator → Option (List Str) → ℕ → List Action
unfolding send_res
maybe_res p none nonce = []
maybe_res p (some items) nonce = send_res p items nonce ∷ []

-- the end of `HandleMessage` for a response, by what its loop came to
abbrev pub responded :
    PullMediator
    → ℕ
    → Map Str SignedGossipMessage × Option (List Str × List SignedGossipMessage) × List Action
    → PullMediator × List Action
responded p nonce (store, none, actions) = (record p { item_id_to_msg = store }, actions)
responded p nonce (store, some (ids, msgs), actions) = (
  record p { item_id_to_msg = store; engine = on_res ids nonce p.engine },
  actions ++ call_hooks response_msg_type ids msgs ∷ [],
)

-- The content of a pull message; `m` is the message as it was received.
unfoldable pub handle_content :
    Received → PullMediator → Content → Option (PullMediator × List Action)
unfolding on_hello on_digest on_req on_res take_response send_digest bytes_to_strings
handle_content m p (hello h) =
    on_hello h.nonce (p.adapter.egress_dig_filter m) p.engine >>= λ (e, digest).
    some (
      record p { engine = e },
      maybe_digest p digest h.nonce ++ call_hooks hello_msg_type [] [] ∷ [],
    )
handle_content m p (data_dig digest) =
    let d = p.adapter.ingress_dig_filter digest in
    some (
      record p { engine = on_digest (bytes_to_strings d.digests) d.nonce p.engine },
      call_hooks digest_msg_type (bytes_to_strings d.digests) [] ∷ [],
    )
handle_content m p (data_req r) =
    let ids = bytes_to_strings r.digests in
    some (
      p,
      maybe_res p (on_req ids r.nonce (p.adapter.egress_dig_filter m) p.engine) r.nonce
          ++ call_hooks request_msg_type ids [] ∷ [],
    )
handle_content m p (data_update u) =
    some (responded p u.nonce (take_response p u.envelopes p.item_id_to_msg))
handle_content m p _ = some (p, call_hooks hello_msg_type [] [] ∷ [])

abbrev pub handle_signed :
    Received → PullMediator → Option SignedGossipMessage → Option (PullMediator × List Action)
handle_signed m p none = some (p, [])
handle_signed m p (some s) =
    if not (is_pull_msg s.message.content)
    then some (p, [])
    else if not (pull_type_eq (get_pull_msg_type s.message.content) p.config.msg_type)
    then some (p, [])
    else handle_content m p s.message.content

-- `HandleMessage`
unfoldable pub handle_message : Received → PullMediator → Option (PullMediator × List Action)
handle_message m p = handle_signed m p m.signed

pub hellos : PullMediator → List Peer → List (Str × ℕ) → List Action
unfolding hello_to
hellos p pool [] = []
hellos p pool ((peer, nonce) ∷ rest) = hello_to p pool peer nonce ++ hellos p pool rest

-- `initiatePull`; `draws` are the random numbers for the peers, and for the nonces.
unfoldable pub initiate_pull :
    List Peer → List ℕ → List ℕ → PullMediator → Option (PullMediator × List Action)
unfolding select_endpoints initiate hellos
initiate_pull pool peer_draws nonce_draws p =
    select_endpoints p.config.peer_count_to_select pool peer_draws >>= λ peers.
    initiate peers nonce_draws p.engine >>= λ (e, greeted).
    some (record p { engine = e }, hellos p pool greeted)

pub requests : PullMediator → List Peer → List (Str × List Str × ℕ) → List Action
unfolding send_req
requests p pool [] = []
requests p pool ((dest, items, nonce) ∷ rest) =
    send_req p pool dest items nonce ++ requests p pool rest

-- the function of initiatePull's timer
unfoldable pub end_digests : List Peer → List ℕ → PullMediator → Option (PullMediator × List Action)
unfolding Engine.request requests
end_digests pool draws p = Engine.request draws p.engine >>= λ (e, asked).
    some (record p { engine = e }, requests p pool asked)
