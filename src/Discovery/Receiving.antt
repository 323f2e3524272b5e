-- ===== src/Discovery/Receiving.antt =====
-- What the discovery service does with a message (gossip/discovery.go: handleMsgFromComm,
-- aliveMsgStore). `none` is a panic; the goroutine that answers a request is
-- an action.
use grpc_gossip.Prelude.{
  ℕ, Str, string_of, Bool, true, false, not, is_some, Option, none, some, ◌>>=◌, List, [], ◌∷◌, Map,
  has, string_eq, if◌then◌else◌,
}
use grpc_gossip.Errors.{Result, ok, err}
use grpc_gossip.Types.{
  Envelope, Member, Content, alive_msg, mem_req, mem_res, MembershipRequest, get_alive_msg,
}
use grpc_gossip.Message.{SignedGossipMessage, invalidation_policy}
use grpc_gossip.Store
use grpc_gossip.Store.{MessageStore}
use grpc_gossip.Signing.{Proto, to_gossip_message}
use grpc_gossip.Discovery.State.{Discovery, alive_of}
use grpc_gossip.Discovery.Learning.{
  validate_alive_msg, handle_alive_message, learn_new_members, disclosed,
}

pub record Service : Type 0 where
  pub discovery : Discovery
  pub msg_store : MessageStore SignedGossipMessage
  pub comm_stopping : Bool

pub data Action : Type 0 where
  -- `go d.sendMemResponse(...)`: the member, its internal endpoint, the nonce
  send_mem_response : Member → Str → ℕ → Action
  forward : SignedGossipMessage → Action
  publish : ℕ → Action

-- The messages of aliveMsgStore are alive messages; it panics at any other.
unfoldable pub alive_add :
    ℕ
    → SignedGossipMessage
    → MessageStore SignedGossipMessage
    → Option (MessageStore SignedGossipMessage × List SignedGossipMessage × Bool)
alive_add now m s =
    if is_some (get_alive_msg m.message.content)
    then Store.add (invalidation_policy 0) now m s
    else none

pub alive_check_valid : SignedGossipMessage → MessageStore SignedGossipMessage → Option Bool
alive_check_valid m s =
    if is_some (get_alive_msg m.message.content)
    then Store.check_valid (invalidation_policy 0) m s
    else none

module _ (proto : Proto) (times : Map Str ℕ) (now : ℕ) where
  -- `if d.msgStore.CheckValid(m) { d.handleAliveMessage(m) }`
  unfoldable pub handle_if_valid : SignedGossipMessage → Service → Option Service
  unfolding alive_check_valid handle_alive_message
  handle_if_valid m s = alive_check_valid m s.msg_store >>= λ valid.
      if valid
      then (handle_alive_message proto times now m s.discovery >>= λ d.
          some (record s { discovery = d }))
      else some s

  -- a turn of the loop over the alive members of a response
  abbrev pub alive_turn :
      (Service → Option (Service × Bool))
      → Result SignedGossipMessage
      → Service
      → Option (Service × Bool)
  alive_turn rest (err x) s = some (s, false)
  alive_turn rest (ok am) s =
      if not (is_some (get_alive_msg am.message.content))
      then some (s, false)
      else handle_if_valid am s >>= rest

  -- The loop, and whether it came to its end.
  unfoldable pub take_alive : List Envelope → Service → Option (Service × Bool)
  take_alive [] s = some (s, true)
  take_alive (env ∷ envelopes) s = alive_turn (take_alive envelopes) (to_gossip_message proto env) s

  -- a dead member of a response, whose message is valid
  abbrev pub learn_dead_member : SignedGossipMessage → Discovery → Option Discovery
  learn_dead_member dm d = alive_of dm >>= λ (am, mem).
      learn_new_members proto now []
        (if has d.id_to_member (string_of mem.pki_id) then [] else dm ∷ []) d

  -- its message, with what its validation came to
  abbrev pub dead_checked :
      (Service → Option Service) → SignedGossipMessage → Bool → Service → Option Service
  dead_checked rest dm valid s =
      if not valid
      then rest s
      else alive_check_valid dm s.msg_store >>= λ new.
          if not new
          then some s
          else learn_dead_member dm s.discovery >>= λ d. rest (record s { discovery = d })

  -- a turn of the loop over the dead members
  abbrev pub dead_turn :
      (Service → Option Service) → Result SignedGossipMessage → Service → Option Service
  dead_turn rest (err x) s = some s
  dead_turn rest (ok dm) s =
      let (is, valid) = validate_alive_msg times now dm s.discovery.id_mapper in
      dead_checked rest dm valid (record s { discovery = record s.discovery { id_mapper = is } })

  unfoldable pub take_dead : List Envelope → Service → Option Service
  take_dead [] s = some s
  take_dead (env ∷ envelopes) s = dead_turn (take_dead envelopes) (to_gossip_message proto env) s

  -- a membership request, with the self information that it carries
  abbrev pub answer_mem_req :
      SignedGossipMessage → Result SignedGossipMessage → Service → Option (Service × List Action)
  answer_mem_req m (err x) s = some (s, [])
  answer_mem_req m (ok self_info) s = handle_if_valid self_info s >>= λ s'. m.envelope >>= λ e.
      alive_of self_info >>= λ (am, mem).
      some (s', send_mem_response mem (disclosed proto e []) m.message.nonce ∷ [])

  unfoldable pub handle_mem_req :
      SignedGossipMessage → MembershipRequest → Service → Option (Service × List Action)
  handle_mem_req m r s =
      r.self_information >>= λ env. answer_mem_req m (to_gossip_message proto env) s

  -- an alive message
  unfoldable pub handle_alive_msg : SignedGossipMessage → Service → Option (Service × List Action)
  unfolding alive_add handle_alive_message
  handle_alive_msg m s = alive_add now m s.msg_store >>= λ (store, dropped, added).
      if not added
      then some (record s { msg_store = store }, [])
      else handle_alive_message proto times now m s.discovery >>= λ d. some (
        record s { discovery = d; msg_store = store },
        if s.comm_stopping then [] else forward m ∷ [],
      )

  -- by the content of the message
  abbrev pub handle_content :
      SignedGossipMessage → Content → Service → Option (Service × List Action)
  handle_content m (mem_req r) s = handle_mem_req m r s
  handle_content m (alive_msg a) s = handle_alive_msg m s
  handle_content m (mem_res r) s = take_alive r.alive s >>= λ (s', complete).
      (if complete then take_dead r.dead s' else some s') >>= λ s2.
      some (s2, publish m.message.nonce ∷ [])
  handle_content m _ s = some (s, [])

  -- `handleMsgFromComm`
  unfoldable pub handle_msg_from_comm :
      SignedGossipMessage → Service → Option (Service × List Action)
  handle_msg_from_comm m s = handle_content m m.message.content s
