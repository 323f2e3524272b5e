-- ===== src/Discovery/Traffic.antt =====
-- A message that arrives twice (gossip/discovery.go, handleMsgFromComm).
use grpc_gossip.Prelude.{
  ℕ, ◌≡◌, Str, str_eq_refl, string_of, true, some, Bool, List, [], ◌∷◌, Map, string_eq, arith,
  Option-cases, inl, inr,
}
use grpc_gossip.Policy.{invalidated}
use grpc_gossip.Types.{Member, Content, AliveMessage, PeerTime, alive_msg, get_alive_msg}
use grpc_gossip.Message.{
  SignedGossipMessage, invalidation_policy, alive_invalidation_policy, compare_timestamps,
}
use grpc_gossip.Message.Replacing.{comparator-PolicyLaws}
use grpc_gossip.Store.{MessageStore}
use grpc_gossip.Store.Repeating.{add_twice}
use grpc_gossip.Signing.{Proto}
use grpc_gossip.Discovery.State.{Discovery, alive_of}
use grpc_gossip.Discovery.Learning.{handle_alive_message}
use grpc_gossip.Discovery.Receiving.{
  Service, forward, alive_add, handle_alive_msg, handle_msg_from_comm,
}

content_alive : (c : Content) (am : AliveMessage) → get_alive_msg c ≡ some am → c ≡ alive_msg am
content_alive (alive_msg a) am h = ground (arith, h)
content_alive _ am h = ground (arith, h)

alive_parts :
    (m : SignedGossipMessage) (am : AliveMessage) (mem : Member)
    → alive_of m ≡ some (am, mem)
    → (m.message.content ≡ alive_msg am) × (am.membership ≡ some mem)
alive_parts m am mem a = elim (Option-cases (get_alive_msg m.message.content)) [
  | inl no_alive ↦ ground (arith, no_alive, a)
  | inr (am', is_alive) ↦ elim (Option-cases am'.membership) [
    | inl no_member ↦ ground (arith, is_alive, no_member, a)
    | inr (mem', has_member) ↦
        ground (arith, is_alive, has_member, a, content_alive m.message.content am')
  ]
]

alive_itself :
    (m : SignedGossipMessage) (am : AliveMessage) (mem : Member) (t : PeerTime)
    → alive_of m ≡ some (am, mem)
    → am.timestamp ≡ some t
    → invalidation_policy 0 m m ≡ some invalidated
unfolding invalidation_policy alive_invalidation_policy compare_timestamps
alive_itself m am mem t a ts =
    let (is_alive, has_member) = alive_parts m am mem a in
    ground (arith, is_alive, has_member, ts, str_eq_refl (string_of mem.pki_id))

-- the first handling of an alive message that is passed on
passed_on :
    (proto : Proto) (times : Map Str ℕ) (now : ℕ) (m : SignedGossipMessage) (s s1 : Service)
    (store : MessageStore SignedGossipMessage) (dropped : List SignedGossipMessage) (added : Bool)
    → alive_add now m s.msg_store ≡ some (store, dropped, added)
    → handle_alive_msg proto times now m s ≡ some (s1, forward m ∷ [])
    → (added ≡ true) × (s1.msg_store ≡ store) × (s1.comm_stopping ≡ s.comm_stopping)
unfolding handle_alive_msg
passed_on proto times now m s s1 store dropped added took h =
    elim (Option-cases (handle_alive_message proto times now m s.discovery)) [
      | inl panic ↦ ground (arith, took, panic, h)
      | inr (d, done) ↦ ground (arith, took, done, h)
    ]

-- When the service takes an alive message with its member and its time and passes it on, it does so once:
-- the same message, whenever it arrives again while the store of alive messages is as that first
-- handling left it (no other message added, none expired), changes nothing and is not passed on,
-- whatever has become of the membership in between.
pub alive_msg_once :
    (proto : Proto) (times : Map Str ℕ) (now later : ℕ) (m : SignedGossipMessage)
    (am : AliveMessage) (mem : Member) (t : PeerTime) (s s1 : Service) (d : Discovery)
    → alive_of m ≡ some (am, mem)
    → am.timestamp ≡ some t
    → handle_msg_from_comm proto times now m s ≡ some (s1, forward m ∷ [])
    → handle_msg_from_comm proto times later m (record s1 { discovery = d })
      ≡ some (record s1 { discovery = d }, [])
unfolding handle_msg_from_comm handle_alive_msg alive_add
alive_msg_once proto times now later m am mem t s s1 d a ts first =
    let (is_alive, has_member) = alive_parts m am mem a in
    elim (Option-cases (alive_add now m s.msg_store)) [
      | inl panic ↦ absurd (ground (arith, is_alive, panic, first))
      | inr ((store, dropped, added), took) ↦
          let taken : handle_alive_msg proto times now m s ≡ some (s1, forward m ∷ []) =
            ground (arith, is_alive, first) in
          let (new, kept, open_yet) =
            passed_on proto times now m s s1 store dropped added took taken in
          let again =
            add_twice (invalidation_policy 0) (comparator-PolicyLaws 0) now later m s.msg_store
              store dropped (alive_itself m am mem t a ts) (ground (arith, took, new, is_alive)) in
          ground (arith, is_alive, again, kept)
    ]
