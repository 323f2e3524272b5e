-- ===== src/Discovery/Standing.antt =====
-- The invariant of the discovery service over every message (gossip/discovery.go, handleMsgFromComm).
use grpc_gossip.Prelude.{
  ℕ, ◌≡◌, Str, Bool, true, false, not, is_some, Option, some, ◌>>=◌, List, [], ◌∷◌, Map, string_eq,
  if◌then◌else◌, choose, Holds, Holds-bind, Holds-some,
}
use grpc_gossip.Errors.{Result, ok, err}
use grpc_gossip.Types.{Envelope, Content, alive_msg, mem_req, mem_res, get_alive_msg}
use grpc_gossip.Message.{SignedGossipMessage}
use grpc_gossip.Signing.{Proto, to_gossip_message}
use grpc_gossip.Discovery.State.{alive_of}
use grpc_gossip.Discovery.Learning.{handle_alive_message, validate_alive_msg}
use grpc_gossip.Discovery.Membership.{IsValid}
use grpc_gossip.Discovery.News.{with_mapper}
use grpc_gossip.Discovery.Receiving.{
  Service, Action, alive_add, alive_check_valid, handle_if_valid, handle_mem_req, handle_alive_msg,
  handle_msg_from_comm, take_alive, take_dead, learn_dead_member, alive_turn, dead_checked,
  dead_turn, answer_mem_req, handle_content,
}
use grpc_gossip.Discovery.Keeping.{
  Sound, handle_alive_message-Holds, handle_if_valid-Holds, learn_dead_member-Holds,
}

module _ (proto : Proto) (times : Map Str ℕ) (now : ℕ) where
  abbrev pub SoundFirst : Service × Bool → Type 0
  SoundFirst (s, complete) = Sound s

  alive_turn-Holds :
      (rest : Service → Option (Service × Bool)) (r : Result SignedGossipMessage) (s : Service)
      → ((s' : Service) → Sound s' → Holds SoundFirst (rest s'))
      → Sound s
      → Holds SoundFirst (alive_turn proto times now rest r s)
  alive_turn-Holds rest (err x) s h v = v
  alive_turn-Holds rest (ok am) s h v =
      choose (Holds SoundFirst) (not (is_some (get_alive_msg am.message.content))) (some (s, false))
        (handle_if_valid proto times now am s >>= rest) v
        (Holds-bind SoundFirst (handle_if_valid proto times now am s) rest (λ s' handled.
          h s' (Holds-some Sound _ s' (handle_if_valid-Holds proto times now am s v) handled)))

  take_alive-Holds :
      (envelopes : List Envelope) (s : Service)
      → Sound s
      → Holds SoundFirst (take_alive proto times now envelopes s)
  unfolding take_alive
  take_alive-Holds [] s v = v
  take_alive-Holds (env ∷ envelopes) s v =
      alive_turn-Holds (take_alive proto times now envelopes) (to_gossip_message proto env) s
        (take_alive-Holds envelopes) v

  dead_checked-Holds :
      (rest : Service → Option Service) (dm : SignedGossipMessage) (valid : Bool) (s : Service)
      → ((s' : Service) → Sound s' → Holds Sound (rest s'))
      → Sound s
      → Holds Sound (dead_checked proto times now rest dm valid s)
  dead_checked-Holds rest dm false s h v = h s v
  dead_checked-Holds rest dm true s h v =
      Holds-bind Sound (alive_check_valid dm s.msg_store) _ (λ new _.
        choose (Holds Sound) (not new) (some s)
          (learn_dead_member proto times now dm s.discovery >>= λ d.
            rest (record s { discovery = d }))
          v
          (Holds-bind Sound (learn_dead_member proto times now dm s.discovery) _ (λ d learned.
            h (record s { discovery = d })
              (Holds-some IsValid _ d (learn_dead_member-Holds proto times now dm s.discovery v)
                learned))))

  dead_turn-Holds :
      (rest : Service → Option Service) (r : Result SignedGossipMessage) (s : Service)
      → ((s' : Service) → Sound s' → Holds Sound (rest s'))
      → Sound s
      → Holds Sound (dead_turn proto times now rest r s)
  dead_turn-Holds rest (err x) s h v = v
  dead_turn-Holds rest (ok dm) s h v =
      let (is, valid) = validate_alive_msg times now dm s.discovery.id_mapper in
      dead_checked-Holds rest dm valid
        (record s { discovery = record s.discovery { id_mapper = is } }) h
        (with_mapper s.discovery is v)

  take_dead-Holds :
      (envelopes : List Envelope) (s : Service)
      → Sound s
      → Holds Sound (take_dead proto times now envelopes s)
  unfolding take_dead
  take_dead-Holds [] s v = v
  take_dead-Holds (env ∷ envelopes) s v =
      dead_turn-Holds (take_dead proto times now envelopes) (to_gossip_message proto env) s
        (take_dead-Holds envelopes) v

  abbrev pub SoundAfter : Service × List Action → Type 0
  SoundAfter (s, actions) = Sound s

  answer_mem_req-Holds :
      (m : SignedGossipMessage) (r : Result SignedGossipMessage) (s : Service)
      → Sound s
      → Holds SoundAfter (answer_mem_req proto times now m r s)
  answer_mem_req-Holds m (err x) s v = v
  answer_mem_req-Holds m (ok self_info) s v =
      Holds-bind SoundAfter (handle_if_valid proto times now self_info s) _ (λ s' handled.
        let v' =
          Holds-some Sound _ s' (handle_if_valid-Holds proto times now self_info s v) handled in
        Holds-bind SoundAfter m.envelope _
          (λ e _. Holds-bind SoundAfter (alive_of self_info) _ (λ a _. v')))

  handle_alive_msg-Holds :
      (m : SignedGossipMessage) (s : Service)
      → Sound s
      → Holds SoundAfter (handle_alive_msg proto times now m s)
  unfolding handle_alive_msg
  handle_alive_msg-Holds m s v =
      Holds-bind SoundAfter (alive_add now m s.msg_store) _ (λ (store, dropped, added) _.
        choose (Holds SoundAfter) (not added) (some (record s { msg_store = store }, []))
          (handle_alive_message proto times now m s.discovery >>= λ d. some (
            record s { discovery = d; msg_store = store },
            if s.comm_stopping then [] else Action.forward m ∷ [],
          ))
          v
          (Holds-bind SoundAfter (handle_alive_message proto times now m s.discovery) _
            (λ d handled.
              Holds-some IsValid _ d (handle_alive_message-Holds proto times now m s.discovery v)
                handled)))

  handle_content-Holds :
      (m : SignedGossipMessage) (c : Content) (s : Service)
      → Sound s
      → Holds SoundAfter (handle_content proto times now m c s)
  unfolding handle_mem_req
  handle_content-Holds m (mem_req r) s v =
      Holds-bind SoundAfter r.self_information _
        (λ env _. answer_mem_req-Holds m (to_gossip_message proto env) s v)
  handle_content-Holds m (alive_msg a) s v = handle_alive_msg-Holds m s v
  handle_content-Holds m (mem_res r) s v =
      Holds-bind SoundAfter (take_alive proto times now r.alive s) _ (λ (s', complete) taken.
        let v' = Holds-some SoundFirst _ (s', complete) (take_alive-Holds r.alive s v) taken in
        Holds-bind SoundAfter (if complete then take_dead proto times now r.dead s' else some s') _
          (λ s2 ended.
            Holds-some Sound _ s2
              (choose (Holds Sound) complete (take_dead proto times now r.dead s') (some s')
                (take_dead-Holds r.dead s' v') v')
              ended))
  handle_content-Holds m _ s v = v

  -- Whatever message arrives, valid or not, alive message, request or response: if the service does not
  -- panic, then nobody is both alive and dead afterwards, both are known, and the stored messages
  -- belong to exactly these members, as before.
  pub handle_msg_from_comm-IsValid :
      (m : SignedGossipMessage) (s s' : Service) (actions : List Action)
      → IsValid s.discovery
      → handle_msg_from_comm proto times now m s ≡ some (s', actions)
      → IsValid s'.discovery
  unfolding handle_msg_from_comm
  handle_msg_from_comm-IsValid m s s' actions v e =
      Holds-some SoundAfter _ (s', actions) (handle_content-Holds m m.message.content s v) e
