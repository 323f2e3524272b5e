-- ===== src/Pull/Histories.antt =====
-- Histories of a pull mediator: messages, calls and timers in any order (gossip/channel.go).
use grpc_gossip.Prelude.{
  ℕ, ◌≡◌, refl, Str, true, false, Option, none, some, ◌>>=◌, List, [], ◌∷◌, arith, if◌then◌else◌,
  choose, Map, get, not, ◌||◌, nat_eq, string_eq, Option-cases, inl, inr,
}
use grpc_gossip.Types.{Content, GossipHello, hello, data_dig, data_req, data_update}
use grpc_gossip.Message.{SignedGossipMessage, is_pull_msg, get_pull_msg_type}
use grpc_gossip.Selecting.{Peer}
use grpc_gossip.Sets
use grpc_gossip.Pull.Engine
use grpc_gossip.Pull.Engine.{
  PullEngine, on_hello, digest_of, on_digest, on_res, note_owners, or_blank, add_all, greet,
  initiate, end_pull, forget_hello, new_nonce,
}
use grpc_gossip.Pull.Mediator.{
  PullMediator, Received, Action, add, remove, bytes_to_strings, responded, take_response,
  handle_content, handle_signed, handle_message, pull_type_eq, initiate_pull, end_digests,
}
use grpc_gossip.Pull.Safety.{IsValid, add_all-IsString, digest_of-some, note_owners-HasOwner}

pub data Event : Type 0 where
  received : Received → Event
  added : SignedGossipMessage → Event
  removed : Str → Event
  -- the timers of onHello and initiatePull, and the loop that pulls
  hello_timer : ℕ → Event
  pull_started : List Peer → List ℕ → List ℕ → Event
  digest_timer : List Peer → List ℕ → Event
  response_timer : Event
  stopped : Event

-- what an event makes of the mediator
unfoldable pub step : Event → PullMediator → Option PullMediator
unfolding handle_message add remove initiate_pull end_digests forget_hello end_pull Engine.stop
step (received m) p = handle_message m p >>= λ (q, actions). some q
step (added msg) p = some (add msg p)
step (removed digest) p = some (remove digest p)
step (hello_timer nonce) p = some (record p { engine = forget_hello nonce p.engine })
step (pull_started pool peer_draws nonce_draws) p =
    initiate_pull pool peer_draws nonce_draws p >>= λ (q, actions). some q
step (digest_timer pool draws) p = end_digests pool draws p >>= λ (q, actions). some q
step response_timer p = some (record p { engine = end_pull p.engine })
step stopped p = some (record p { engine = Engine.stop p.engine })

-- the events in turn
unfoldable pub run : List Event → PullMediator → Option PullMediator
unfolding step
run [] p = some p
run (ev ∷ events) p = step ev p >>= λ q. run events q

abbrev pub Valid : PullMediator → Type 0
Valid p = IsValid p.engine

abbrev owner_of : ℕ → PullEngine → Str
owner_of n e = or_blank (get e.nonces2peers n)

on_digest-IsValid :
    (digest : List Str) (n : ℕ) (e : PullEngine) → IsValid e → IsValid (on_digest digest n e)
unfolding on_digest
on_digest-IsValid digest n e v =
    choose IsValid (not e.accepting_digests || not (Sets.exists e.outgoing_nonces n)) e
      (record e { item2owners = note_owners e.state (owner_of n e) digest e.item2owners }) v
      (record {
        strings = v.strings;
        owned = note_owners-HasOwner e.state (owner_of n e) digest e.item2owners v.owned;
      })

on_res-IsValid :
    (items : List Str) (n : ℕ) (e : PullEngine) → IsValid e → IsValid (on_res items n e)
unfolding on_res
on_res-IsValid items n e v =
    choose IsValid (not (Sets.exists e.outgoing_nonces n) || not e.accepting_responses) e
      (record e { state = add_all items e.state }) v
      (record { strings = add_all-IsString items e.state v.strings; owned = v.owned })

responded-Valid :
    (p : PullMediator) (n : ℕ)
    (r : Map Str SignedGossipMessage × Option (List Str × List SignedGossipMessage) × List Action)
    → Valid p
    → Valid (responded p n r).0
responded-Valid p n (store, none, actions) v = v
responded-Valid p n (store, some (ids, msgs), actions) v = on_res-IsValid ids n p.engine v

abbrev Returns : Option (PullMediator × List Action) → Type 0
Returns none = (true ≡ false)
Returns (some (q, actions)) = Valid q

handle_hello-Returns :
    (m : Received) (p : PullMediator) (h : GossipHello)
    → Valid p
    → Returns (handle_content m p (hello h))
unfolding handle_content on_hello
handle_hello-Returns m p h v =
    elim (Option-cases (digest_of (p.adapter.egress_dig_filter m) p.engine.state)) [
      | inl none_yet ↦
          ground (arith, digest_of-some (p.adapter.egress_dig_filter m) p.engine.state v.strings)
      | inr (digest, found) ↦ rw found (record { strings = v.strings; owned = v.owned })
    ]

handle_content-Returns :
    (m : Received) (p : PullMediator) (c : Content) → Valid p → Returns (handle_content m p c)
unfolding handle_content
handle_content-Returns m p (hello h) v = handle_hello-Returns m p h v
handle_content-Returns m p (data_dig d) v =
    let d' = p.adapter.ingress_dig_filter d in
    on_digest-IsValid (bytes_to_strings d'.digests) d'.nonce p.engine v
handle_content-Returns m p (data_req r) v = v
handle_content-Returns m p (data_update u) v =
    responded-Valid p u.nonce (take_response p u.envelopes p.item_id_to_msg) v
handle_content-Returns m p _ v = v

handle_signed-Returns :
    (m : Received) (p : PullMediator) (o : Option SignedGossipMessage)
    → Valid p
    → Returns (handle_signed m p o)
handle_signed-Returns m p none v = v
handle_signed-Returns m p (some s) v =
    choose Returns (not (is_pull_msg s.message.content)) (some (p, []))
      (if not (pull_type_eq (get_pull_msg_type s.message.content) p.config.msg_type)
        then some (p, [])
        else handle_content m p s.message.content)
      v
      (choose Returns (not (pull_type_eq (get_pull_msg_type s.message.content) p.config.msg_type))
        (some (p, [])) (handle_content m p s.message.content) v
        (handle_content-Returns m p s.message.content v))

returned :
    (o : Option (PullMediator × List Action))
    → Returns o
    → (q : PullMediator) × (actions : List Action) × (o ≡ some (q, actions)) × Valid q
returned none r = ground (arith, r)
returned (some (q, actions)) r = (q, actions, refl, r)

-- A message never makes the mediator panic, and keeps it well formed.
pub handle_message-Valid :
    (m : Received) (p : PullMediator)
    → Valid p
    → (q : PullMediator) × (actions : List Action) × (handle_message m p ≡ some (q, actions))
      × Valid q
unfolding handle_message
handle_message-Valid m p v =
    returned (handle_signed m p m.signed) (handle_signed-Returns m p m.signed v)
