-- ===== src/Pull/Runs.antt =====
-- The invariant over whole histories of a pull mediator (gossip/channel.go).
use grpc_gossip.Prelude.{
  ℕ, ◌≡◌, refl, Str, true, Option, none, some, ◌>>=◌, List, [], ◌∷◌, ap, Holds, Holds-bind,
  Holds-some, put, nat_eq, string_eq,
}
use grpc_gossip.Sets
use grpc_gossip.Selecting.{Peer}
use grpc_gossip.Pull.Engine
use grpc_gossip.Pull.Engine.{
  PullEngine, item_eq, string, greet, initiate, end_pull, forget_hello, new_nonce, new_pull_engine,
  request, request_mapping, select_endpoints,
}
use grpc_gossip.Pull.Mediator.{
  PullMediator, Received, Action, add, remove, handle_message, initiate_pull, end_digests,
}
use grpc_gossip.Pull.Safety.{IsValid, add-IsString, remove_runes-same}
use grpc_gossip.Pull.Histories.{
  Event, received, added, removed, hello_timer, pull_started, digest_timer, response_timer, stopped,
  step, run, Valid, handle_message-Valid,
}

IsValid-same :
    (e e' : PullEngine)
    → IsValid e
    → (e'.state ≡ e.state) × (e'.item2owners ≡ e.item2owners)
    → IsValid e'
IsValid-same e e' v (same_state, same_owners) = record {
  strings = rw same_state v.strings;
  owned = rw same_owners v.owned;
}

abbrev Same : PullEngine → PullEngine × List (Str × ℕ) → Type 0
Same e (e', greeted) = (e'.state ≡ e.state) × (e'.item2owners ≡ e.item2owners)

greet-Same :
    (peers : List Str) (draws : List ℕ) (e : PullEngine) → Holds (Same e) (greet peers draws e)
unfolding greet
greet-Same [] draws e = (refl, refl)
greet-Same (peer ∷ peers) draws e =
    Holds-bind (Same e) (new_nonce e.outgoing_nonces draws) _ (λ (nonce, left) _.
      Holds-bind (Same e)
        (greet peers left (record e {
          outgoing_nonces = Sets.add e.outgoing_nonces nonce;
          nonces2peers = put e.nonces2peers nonce peer;
          peers2nonces = put e.peers2nonces peer nonce;
        }))
        _ (λ (e', greeted) found. Holds-some (Same e) _ _ (greet-Same peers left _) found))

abbrev ValidAfter : PullMediator × List Action → Type 0
ValidAfter (q, actions) = Valid q

initiate_pull-Valid :
    (pool : List Peer) (peer_draws nonce_draws : List ℕ) (p : PullMediator)
    → Valid p
    → Holds ValidAfter (initiate_pull pool peer_draws nonce_draws p)
unfolding initiate_pull initiate
initiate_pull-Valid pool peer_draws nonce_draws p v =
    let e = record p.engine { accepting_digests = true } in
    Holds-bind ValidAfter (select_endpoints p.config.peer_count_to_select pool peer_draws) _
      (λ peers _. Holds-bind ValidAfter (greet peers nonce_draws e) _ (λ (e', greeted) found.
        IsValid-same p.engine e' v
          (Holds-some (Same e) _ (e', greeted) (greet-Same peers nonce_draws e) found)))

request-Same :
    (draws : List ℕ) (e : PullEngine)
    → Holds
        (λ (r : PullEngine × List (Str × List Str × ℕ)).
          (r.0.state ≡ e.state) × (r.0.item2owners ≡ e.item2owners))
        (request draws e)
unfolding request
request-Same draws e =
    Holds-bind _ (request_mapping e.item2owners draws) _ (λ requests _. (refl, refl))

end_digests-Valid :
    (pool : List Peer) (draws : List ℕ) (p : PullMediator)
    → Valid p
    → Holds ValidAfter (end_digests pool draws p)
unfolding end_digests
end_digests-Valid pool draws p v =
    Holds-bind ValidAfter (request draws p.engine) _ (λ (e, asked) found.
      IsValid-same p.engine e v (Holds-some _ _ (e, asked) (request-Same draws p.engine) found))

after :
    (o : Option (PullMediator × List Action))
    → Holds ValidAfter o
    → Holds Valid (o >>= λ (q, actions). some q)
after none h = tt
after (some (q, actions)) h = h

step-Valid : (ev : Event) (p : PullMediator) → Valid p → Holds Valid (step ev p)
unfolding step add remove forget_hello end_pull Engine.stop
step-Valid (received m) p v =
    let (q, actions, handled, valid) = handle_message-Valid m p v in rw handled valid
step-Valid (added msg) p v = record {
  strings = add-IsString p.engine.state (p.adapter.id_extractor msg) v.strings;
  owned = v.owned;
}
step-Valid (removed digest) p v = record {
  strings = rw (remove_runes-same digest p.engine.state v.strings) v.strings;
  owned = v.owned;
}
step-Valid (hello_timer nonce) p v = record { strings = v.strings; owned = v.owned }
step-Valid (pull_started pool peer_draws nonce_draws) p v =
    after _ (initiate_pull-Valid pool peer_draws nonce_draws p v)
step-Valid (digest_timer pool draws) p v = after _ (end_digests-Valid pool draws p v)
step-Valid response_timer p v = record { strings = v.strings; owned = tt }
step-Valid stopped p v = record { strings = v.strings; owned = v.owned }

run-Valid : (events : List Event) (p : PullMediator) → Valid p → Holds Valid (run events p)
unfolding run
run-Valid [] p v = v
run-Valid (ev ∷ events) p v =
    Holds-bind Valid (step ev p) (run events)
      (λ q stepped. run-Valid events q (Holds-some Valid _ q (step-Valid ev p v) stepped))

-- Whatever messages, calls and timers a mediator with a new engine has gone through, in any order, no
-- message makes it panic: HandleMessage returns, and the set of the engine still holds strings only
-- and every item to ask for has an owner.
pub handle_message-total :
    (events : List Event) (p q : PullMediator) (m : Received)
    → p.engine ≡ new_pull_engine
    → run events p ≡ some q
    → (q' : PullMediator) × (actions : List Action) × (handle_message m q ≡ some (q', actions))
      × Valid q'
handle_message-total events p q m fresh ran = handle_message-Valid m q (
    Holds-some Valid (run events p) q
      (run-Valid events p (
        IsValid-same new_pull_engine p.engine (record { strings = tt; owned = tt })
          (ap (λ e. e.state) fresh, ap (λ e. e.item2owners) fresh)))
      ran)
