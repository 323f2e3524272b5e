-- ===== src/Tests/Calls.antt =====
-- Sends by criteria, on small states.
use mathlib.Core.List.{Permᴰ}
use grpc_gossip.Prelude.{
  pos, ◌≡◌, refl, nil, ltb, none, some, List, [], ◌∷◌, length, map, arith, if◌then◌else◌, false,
}
use grpc_gossip.Errors.{too_few_peers, too_few_acks}
use grpc_gossip.Random.{count_from}
use grpc_gossip.Selecting.{RemotePeer, select_peers}
use grpc_gossip.Comm.Acks.{SendResult, ack_count}
use grpc_gossip.Service.Calls.{SendCriteria, eligible, candidates, send_by_criteria}
use grpc_gossip.Service.Acknowledging.{send_by_criteria_lem}
use grpc_gossip.Tests.Channels.{env, joined}

-- everyone acknowledges
abbrev answers : List RemotePeer → List SendResult
answers peers = map (λ p. record { remote_peer = p; error = none }) peers

length-answers : (peers : List RemotePeer) → length (answers peers) ≡ length peers
length-answers [] = refl
length-answers (p ∷ peers) = omega (arith, length-answers peers)

abbrev criteria : SendCriteria
criteria = record {
  timeout = 5;
  min_ack = pos 1;
  max_peers = pos 2;
  is_eligible = none;
  channel = nil;
}

shuffled : Permᴰ (1 ∷ 0 ∷ []) (count_from 0 2)
unfolding count_from
shuffled = Permᴰ.swap refl refl

send_by_criteria_example :
    (chosen : List RemotePeer) × (select_peers
        (pos 2)
        env.membership
        (eligible criteria)
        (1 ∷ 0 ∷ [])
      ≡ some chosen)
    × (send_by_criteria env joined false none answers env.membership (1 ∷ 0 ∷ []) criteria
        ≡ some (
            if ltb (ack_count (answers chosen)) 1
            then some (if ltb (length chosen) 1 then too_few_peers else too_few_acks)
            else none))
unfolding candidates
send_by_criteria_example =
    send_by_criteria_lem env joined answers env.membership env.membership (1 ∷ 0 ∷ []) criteria 1 2
      refl shuffled length-answers refl (omega arith) refl (omega arith) (omega arith)
