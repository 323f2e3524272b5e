-- ===== src/Service/Acknowledging.antt =====
-- When a send by criteria succeeds (gossip/gossip.go, SendByCriteria; gossip/communicate.go, SendWithAck).
use mathlib.Core.List.{Permᴰ}
use grpc_gossip.Prelude.{
  ℕ, ◌≡◌, ◌<◌, pos, ltb, false, none, some, List, [], ◌∷◌, length, count, count-le-length, arith,
  Bool-cases, inl, inr, if◌then◌else◌,
}
use grpc_gossip.Errors.{ok, too_few_peers, too_few_acks}
use grpc_gossip.Random.{count_from}
use grpc_gossip.Selecting.{Peer, RemotePeer, select_peers}
use grpc_gossip.Selecting.Chosen.{select_peers_returns}
use grpc_gossip.Comm.Acks.{SendResult, is_ack, ack_count, send_with_ack}
use grpc_gossip.Comm.Waiting.{send_acked_lem}
use grpc_gossip.Channel.State.{Env}
use grpc_gossip.Channel.Joining.{ChannelState}
use grpc_gossip.Service.Calls.{SendCriteria, eligible, candidates, send_by_criteria}

send_with_ack-acked :
    (wanted : ℕ) (peers : List RemotePeer) (arriving : List SendResult)
    → 0 < wanted
    → 0 < length peers
    → length arriving ≡ length peers
    → (results : List SendResult) × (send_with_ack false none (pos wanted) peers arriving
        ≡ some results)
      × (ltb (count is_ack results) wanted ≡ ltb (count is_ack arriving) wanted)
unfolding send_with_ack
send_with_ack-acked wanted [] arriving w p all_of_them = absurd (omega (arith, p))
send_with_ack-acked wanted (q ∷ peers) arriving w p all_of_them =
    let (results, done, enough) = send_acked_lem wanted (q ∷ peers) arriving w p all_of_them in
    (results, done, ground (arith, enough.acks))

-- A send by criteria that asks for at least one acknowledgement, with a timeout and a limit, to a known
-- set of candidates, while the instance runs, the message can be encoded and each of the sends comes to a
-- result, returns: the peers are selected among the candidates by the eligibility and the limit, and it
-- succeeds exactly if as many of the sends to them as asked for are acknowledged; otherwise its error
-- says whether there were too few peers or too few acknowledgements.
pub send_by_criteria_lem :
    (env : Env) (cs : ChannelState) (arriving : List RemotePeer → List SendResult)
    (membership pool : List Peer) (perm : List ℕ) (c : SendCriteria) (wanted limit : ℕ)
    → candidates env cs membership c.channel ≡ some (ok pool)
    → Permᴰ perm (count_from 0 (length pool))
    → ((peers : List RemotePeer) → length (arriving peers) ≡ length peers)
    → c.min_ack ≡ pos wanted
    → 0 < wanted
    → c.max_peers ≡ pos limit
    → 0 < limit
    → 0 < c.timeout
    → (chosen : List RemotePeer) × (select_peers c.max_peers pool (eligible c) perm ≡ some chosen)
      × (send_by_criteria env cs false none arriving membership perm c
          ≡ some (
              if ltb (ack_count (arriving chosen)) wanted
              then some (if ltb (length chosen) wanted then too_few_peers else too_few_acks)
              else none))
unfolding send_by_criteria ack_count
send_by_criteria_lem env cs arriving membership pool perm c wanted limit known shuffled complete min
      w max l timed =
    let (chosen, selected) = select_peers_returns c.max_peers pool (eligible c) perm shuffled in
    let bound = count-le-length is_ack (arriving chosen) in
    let all_of_them = complete chosen in
    elim (Bool-cases (ltb (length chosen) wanted)) [
      | inl few ↦
          (chosen, selected, ground (arith, known, selected, min, max, few, bound, all_of_them))
      | inr many ↦
          let (results, done, same) =
            send_with_ack-acked wanted chosen (arriving chosen) w (ground (arith, many))
              all_of_them in
          (
            chosen,
            selected,
            ground (arith, known, selected, min, max, many, bound, all_of_them, done, same),
          )
    ]
