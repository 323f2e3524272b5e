-- ===== src/Comm/Acks.antt =====
-- Acknowledged sends (gossip/communicate.go: ackSendOperation, AggregatedSendResults, SendWithAck). The
-- goroutines send to the peers and put their results into a channel that holds one for each peer; the
-- results, in the order of their arrival, are an argument.
use grpc_gossip.Prelude.{
  ℕ, ◌+◌, ℤ, eq_ℕ, ◌==◌, Bool, true, false, ◌||◌, Option, none, some, ◌>>=◌, List, [], ◌∷◌, map,
  length, count, if◌then◌else◌,
}
use grpc_gossip.Errors.{Error, comm_is_stopping}
use grpc_gossip.Selecting.{RemotePeer}

pub record SendResult : Type 0 where
  pub remote_peer : RemotePeer
  pub error : Option Error

-- `ack.error == nil`
abbrev pub is_ack : SendResult → Bool
is_ack r = elim r.error [ none ↦ true | some e ↦ false ]

-- `AckCount`
unfoldable pub ack_count : List SendResult → ℕ
ack_count results = count is_ack results

abbrev pub one_more : SendResult → ℕ → ℕ
one_more r n = if is_ack r then n + 1 else n

-- The loop of `send`, with the number of peers, what it has so far, and the results that arrive;
-- `none` is a wait for a result that does not come.
unfoldable pub send_loop : ℤ → ℕ → ℕ → ℕ → List SendResult → Option (List SendResult)
send_loop min_ack peers acks received [] = none
send_loop min_ack peers acks received (r ∷ arriving) =
    let rest = send_loop min_ack peers (one_more r acks) (received + 1) arriving in
    if eq_ℕ min_ack (one_more r acks) || (received + 1 == peers)
    then some (r ∷ [])
    else rest >>= λ results. some (r ∷ results)

-- `send`
unfoldable pub send_acked : ℤ → List RemotePeer → List SendResult → Option (List SendResult)
unfolding send_loop
send_acked min_ack peers arriving = send_loop min_ack (length peers) 0 0 arriving

-- `SendWithAck`: `stopping` says whether the instance is stopping, and `sign_error` is the error of
-- NoopSign.
unfoldable pub send_with_ack :
    Bool → Option Error → ℤ → List RemotePeer → List SendResult → Option (List SendResult)
unfolding send_acked
send_with_ack stopping sign_error min_ack [] arriving = some []
send_with_ack stopping (some e) min_ack (p ∷ peers) arriving =
    some (map (λ q. record { remote_peer = q; error = some e }) (p ∷ peers))
send_with_ack stopping none min_ack (p ∷ peers) arriving =
    if stopping
    then some (map (λ q. record { remote_peer = q; error = some comm_is_stopping }) (p ∷ peers))
    else send_acked min_ack (p ∷ peers) arriving
