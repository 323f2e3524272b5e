-- ===== src/Comm/Waiting.antt =====
-- How long an acknowledged send waits (gossip/communicate.go).
use Prim.Native.Nat.{min}
use grpc_gossip.Prelude.{
  ℕ, ◌+◌, ◌<◌, ◌≡◌, refl, pos, true, some, List, [], ◌∷◌, length, take, count, count-le-length,
  arith, Bool-cases, inl, inr, ◌==◌, eq_ℕ, ◌||◌,
}
use grpc_gossip.Selecting.{RemotePeer}
use grpc_gossip.Comm.Acks.{SendResult, is_ack, send_loop, send_acked, one_more}

-- The results that a send returns are the first that arrived, and enough of them.
pub record Enough (wanted : ℕ) (arriving results : List SendResult) : Type 0 where
  pub first : results ≡ take (length results) arriving
  some_result : 0 < length results
  pub acks : count is_ack results ≡ min wanted (count is_ack arriving)
  -- not all of them only if there are enough
  early : (length results == length arriving) || (count is_ack results == wanted) ≡ true

send_loop_lem :
    (wanted peers acks received : ℕ) (arriving : List SendResult)
    → acks < wanted
    → received + length arriving ≡ peers
    → 0 < length arriving
    → (results : List SendResult) × (send_loop (pos wanted) peers acks received arriving
        ≡ some results)
      × (results ≡ take (length results) arriving)
      × (0 < length results)
      × (acks + count is_ack results ≡ min wanted (acks + count is_ack arriving))
      × (((length results == length arriving) || (acks + count is_ack results == wanted)) ≡ true)
unfolding send_loop
send_loop_lem wanted peers acks received [] few all_of_them some_left = ground (arith, some_left)
send_loop_lem wanted peers acks received (r ∷ arriving) few all_of_them some_left =
    elim (Bool-cases (eq_ℕ (pos wanted) (one_more r acks) || (received + 1 == peers))) [
      | inl ended ↦ (
        r ∷ [],
        ground (arith, ended),
        refl,
        omega arith,
        ground (arith, ended, few, all_of_them, count-le-length is_ack arriving),
        ground (arith, ended, few, all_of_them),
      )
      | inr goes_on ↦
          let (results, returns, first, some_result, acked, early) =
            send_loop_lem wanted peers (one_more r acks) (received + 1) arriving
              (ground (arith, goes_on, few)) (omega (arith, all_of_them))
              (ground (arith, goes_on, all_of_them)) in
          (
            r ∷ results,
            ground (arith, goes_on, returns),
            ground (arith, first),
            omega arith,
            ground (arith, acked),
            ground (arith, early),
          )
    ]

-- A send that waits for at least one acknowledgement, to peers that each come to a result, returns. It
-- returns the first results that arrived: all of them, or as many as it takes for the number of
-- acknowledgements that were asked for, and no more.
pub send_acked_lem :
    (wanted : ℕ) (peers : List RemotePeer) (arriving : List SendResult)
    → 0 < wanted
    → 0 < length peers
    → length arriving ≡ length peers
    → (results : List SendResult) × (send_acked (pos wanted) peers arriving ≡ some results)
      × Enough wanted arriving results
unfolding send_acked
send_acked_lem wanted peers arriving w p all_of_them =
    let (results, returns, first, some_result, acked, early) =
      send_loop_lem wanted (length peers) 0 0 arriving w (omega (arith, all_of_them))
        (omega (arith, all_of_them, p)) in
    (
      results,
      returns,
      record {
        first = first;
        some_result = some_result;
        acks = ground (arith, acked);
        early = ground (arith, early);
      },
    )
