-- ===== src/Tests/Beats.antt =====
-- Alive messages one after the other, on small states.
use grpc_gossip.Prelude.{none, string_eq, AllPairs, arith}
use grpc_gossip.Discovery.Announcing.{Announcer, send_alive_loop}
use grpc_gossip.Discovery.Heartbeat.{Later, send_alive_loop-Later}
use grpc_gossip.Tests.Data.{bob, peer, proto_of, block}

abbrev bobs : Announcer
bobs = record {
  self = peer bob;
  inc_time = 1;
  seq_num = 0;
  self_alive_message = none;
  id = bob;
  include_id_period = 2;
}

send_alive_loop-Later_example :
    AllPairs Later (send_alive_loop (proto_of (block 1)) (λ i. i) 0 3 bobs)
send_alive_loop-Later_example =
    send_alive_loop-Later (proto_of (block 1)) (λ i. i) 0 3 bobs (omega arith)
