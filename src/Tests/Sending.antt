-- ===== src/Tests/Sending.antt =====
-- Acknowledged sends and the store of connections on small states.
use grpc_gossip.Prelude.{
  ◌≡◌, refl, Slice, str_eq, false, Option, none, some, List, [], ◌∷◌, get, put, delete, string_eq,
}
use grpc_gossip.Errors.{Error, Result, ok, err, timed_out}
use grpc_gossip.Selecting.{RemotePeer}
use grpc_gossip.Comm.Acks.{SendResult}
use grpc_gossip.Comm.Connections.{
  Connection, ConnectionStore, connected, failed, waits, get_connection, with_lock, settle,
  created_or_failed, accepting, run,
}
use grpc_gossip.Comm.Locks.{lock_left_locked}
use grpc_gossip.Tests.Data.{ann, bob}

abbrev remote_peer : Slice → RemotePeer
remote_peer id = record { endpoint = 7 ∷ []; pki_id = id }

abbrev answer : Slice → Option Error → SendResult
answer id e = record { remote_peer = remote_peer id; error = e }

-- Bob's acknowledgement comes after Ann's has timed out, and a third is not waited for
abbrev arriving : List SendResult
arriving = answer ann (some timed_out) ∷ answer bob none ∷ answer ann none ∷ []

abbrev no_connections : ConnectionStore
no_connections = record { is_closing = false; pki_to_conn = []; destination_locks = [] }

abbrev to_bob : Connection
to_bob = record { number = 1; pki_id = bob; out_buff = []; buff_size = 20; stop_flag = false }

-- Ann is connected while the connection to Bob is created, and Bob connects by himself afterwards
lock_left_locked_example :
    (cs' : ConnectionStore) × (get_connection
        (err timed_out)
        (run (accepting 2 20 ann ∷ []))
        (remote_peer bob)
        no_connections
      ≡ (cs', failed timed_out, []))
    × ((create : Result Connection) (others : ConnectionStore → ConnectionStore)
        → get_connection create others (remote_peer bob) (run (accepting 3 20 bob ∷ []) cs')
          ≡ (run (accepting 3 20 bob ∷ []) cs', waits, []))
unfolding get
lock_left_locked_example =
    lock_left_locked timed_out (accepting 2 20 ann ∷ []) (accepting 3 20 bob ∷ []) (remote_peer bob)
      no_connections refl refl refl

-- the store with the connection
abbrev with_bob : ConnectionStore
with_bob = record no_connections { pki_to_conn = (2 ∷ [], to_bob) ∷ [] }

bob_connected :
    get_connection (ok to_bob) (λ cs. cs) (remote_peer bob) no_connections
    ≡ (with_bob, connected to_bob, [])
unfolding get_connection with_lock created_or_failed settle get put delete str_eq
bob_connected = refl
