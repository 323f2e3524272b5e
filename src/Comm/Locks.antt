-- ===== src/Comm/Locks.antt =====
-- What getConnection guarantees, and a lock that it leaves locked (gossip/communicate.go).
use grpc_gossip.Prelude.{
  Map, has, choose, Bool, Bool-cases, false, ◌≡◌, Str, str_eq, str_eq_iff, delete, get-delete, ◌∷◌,
  str_eq_refl, Slice, string_of, true, false, none, some, List, [], get, put, get-put, string_eq,
  arith, Option-cases, inl, inr,
}
use grpc_gossip.Errors.{shutting_down, Error, Result, ok, err}
use grpc_gossip.Selecting.{RemotePeer}
use grpc_gossip.Comm.Connections.{
  Connection, ConnectionStore, connected, failed, waits, Got, is_locked, settle, with_lock, unlock,
  get_connection, created_or_failed, Event, getting, accepting, closing, disconnecting, step, run,
  on_connected, close_by_pki_id, close_conn,
}

-- the store is open, and the destination lock of the key is locked
abbrev pub Stuck : Str → ConnectionStore → Type 0
Stuck k cs = (cs.is_closing ≡ false) × (get cs.destination_locks k ≡ some true)

-- The call of another peer leaves the lock alone.
module _ (j k : Str) (cs : ConnectionStore) (apart : str_eq j k ≡ false) where
  keeps-Stuck :
      (b : Bool) (c : Map Str Connection)
      → Stuck k cs
      → Stuck k (record cs { destination_locks = put cs.destination_locks j b; pki_to_conn = c })
  keeps-Stuck b c (open_yet, locked) =
      (open_yet, ground (arith, get-put cs.destination_locks j k b, apart, locked))

  drops-Stuck :
      (c : Map Str Connection)
      → Stuck k cs
      → Stuck k (record cs { destination_locks = delete cs.destination_locks j; pki_to_conn = c })
  drops-Stuck c (open_yet, locked) =
      (open_yet, ground (arith, get-delete cs.destination_locks j k, apart, locked))

  unlock-Stuck : Stuck k cs → Stuck k (unlock j cs)
  unlock-Stuck h =
      choose (Stuck k) (has cs.destination_locks j)
        (record cs { destination_locks = put cs.destination_locks j false }) cs
        (keeps-Stuck false cs.pki_to_conn h) h

settle-Stuck :
    (pki_id : Slice) (created : Connection) (k : Str) (cs : ConnectionStore)
    → str_eq (string_of pki_id) k ≡ false
    → Stuck k cs
    → Stuck k (settle pki_id created cs).0
unfolding settle
settle-Stuck pki_id created k cs apart h =
    elim (Option-cases (get cs.pki_to_conn (string_of pki_id))) [
      | inl unconnected ↦
          rw (settle, h.0, unconnected)
            (drops-Stuck (string_of pki_id) k cs apart
              (put cs.pki_to_conn (string_of created.pki_id) created) h)
      | inr (conn, found) ↦
          rw (settle, h.0, found) (drops-Stuck (string_of pki_id) k cs apart cs.pki_to_conn h)
    ]

created_or_failed-Stuck :
    (create : Result Connection) (pki_id : Slice) (k : Str) (cs : ConnectionStore)
    → str_eq (string_of pki_id) k ≡ false
    → Stuck k cs
    → Stuck k (created_or_failed create pki_id cs).0
unfolding created_or_failed
created_or_failed-Stuck (err e) pki_id k cs apart h = h
created_or_failed-Stuck (ok created) pki_id k cs apart h =
    settle-Stuck pki_id created k (unlock (string_of pki_id) cs) apart
      (unlock-Stuck (string_of pki_id) k cs apart h)

get_connection-Stuck :
    (create : Result Connection) (peer : RemotePeer) (k : Str) (cs : ConnectionStore)
    → Stuck k cs
    → Stuck k (get_connection create (λ c. c) peer cs).0
unfolding get_connection with_lock
get_connection-Stuck create peer k cs (open_yet, locked) =
    let j = string_of peer.pki_id in
    elim (Bool-cases (str_eq j k)) [
      | inl same ↦
          let waiting : get_connection create (λ c. c) peer cs ≡ (cs, waits, []) =
            ground (arith, open_yet, locked, same, str_eq_iff j k) in
          rw waiting (open_yet, locked)
      | inr apart ↦
          let locking = record cs { destination_locks = put cs.destination_locks j true } in
          choose (λ (r : ConnectionStore × Got × List Connection). Stuck k r.0) cs.is_closing
            (cs, failed shutting_down, []) _ (open_yet, locked)
            (choose (λ (r : ConnectionStore × Got × List Connection). Stuck k r.0)
              (is_locked (get cs.destination_locks j)) (cs, waits, []) _ (open_yet, locked)
              (elim (Option-cases (get cs.pki_to_conn j)) [
                | inl unconnected ↦
                    rw (with_lock, unconnected)
                      (created_or_failed-Stuck create peer.pki_id k locking apart
                        (keeps-Stuck j k cs apart true cs.pki_to_conn (open_yet, locked)))
                | inr (conn, found) ↦
                    rw (with_lock, found)
                      (keeps-Stuck j k cs apart false cs.pki_to_conn (open_yet, locked))
              ]))
    ]

step-Stuck : (ev : Event) (k : Str) (cs : ConnectionStore) → Stuck k cs → Stuck k (step ev cs)
unfolding step on_connected close_by_pki_id close_conn
step-Stuck (getting create peer) k cs h = get_connection-Stuck create peer k cs h
step-Stuck (accepting number size pki_id) k cs h = h
step-Stuck (closing pki_id) k cs h = elim (Option-cases (get cs.pki_to_conn (string_of pki_id))) [
  | inl unconnected ↦ ground (arith, unconnected, h)
  | inr (conn, found) ↦ ground (arith, found, h)
]
step-Stuck (disconnecting peer) k cs h =
    elim (Option-cases (get cs.pki_to_conn (string_of peer.pki_id))) [
      | inl unconnected ↦ ground (arith, unconnected, h)
      | inr (conn, found) ↦ ground (arith, found, h)
    ]

run-Stuck :
    (events : List Event) (k : Str) (cs : ConnectionStore) → Stuck k cs → Stuck k (run events cs)
unfolding run
run-Stuck [] k cs h = h
run-Stuck (ev ∷ events) k cs h = run-Stuck events k (step ev cs) (step-Stuck ev k cs h)

-- Let the store be open, with no connection to a peer and no destination lock for it. When
-- createConnection fails for the peer, getConnection returns the error and leaves the peer's destination
-- lock locked: whatever calls of getConnection, accepted streams and closed connections come in the
-- meantime and afterwards, one after the other, every later getConnection for that peer waits and
-- changes nothing, as long as the store is open, even if the peer has connected by itself.
pub lock_left_locked :
    (e : Error) (during later : List Event) (peer : RemotePeer) (cs : ConnectionStore)
    → cs.is_closing ≡ false
    → get cs.destination_locks (string_of peer.pki_id) ≡ none
    → get cs.pki_to_conn (string_of peer.pki_id) ≡ none
    → (cs' : ConnectionStore) × (get_connection (err e) (run during) peer cs ≡ (cs', failed e, []))
      × ((create : Result Connection) (others : ConnectionStore → ConnectionStore)
          → get_connection create others peer (run later cs') ≡ (run later cs', waits, []))
unfolding get_connection with_lock created_or_failed
lock_left_locked e during later peer cs open_yet free unconnected =
    let k = string_of peer.pki_id in
    let locked = record cs { destination_locks = put cs.destination_locks k true } in
    let stuck : Stuck k (run during locked) =
      run-Stuck during k locked
        (open_yet, ground (arith, get-put cs.destination_locks k k true, str_eq_refl k)) in
    let (open_still, locked_still) = run-Stuck later k (run during locked) stuck in
    (
      run during locked,
      ground (arith, open_yet, free, unconnected),
      λ create others. ground (arith, open_still, locked_still),
    )

settle-stored :
    (pki_id : Slice) (created conn : Connection) (cs cs' : ConnectionStore)
    (closed : List Connection)
    → string_of created.pki_id ≡ string_of pki_id
    → settle pki_id created cs ≡ (cs', connected conn, closed)
    → get cs'.pki_to_conn (string_of pki_id) ≡ some conn
unfolding settle
settle-stored pki_id created conn cs cs' closed same h =
    elim (Option-cases (get cs.pki_to_conn (string_of pki_id))) [
      | inl unconnected ↦ ground (
        arith,
        unconnected,
        same,
        h,
        get-put cs.pki_to_conn (string_of created.pki_id) (string_of pki_id) created,
        str_eq_refl (string_of pki_id),
      )
      | inr (old, found) ↦ ground (arith, found, h)
    ]

-- Whatever the other goroutines do while a connection is created, the connection that getConnection
-- returns is the one that the store then holds for the peer, if a connection that is created to a peer
-- has the PKI-ID that was asked for.
pub get_connection_stored :
    (created conn : Connection) (others : ConnectionStore → ConnectionStore) (peer : RemotePeer)
    (cs cs' : ConnectionStore) (closed : List Connection)
    → string_of created.pki_id ≡ string_of peer.pki_id
    → get_connection (ok created) others peer cs ≡ (cs', connected conn, closed)
    → get cs'.pki_to_conn (string_of peer.pki_id) ≡ some conn
unfolding get_connection with_lock created_or_failed
get_connection_stored created conn others peer cs cs' closed same h =
    let k = string_of peer.pki_id in
    let cs1 =
      unlock k (others (record cs { destination_locks = put cs.destination_locks k true })) in
    elim (Option-cases (get cs.pki_to_conn k)) [
      | inl unconnected ↦
          settle-stored peer.pki_id created conn cs1 cs' closed same
            (ground (arith, h, unconnected))
      | inr (old, found) ↦ ground (arith, found, h)
    ]
