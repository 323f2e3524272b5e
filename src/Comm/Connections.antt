-- ===== src/Comm/Connections.antt =====
-- The store of connections (gossip/communicate.go: connectionStore, Connection). A method returns the
-- new store beside its result and the connections that it closes. The store's own lock is held within
-- a step; a destination lock is state, because a call that fails may leave it locked.
use grpc_gossip.Prelude.{
  ℕ, Str, Slice, string_of, Bool, true, false, Option, none, some, List, [], ◌∷◌, ◌++◌, length,
  ◌==◌, Map, get, put, delete, has, string_eq, if◌then◌else◌,
}
use grpc_gossip.Errors.{Error, Result, ok, err, shutting_down, conn_store_is_closing}
use grpc_gossip.Types.{Envelope}
use grpc_gossip.Selecting.{RemotePeer}

-- a connection, which its number tells from others
pub record Connection : Type 0 where
  pub number : ℕ
  pub pki_id : Slice
  pub out_buff : List (Option Envelope)
  pub buff_size : ℕ
  pub stop_flag : Bool

pub record ConnectionStore : Type 0 where
  pub is_closing : Bool
  pub pki_to_conn : Map Str Connection
  -- whether the lock is locked
  pub destination_locks : Map Str Bool

-- what comes of `getConnection`; the goroutine may wait for a lock
pub data Got : Type 0 where
  connected : Connection → Got
  failed : Error → Got
  waits : Got

-- The end of `getConnection`, with the connection that was created, after the destination lock.
unfoldable pub settle :
    Slice → Connection → ConnectionStore → ConnectionStore × Got × List Connection
settle pki_id created cs =
    let k = string_of pki_id in
    if cs.is_closing then (cs, failed conn_store_is_closing, []) else elim (get cs.pki_to_conn k) [
      | some conn ↦ (
        record cs { destination_locks = delete cs.destination_locks k },
        connected conn,
        created ∷ [],
      )
      | none ↦ (
        record cs {
          destination_locks = delete cs.destination_locks k;
          pki_to_conn = put cs.pki_to_conn (string_of created.pki_id) created;
        },
        connected created,
        [],
      )
    ]

abbrev pub unlock : Str → ConnectionStore → ConnectionStore
unlock k cs =
    if has cs.destination_locks k
    then record cs { destination_locks = put cs.destination_locks k false }
    else cs

-- The end of `getConnection` once createConnection has returned: where it has failed, the destination
-- lock is left as it is.
unfoldable pub created_or_failed :
    Result Connection → Slice → ConnectionStore → ConnectionStore × Got × List Connection
unfolding settle
created_or_failed (err e) pki_id cs = (cs, failed e, [])
created_or_failed (ok created) pki_id cs = settle pki_id created (unlock (string_of pki_id) cs)

-- `getConnection`, where the lock is free. `create` is what createConnection returns, and `others` what
-- the other goroutines do to the store in the meantime.
unfoldable pub with_lock :
    Result Connection
    → (ConnectionStore → ConnectionStore)
    → Slice
    → ConnectionStore
    → ConnectionStore × Got × List Connection
unfolding created_or_failed
with_lock create others pki_id cs =
    let k = string_of pki_id in
    elim (get cs.pki_to_conn k) [
      | some conn ↦
          (record cs { destination_locks = put cs.destination_locks k false }, connected conn, [])
      | none ↦
          created_or_failed create pki_id
            (others (record cs { destination_locks = put cs.destination_locks k true }))
    ]

abbrev pub is_locked : Option Bool → Bool
is_locked none = false
is_locked (some locked) = locked

-- `getConnection`
unfoldable pub get_connection :
    Result Connection
    → (ConnectionStore → ConnectionStore)
    → RemotePeer
    → ConnectionStore
    → ConnectionStore × Got × List Connection
unfolding with_lock
get_connection create others peer cs =
    if cs.is_closing
    then (cs, failed shutting_down, [])
    else if is_locked (get cs.destination_locks (string_of peer.pki_id))
    then (cs, waits, [])
    else with_lock create others peer.pki_id cs

abbrev as_list : Option Connection → List Connection
as_list none = []
as_list (some conn) = conn ∷ []

-- `onConnected`: the store, the new connection, and the one that it replaces, which is closed
unfoldable pub on_connected :
    ℕ → ℕ → Slice → ConnectionStore → ConnectionStore × Connection × List Connection
on_connected number buff_size pki_id cs =
    let k = string_of pki_id in
    let conn : Connection = record {
      number = number;
      pki_id = pki_id;
      out_buff = [];
      buff_size = buff_size;
      stop_flag = false;
    } in
    (record cs { pki_to_conn = put cs.pki_to_conn k conn }, conn, as_list (get cs.pki_to_conn k))

-- `closeByPKIid`
unfoldable pub close_by_pki_id : Slice → ConnectionStore → ConnectionStore × List Connection
close_by_pki_id pki_id cs =
    let k = string_of pki_id in
    elim (get cs.pki_to_conn k) [
      | none ↦ (cs, [])
      | some conn ↦ (record cs { pki_to_conn = delete cs.pki_to_conn k }, conn ∷ [])
    ]

-- `CloseConn` deletes under the PKI-ID of the connection.
unfoldable pub close_conn : RemotePeer → ConnectionStore → ConnectionStore × List Connection
close_conn peer cs = elim (get cs.pki_to_conn (string_of peer.pki_id)) [
  | none ↦ (cs, [])
  | some conn ↦
      (record cs { pki_to_conn = delete cs.pki_to_conn (string_of conn.pki_id) }, conn ∷ [])
]

-- what comes of `Send`: a send into a full buffer waits
pub data Sent : Type 0 where
  done : Connection → Sent
  send_waits : Sent

-- `Connection.Send`; a buffer that is full drops the message, or makes a blocking send wait.
unfoldable pub send : Option Envelope → Bool → Connection → Sent
send envelope should_block conn =
    if conn.stop_flag
    then done conn
    else if length conn.out_buff == conn.buff_size
    then (if should_block then send_waits else done conn)
    else done (record conn { out_buff = conn.out_buff ++ envelope ∷ [] })

-- `close`: the first call drops what is in the buffer
unfoldable pub close_connection : Connection → Connection
close_connection conn =
    if conn.stop_flag then conn else record conn { stop_flag = true; out_buff = [] }

-- What goroutines do to a store that is not closed as a whole: a getConnection, which nothing comes
-- between, for a peer, a stream that is accepted, and the two ways to close a connection.
pub data Event : Type 0 where
  getting : Result Connection → RemotePeer → Event
  accepting : ℕ → ℕ → Slice → Event
  closing : Slice → Event
  disconnecting : RemotePeer → Event

unfoldable pub step : Event → ConnectionStore → ConnectionStore
unfolding get_connection on_connected close_by_pki_id close_conn
step (getting create peer) cs = (get_connection create (λ c. c) peer cs).0
step (accepting number size pki_id) cs = (on_connected number size pki_id cs).0
step (closing pki_id) cs = (close_by_pki_id pki_id cs).0
step (disconnecting peer) cs = (close_conn peer cs).0

unfoldable pub run : List Event → ConnectionStore → ConnectionStore
unfolding step
run [] cs = cs
run (ev ∷ events) cs = run events (step ev cs)
