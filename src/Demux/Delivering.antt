-- ===== src/Demux/Delivering.antt =====
-- Who gets what from the demultiplexer (gossip/channel.go).
use grpc_gossip.Prelude.{
  ◌+◌, ◌≤◌, ◌≡◌, refl, false, Option, some, ◌>>=◌, List, [], ◌∷◌, ◌++◌, length, map, arith, filter,
  count, length-append, All,
}
use mathlib.Core.List.{append-nil, append_assoc}
use grpc_gossip.Demux.{Channel, DeMultiplexer, capacity, close, send_loop, de_multiplex}

module _ {M : Type 0} where
  -- the messages in turn, each waiting for none
  pub deliver : List M → DeMultiplexer M → Option (DeMultiplexer M)
  deliver [] d = some d
  deliver (m ∷ ms) d = de_multiplex m d >>= λ d'. deliver ms d'

  -- a channel behind the messages that it accepts
  abbrev pub receive : List M → Channel M → Channel M
  receive ms c = record c { queue = c.queue ++ filter c.pred ms }

  -- there is room for all the messages that a channel accepts
  abbrev pub HasRoom : List M → Channel M → Type 0
  HasRoom ms c = length c.queue + count c.pred ms ≤ capacity

  send_loop_lem :
      (m : M) (ms : List M) (cs : List (Channel M))
      → All (HasRoom (m ∷ ms)) cs
      → send_loop m cs ≡ some (map (receive (m ∷ [])) cs)
  unfolding send_loop
  send_loop_lem m ms [] h = refl
  send_loop_lem m ms (c ∷ cs) h = ground (arith, send_loop_lem m ms cs h.1, append-nil c.queue)

  receive_cons :
      (m : M) (ms : List M) (cs : List (Channel M))
      → map (receive ms) (map (receive (m ∷ [])) cs) ≡ map (receive (m ∷ ms)) cs
  receive_cons m ms [] = refl
  receive_cons m ms (c ∷ cs) = ground (
    arith,
    receive_cons m ms cs,
    append-nil c.queue,
    append_assoc c.queue (m ∷ []) (filter c.pred ms),
  )

  receive_nil : (cs : List (Channel M)) → map (receive []) cs ≡ cs
  receive_nil [] = refl
  receive_nil (c ∷ cs) = ground (arith, receive_nil cs, append-nil c.queue)

  HasRoom-rest :
      (m : M) (ms : List M) (cs : List (Channel M))
      → All (HasRoom (m ∷ ms)) cs
      → All (HasRoom ms) (map (receive (m ∷ [])) cs)
  HasRoom-rest m ms [] h = tt
  HasRoom-rest m ms (c ∷ cs) h = (
    ground (arith, length-append c.queue (filter c.pred (m ∷ [])), append-nil c.queue),
    HasRoom-rest m ms cs h.1,
  )

  -- While it is open and the buffers have room, the demultiplexer waits for nobody, and every channel
  -- gets exactly the messages that its predicate accepts, once each and in the order of their arrival.
  pub deliver_lem :
      (ms : List M) (d : DeMultiplexer M)
      → d.closed ≡ false
      → All (HasRoom ms) d.channels
      → deliver ms d ≡ some (record d { channels = map (receive ms) d.channels })
  unfolding deliver de_multiplex
  deliver_lem [] d open_yet h = rw receive_nil
  deliver_lem (m ∷ ms) d open_yet h = ground (
    arith,
    send_loop_lem m ms d.channels h,
    deliver_lem ms (record d { channels = map (receive (m ∷ [])) d.channels }) open_yet
        (HasRoom-rest m ms d.channels h),
    receive_cons m ms d.channels,
  )

  -- After `Close` nothing is delivered to the channels that are added, nobody is made to wait, and a
  -- second `Close` closes only channels that were added since: none is closed twice.
  pub closed_delivers_nothing :
      (ms : List M) (d : DeMultiplexer M)
      → (deliver ms (close d).0 ≡ some (close d).0) × ((close (close d).0).1 ≡ [])
  unfolding deliver de_multiplex close
  closed_delivers_nothing ms d = (idle ms, refl)
    where
      idle : (ns : List M) → deliver ns (close d).0 ≡ some (close d).0
      idle [] = refl
      idle (n ∷ ns) = idle ns
