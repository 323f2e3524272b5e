-- ===== src/Demux.antt =====
-- The demultiplexer (gossip/channel.go, ChannelDeMultiplexer), over messages of any type. A Go channel
-- is the list of what its buffer holds, oldest first.
pub mod Delivering
use grpc_gossip.Prelude.{
  ℕ, Bool, true, false, Option, none, some, ◌>>=◌, List, [], ◌∷◌, ◌++◌, length, map, ltb,
  if◌then◌else◌,
}

pub record Channel (M : Type 0) : Type 0 where
  pub pred : M → Bool
  pub queue : List M
  pub closed : Bool

pub record DeMultiplexer (M : Type 0) : Type 0 where
  pub channels : List (Channel M)
  pub closed : Bool

abbrev pub capacity : ℕ
capacity = 10

module _ {M : Type 0} where
  unfoldable pub new_channel_demultiplexer : DeMultiplexer M
  new_channel_demultiplexer = record { channels = []; closed = false }

  -- `Close`: the demultiplexer, and the channels that it closes
  pub close : DeMultiplexer M → DeMultiplexer M × List (Channel M)
  close d = (
    record { channels = []; closed = true },
    map (λ (c : Channel M). record c { closed = true }) d.channels,
  )

  unfoldable pub add_channel : (M → Bool) → DeMultiplexer M → DeMultiplexer M
  add_channel pred d = record d {
    channels = d.channels ++ record { pred = pred; queue = []; closed = false } ∷ [];
  }

  -- `ch <- msg`: `none` where the buffer is full, and the sender waits for a receiver
  abbrev pub send : M → Channel M → Option (Channel M)
  send msg c =
      if ltb (length c.queue) capacity
      then some (record c { queue = c.queue ++ msg ∷ [] })
      else none

  unfoldable pub send_loop : M → List (Channel M) → Option (List (Channel M))
  send_loop msg [] = some []
  send_loop msg (c ∷ rest) =
      let others = send_loop msg rest in
      if c.pred msg
      then (send msg c >>= λ c'. others >>= λ cs. some (c' ∷ cs))
      else (others >>= λ cs. some (c ∷ cs))

  -- `DeMultiplex`: `none` where it waits on a full channel
  pub de_multiplex : M → DeMultiplexer M → Option (DeMultiplexer M)
  unfolding send_loop
  de_multiplex msg d =
      if d.closed
      then some d
      else (send_loop msg d.channels >>= λ cs. some (record d { channels = cs }))
