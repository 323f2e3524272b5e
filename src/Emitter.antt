-- ===== src/Emitter.antt =====
-- The batching emitter (gossip/channel.go, BatchingEmitter), over messages of any type. A method
-- returns the new state and the batch that the callback is called on, if it is called.
pub mod Conserving
use grpc_gossip.Prelude.{
  ℕ, ◌+◌, ◌*◌, ℤ, pos, pred_ℤ, is_zero_ℤ, le_ℕ, pos_part, Bool, true, false, Option, none, some,
  List, [], ◌∷◌, ◌++◌, length, map, if◌then◌else◌,
}

-- `batchedMessage`
pub record Batched (M : Type 0) : Type 0 where
  pub item : M
  pub iterations_left : ℤ

pub record Emitter (M : Type 0) : Type 0 where
  pub iterations : ℤ
  pub burst_size : ℤ
  pub buff : List (Batched M)
  pub stopped : Bool

module _ {M : Type 0} where
  -- the second loop of `emit`: one iteration less for each, and those with none left dropped
  unfoldable pub count_down : List (Batched M) → List (Batched M)
  count_down [] = []
  count_down (b ∷ rest) =
      let kept = count_down rest in
      let left = pred_ℤ b.iterations_left in
      if is_zero_ℤ left then kept else record b { iterations_left = left } ∷ kept

  emit_buff : List (Batched M) → Emitter M → Emitter M × Option (List M)
  emit_buff [] e = (e, none)
  emit_buff (b ∷ rest) e =
      (record e { buff = count_down (b ∷ rest) }, some (map (λ x. x.item) (b ∷ rest)))

  unfoldable pub emit : Emitter M → Emitter M × Option (List M)
  unfolding emit_buff
  emit e = if e.stopped then (e, none) else emit_buff e.buff e

  abbrev entered : M → Emitter M → Emitter M
  entered m e = record e {
    buff = e.buff ++ record { item = m; iterations_left = e.iterations } ∷ [];
  }

  unfoldable pub add : M → Emitter M → Emitter M × Option (List M)
  unfolding emit
  add m e =
      if is_zero_ℤ e.iterations
      then (e, none)
      else if le_ℕ e.burst_size (length (entered m e).buff)
      then emit (entered m e)
      else (entered m e, none)

  -- `Size`
  abbrev pub size : Emitter M → ℕ
  size e = length e.buff

  unfoldable pub stop : Emitter M → Emitter M
  stop e = record e { stopped = true }
