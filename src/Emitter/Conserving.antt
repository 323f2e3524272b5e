-- ===== src/Emitter/Conserving.antt =====
-- Every message is emitted as often as the emitter is configured to (gossip/channel.go).
use grpc_gossip.Prelude.{
  ℕ, ◌+◌, ◌*◌, ◌<◌, ◌≡◌, refl, pos, pos_part, Bool, false, Option, none, some, List, [], ◌∷◌, ◌++◌,
  map, count, count-append, arith, if◌then◌else◌, All, All-append,
}
use native.Mathlib.Nat.{mul-suc}
use grpc_gossip.Emitter.{Batched, Emitter, count_down, emit_buff, emit, entered, add}

-- What happens to an emitter: a message is added, or the timer of `periodicEmit` fires.
pub data Event (M : Type 0) : Type 0 where
  added : M → Event M
  tick : Event M

module _ {M : Type 0} where
  abbrev batch : Option (List M) → List M
  batch none = []
  batch (some ms) = ms

  unfoldable pub step : Event M → Emitter M → Emitter M × Option (List M)
  step (added m) e = add m e
  step tick e = emit e

  -- all that the callback gets, in order
  unfoldable pub run : List (Event M) → Emitter M → Emitter M × List M
  run [] e = (e, [])
  run (ev ∷ evs) e =
      let (e', out) = step ev e in let (e'', outs) = run evs e' in (e'', batch out ++ outs)

  module _ (p : M → Bool) where
    -- how often messages that pass the test were added
    abbrev pub count_added : List (Event M) → ℕ
    count_added [] = 0
    count_added (added m ∷ evs) = let n = count_added evs in if p m then n + 1 else n
    count_added (tick ∷ evs) = count_added evs

    -- how often messages that pass the test are still to be emitted
    abbrev pub pending : List (Batched M) → ℕ
    pending [] = 0
    pending (b ∷ rest) =
        let n = pending rest in if p b.item then n + pos_part b.iterations_left else n

    pending-append : (xs ys : List (Batched M)) → pending (xs ++ ys) ≡ pending xs + pending ys
    pending-append [] ys = omega arith
    pending-append (x ∷ xs) ys = ground (arith, pending-append xs ys)

  abbrev pub HasLeft : Batched M → Type 0
  HasLeft b = 0 < pos_part b.iterations_left

  -- A running emitter, configured for `t` iterations, that keeps no message with none left.
  pub record IsLive (t : ℕ) (e : Emitter M) : Type 0 where
    pub configured : e.iterations ≡ pos t
    pub positive : 0 < t
    pub running : e.stopped ≡ false
    pub left : All HasLeft e.buff

  count_down-HasLeft : (xs : List (Batched M)) → All HasLeft xs → All HasLeft (count_down xs)
  unfolding count_down
  count_down-HasLeft [] h = tt
  count_down-HasLeft (x ∷ xs) h = ground (arith, count_down-HasLeft xs h.1)

  count_down-pending :
      (p : M → Bool) (xs : List (Batched M))
      → All HasLeft xs
      → count p (map (λ x. x.item) xs) + pending p (count_down xs) ≡ pending p xs
  unfolding count_down
  count_down-pending p [] h = omega arith
  count_down-pending p (x ∷ xs) h = ground (arith, count_down-pending p xs h.1)

  module _ (t : ℕ) (p : M → Bool) where
    emit_buff-conserved :
        (xs : List (Batched M)) (e : Emitter M)
        → e.buff ≡ xs
        → All HasLeft xs
        → count p (batch (emit_buff xs e).1) + pending p (emit_buff xs e).0.buff ≡ pending p xs
    unfolding emit_buff
    emit_buff-conserved [] e same h = rw same (omega arith)
    emit_buff-conserved (x ∷ xs) e same h = count_down-pending p (x ∷ xs) h

    emit_buff-IsLive :
        (xs : List (Batched M)) (e : Emitter M)
        → All HasLeft xs
        → IsLive t e
        → IsLive t (emit_buff xs e).0
    unfolding emit_buff
    emit_buff-IsLive [] e h v = v
    emit_buff-IsLive (x ∷ xs) e h v = record {
      configured = v.configured;
      positive = v.positive;
      running = v.running;
      left = count_down-HasLeft (x ∷ xs) h;
    }

    emit-conserved :
        (e : Emitter M)
        → IsLive t e
        → count p (batch (emit e).1) + pending p (emit e).0.buff ≡ pending p e.buff
    unfolding emit
    emit-conserved e v = simp v.running (emit_buff-conserved e.buff e refl v.left)

    emit-IsLive : (e : Emitter M) → IsLive t e → IsLive t (emit e).0
    unfolding emit
    emit-IsLive e v = simp v.running (emit_buff-IsLive e.buff e v.left v)

    entered-IsLive : (m : M) (e : Emitter M) → IsLive t e → IsLive t (entered m e)
    entered-IsLive m e v = record {
      configured = v.configured;
      positive = v.positive;
      running = v.running;
      left =
          All-append HasLeft e.buff (record { item = m; iterations_left = e.iterations } ∷ [])
            v.left (rw v.configured (v.positive, tt));
    }

    entered-pending :
        (m : M) (e : Emitter M)
        → IsLive t e
        → pending p (entered m e).buff ≡ (if p m then pending p e.buff + t else pending p e.buff)
    entered-pending m e v =
        rw (pending-append p e.buff (record { item = m; iterations_left = e.iterations } ∷ []))
          (ground (arith, v.configured))

    add-conserved :
        (m : M) (e : Emitter M)
        → IsLive t e
        → count p (batch (add m e).1) + pending p (add m e).0.buff
          ≡ (if p m then pending p e.buff + t else pending p e.buff)
    unfolding add
    add-conserved m e v = ground (
      arith,
      v.configured,
      entered-pending m e v,
      emit-conserved (entered m e) (entered-IsLive m e v),
    )

    add-IsLive : (m : M) (e : Emitter M) → IsLive t e → IsLive t (add m e).0
    unfolding add
    add-IsLive m e v = ground (
      arith,
      v.configured,
      entered-IsLive m e v,
      emit-IsLive (entered m e) (entered-IsLive m e v),
    )

    -- While the emitter runs, what was pending and `t` for each message added is what the callback has
    -- got and what is still pending: counted over any class of messages, none is lost, and none is
    -- emitted more often than the configured number of times.
    pub run_conserved :
        (evs : List (Event M)) (e : Emitter M)
        → IsLive t e
        → count p (run evs e).1 + pending p (run evs e).0.buff
          ≡ pending p e.buff + t * count_added p evs
    unfolding run step
    run_conserved [] e v = omega arith
    run_conserved (added m ∷ evs) e v = ground (
      arith,
      count-append p (batch (add m e).1) (run evs (add m e).0).1,
      run_conserved evs (add m e).0 (add-IsLive m e v),
      add-conserved m e v,
      mul-suc t (count_added p evs),
    )
    run_conserved (tick ∷ evs) e v = ground (
      arith,
      count-append p (batch (emit e).1) (run evs (emit e).0).1,
      run_conserved evs (emit e).0 (emit-IsLive e v),
      emit-conserved e v,
    )

    -- An emitter that has emptied its buffer has emitted every message exactly `t` times.
    pub emitted_exactly :
        (evs : List (Event M)) (e : Emitter M)
        → IsLive t e
        → e.buff ≡ []
        → (run evs e).0.buff ≡ []
        → count p (run evs e).1 ≡ t * count_added p evs
    emitted_exactly evs e v start done = ground (arith, run_conserved evs e v)
