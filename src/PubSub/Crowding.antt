-- ===== src/PubSub/Crowding.antt =====
-- Publishers at once (gossip/common.go, PubSub.Publish).
use grpc_gossip.Prelude.{
  ℕ, zero, suc, ◌*◌, ◌≤◌, ◌≡◌, refl, Str, false, Option, none, some, List, [], ◌∷◌, ◌++◌, length,
  length-append, Map, get, put, get-put, nat_eq, string_eq, arith, Option-cases, Bool-cases, inl,
  inr, ==_iff, ◌>>=◌, ◌∙◌, sym,
}
use grpc_gossip.Errors.{ok}
use grpc_gossip.PubSub.{
  subscription_buff_size, Subscription, PubSub, Publisher, set_at, is_full, pushed, offer,
  offer_all, publish, publisher_step, start_publish, listen,
}

put_same : {V : Type 0} → (m : Map ℕ V) (k : ℕ) (v : V) → get m k ≡ some v → put m k v ≡ m
unfolding get put
put_same [] k v h = absurd (ground arith)
put_same ((j, w) ∷ m) k v h = ground (arith, put_same m k v, ==_iff j k, h)

module _ {I : Type 0} where
  -- Two publishers that have each found room in a buffer in which just one item still fits, whatever
  -- they have before them otherwise: the first sends, and the second waits; when an item has been
  -- received from that buffer, it sends too.
  pub publishers_wait :
      (n : ℕ) (s : Subscription I) (first : I) (rest : List I) (p q : Publisher I) (ps : PubSub I)
      (ns ms : List ℕ)
      → get ps.subs n ≡ some s
      → s.buffer ≡ first ∷ rest
      → suc (length s.buffer) ≡ subscription_buff_size
      → p.sending ≡ none
      → q.sending ≡ none
      → p.left ≡ n ∷ ns
      → q.left ≡ n ∷ ms
      → (p1 : Publisher I) × (q1 : Publisher I) × (p2 : Publisher I) × (ps' : PubSub I)
        × (ps2 : PubSub I) × (q2 : Publisher I) × (ps3 : PubSub I) × (publisher_step p ps
            ≡ some (p1, ps))
        × (publisher_step q ps ≡ some (q1, ps))
        × (publisher_step p1 ps ≡ some (p2, ps'))
        × (publisher_step q1 ps' ≡ none)
        × (listen false n ps' ≡ some (ps2, ok first))
        × (publisher_step q1 ps2 ≡ some (q2, ps3))
  unfolding publisher_step listen
  publishers_wait n s first rest p q ps ns ms found holds almost idle idle' next next' =
      let s' = pushed p.item s in
      let ps' = record ps { subs = put ps.subs n s' } in
      let s2 = record s' { buffer = rest ++ p.item ∷ [] } in
      let ps2 = record ps' { subs = put ps'.subs n s2 } in
      let long = length-append s.buffer (p.item ∷ []) in
      let short = length-append rest (p.item ∷ []) in
      (
        record p { left = ns; sending = some n },
        record q { left = ms; sending = some n },
        record p { left = ns; sending = none },
        ps',
        ps2,
        record q { left = ms; sending = none },
        record ps2 { subs = put ps2.subs n (pushed q.item s2) },
        ground (arith, found, almost, idle, next),
        ground (arith, found, almost, idle', next'),
        ground (arith, found, almost),
        ground (arith, get-put ps.subs n n s', ==_iff n n, long, almost),
        ground (arith, get-put ps.subs n n s', ==_iff n n, holds),
        ground (arith, get-put ps'.subs n n s2, ==_iff n n, short, almost, holds),
      )

  -- a Publish that goes on alone for at most so many steps
  unfoldable pub run_publisher : ℕ → Publisher I → PubSub I → Option (Publisher I × PubSub I)
  unfolding publisher_step
  run_publisher zero p ps = some (p, ps)
  run_publisher (suc n) p ps = publisher_step p ps >>= λ (p', ps'). run_publisher n p' ps'

  abbrev at_rest : I → List ℕ → Publisher I
  at_rest item ns = record { item = item; left = ns; sending = none }

  run_done :
      (n : ℕ) (item : I) (ps : PubSub I)
      → run_publisher n (at_rest item []) ps ≡ some (at_rest item [], ps)
  unfolding run_publisher
  run_done zero item ps = refl
  run_done (suc n) item ps = run_done n item ps

  run_step :
      (n : ℕ) (p p' : Publisher I) (ps ps' : PubSub I)
      → publisher_step p ps ≡ some (p', ps')
      → run_publisher (suc n) p ps ≡ run_publisher n p' ps'
  unfolding run_publisher
  run_step n p p' ps ps' stepped = rw (run_publisher, stepped) refl

  run_alone :
      (n : ℕ) (item : I) (ns : List ℕ) (ps : PubSub I)
      → 2 * length ns ≤ n
      → run_publisher n (at_rest item ns) ps
        ≡ some (at_rest item [], record ps { subs = offer_all item ns ps.subs })
  unfolding offer_all publisher_step
  run_alone n item [] ps h = run_done n item ps
  run_alone zero item (k ∷ ns) ps h = absurd (omega (arith, h))
  run_alone (suc zero) item (k ∷ ns) ps h = absurd (omega (arith, h))
  run_alone (suc (suc n)) item (k ∷ ns) ps h =
      let now = at_rest item (k ∷ ns) in
      let next = at_rest item ns in
      elim (Option-cases (get ps.subs k)) [
        | inl unknown ↦
            let skipped : publisher_step now ps ≡ some (next, ps) = ground (arith, unknown) in
            run_step (suc n) now next ps ps skipped
            ∙ (run_alone (suc n) item ns ps (omega (arith, h)) ∙ rw unknown refl)
        | inr (s, found) ↦ elim (Bool-cases (is_full s)) [
          | inl full ↦
              let skipped : publisher_step now ps ≡ some (next, ps) = ground (arith, found, full) in
              let same : offer item s ≡ s = ground (arith, full) in
              run_step (suc n) now next ps ps skipped
              ∙ (run_alone (suc n) item ns ps (omega (arith, h))
                  ∙ sym (rw (found, same, put_same ps.subs k s found) refl))
          | inr room ↦
              let testing = record next { sending = some k } in
              let after = record ps { subs = put ps.subs k (pushed item s) } in
              let tests : publisher_step now ps ≡ some (testing, ps) =
                ground (arith, found, room) in
              let sends : publisher_step testing ps ≡ some (next, after) =
                ground (arith, found, room) in
              run_step (suc n) now testing ps ps tests
              ∙ (run_step n testing next ps after sends
                  ∙ (run_alone n item ns after (omega (arith, h)) ∙ rw (found, room) refl))
        ]
      ]

  -- A Publish that no other publisher comes between is done after at most two steps for each subscription
  -- of the topic, without a wait, and has done what `publish` describes: an item to each buffer that is
  -- not full.
  pub publish_alone :
      (topic : Str) (item : I) (p : Publisher I) (ps : PubSub I) (n : ℕ)
      → start_publish topic item ps ≡ ok p
      → 2 * length p.left ≤ n
      → run_publisher n p ps
        ≡ some (record { item = item; left = []; sending = none }, (publish topic item ps).0)
  unfolding start_publish publish
  publish_alone topic item p ps n started enough =
      elim (Option-cases (get ps.subscriptions topic)) [
        | inl nobody ↦ absurd (ground (arith, nobody, started))
        | inr (k, found) ↦
            let same : p ≡ at_rest item (set_at ps k) = ground (arith, found, started) in
            let few : 2 * length (set_at ps k) ≤ n = rw same at enough in
            rw (same, publish, found) (run_alone n item (set_at ps k) ps few)
      ]
