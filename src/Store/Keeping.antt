-- ===== src/Store/Keeping.antt =====
-- What holds of all messages of a store (gossip/msg.go): Add and the expiry bring in nothing else.
use grpc_gossip.Prelude.{
  ℕ, ◌≡◌, List, [], ◌∷◌, ◌++◌, Bool, true, false, Option, none, some, ◌>>=◌, All, All-append, Holds,
  Holds-some, Option-cases, inl, inr, arith,
}
use grpc_gossip.Policy.{
  InvalidationResult, no_action, invalidates, invalidated, MessageReplacingPolicy,
}
use grpc_gossip.Store.{Stored, MessageStore, add_loop, add}

module _ {M : Type 0} (P : M → Type 0) where
  abbrev pub AllStored : List (Stored M) → Type 0
  AllStored = All (λ x. P x.item)

  abbrev Kept : List (Stored M) × List M × Bool → Type 0
  Kept (kept, dropped, new) = AllStored kept × All P dropped

  Kept-keep :
      (x : Stored M) (r : Option (List (Stored M) × List M × Bool))
      → P x.item
      → Holds Kept r
      → Holds Kept (r >>= λ (kept, dropped, new). some (x ∷ kept, dropped, new))
  Kept-keep x none p h = tt
  Kept-keep x (some (kept, dropped, new)) p h = ((p, h.0), h.1)

  Kept-drop :
      (x : Stored M) (r : Option (List (Stored M) × List M × Bool))
      → P x.item
      → Holds Kept r
      → Holds Kept (r >>= λ (kept, dropped, new). some (kept, x.item ∷ dropped, new))
  Kept-drop x none p h = tt
  Kept-drop x (some (kept, dropped, new)) p h = (h.0, (p, h.1))

  abbrev turn :
      Stored M
      → List (Stored M)
      → Option (List (Stored M) × List M × Bool)
      → InvalidationResult
      → Option (List (Stored M) × List M × Bool)
  turn x xs rest invalidated = some (x ∷ xs, [], false)
  turn x xs rest invalidates = rest >>= λ (kept, dropped, new). some (kept, x.item ∷ dropped, new)
  turn x xs rest no_action = rest >>= λ (kept, dropped, new). some (x ∷ kept, dropped, new)

  Kept-turn :
      (x : Stored M) (xs : List (Stored M)) (rest : Option (List (Stored M) × List M × Bool))
      (o : Option InvalidationResult)
      → P x.item
      → AllStored xs
      → Holds Kept rest
      → Holds Kept (o >>= turn x xs rest)
  Kept-turn x xs rest none p ps h = tt
  Kept-turn x xs rest (some invalidated) p ps h = ((p, ps), tt)
  Kept-turn x xs rest (some invalidates) p ps h = Kept-drop x rest p h
  Kept-turn x xs rest (some no_action) p ps h = Kept-keep x rest p h

  module _ (policy : MessageReplacingPolicy M) where
    add_loop-turn :
        (m : M) (x : Stored M) (xs : List (Stored M))
        → add_loop policy m (x ∷ xs) ≡ (policy m x.item >>= turn x xs (add_loop policy m xs))
    unfolding add_loop
    add_loop-turn m x xs = ground arith

    add_loop-Kept :
        (m : M) (xs : List (Stored M)) → AllStored xs → Holds Kept (add_loop policy m xs)
    add_loop-Kept m [] h = unfold add_loop in (tt, tt)
    add_loop-Kept m (x ∷ xs) h =
        rw (add_loop-turn m x xs)
          (Kept-turn x xs (add_loop policy m xs) (policy m x.item) h.0 h.1 (add_loop-Kept m xs h.1))

    -- a store keeps what holds of its messages and of the new one; what it drops has it too
    pub add-All :
        (now : ℕ) (m : M) (s s' : MessageStore M) (dropped : List M) (new : Bool)
        → P m
        → AllStored s.messages
        → add policy now m s ≡ some (s', dropped, new)
        → AllStored s'.messages × All P dropped
    unfolding add
    add-All now m s s' dropped new p h e = elim (Option-cases (add_loop policy m s.messages)) [
      | inl panic ↦ absurd (ground (arith, panic, e))
      | inr ((kept, gone, true), done) ↦
          let k = Holds-some Kept _ (kept, gone, true) (add_loop-Kept m s.messages h) done in
          let same : s'.messages
              ≡ kept ++ record { item = m; created = now; expired = false } ∷ [] =
            ground (arith, done, e) in
          let dropped_same : dropped ≡ gone = ground (arith, done, e) in
          rw (same, dropped_same) (All-append (λ x. P x.item) kept _ k.0 (p, tt), k.1)
      | inr ((kept, gone, false), done) ↦
          let k = Holds-some Kept _ (kept, gone, false) (add_loop-Kept m s.messages h) done in
          let same : s'.messages ≡ kept = ground (arith, done, e) in
          let dropped_same : dropped ≡ gone = ground (arith, done, e) in rw (same, dropped_same) k
    ]
