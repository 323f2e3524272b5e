-- ===== src/Store/Repeating.antt =====
-- A message that is added twice (gossip/msg.go, MessageStore.Add).
use grpc_gossip.Prelude.{ℕ, ◌≡◌, refl, List, [], ◌∷◌, ◌++◌, true, false, some, arith, All}
use grpc_gossip.Policy.{invalidated, MessageReplacingPolicy, PolicyLaws}
use grpc_gossip.Store.{Stored, MessageStore, add_loop, add, check_valid}
use grpc_gossip.Store.Adding.{Unrelated, accepted, survivors, survivors-Unrelated, fresh}

module _ {M : Type 0} (policy : MessageReplacingPolicy M) where
  stopped_by_itself :
      (m : M) (x : Stored M) (xs : List (Stored M))
      → x.item ≡ m
      → policy m m ≡ some invalidated
      → All (λ y. Unrelated policy y x) xs
      → add_loop policy m (xs ++ x ∷ []) ≡ some (xs ++ x ∷ [], [], false)
  unfolding add_loop
  stopped_by_itself m x [] same p u = ground (arith, same, p)
  stopped_by_itself m x (y ∷ ys) same p u =
      ground (arith, same, u.0, stopped_by_itself m x ys same p u.1)

  -- A message that leaves itself out of date is accepted at most once: added again, it is refused,
  -- nothing changes and the trigger is not called.
  pub add_twice :
      (laws : PolicyLaws policy) (now later : ℕ) (m : M) (s s' : MessageStore M) (dropped : List M)
      → policy m m ≡ some invalidated
      → add policy now m s ≡ some (s', dropped, true)
      → add policy later m s' ≡ some (s', [], false)
  unfolding add check_valid
  add_twice laws now later m s s' dropped p e =
      let (same, _, _, valid) = accepted policy now m s s' dropped e in
      let stopped =
        stopped_by_itself m (fresh now m) (survivors policy m s.messages) refl p
          (survivors-Unrelated policy laws m (fresh now m) s.messages refl valid) in
      ground (arith, same, stopped)
