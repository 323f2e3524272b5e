-- ===== src/Store/Adding.antt =====
-- Add and CheckValid of the message store (gossip/msg.go).
use grpc_gossip.Prelude.{
  ℕ, ◌≡◌, refl, ◌≢◌, List, [], ◌∷◌, ◌++◌, map, Bool, true, false, not, Option, some, arith, filter,
  ◌>>=◌, All, AllPairs, AllPairs-filter, AllPairs-snoc, Option-cases, Bool-cases, inl, inr,
}
use mathlib.Core.Path.{subst}
use grpc_gossip.Policy.{
  InvalidationResult, no_action, invalidates, invalidated, MessageReplacingPolicy, PolicyLaws,
}
use grpc_gossip.Store.{Stored, MessageStore, add_loop, add, check_valid_loop, check_valid}

abbrev pub is_invalidates : Option InvalidationResult → Bool
is_invalidates (some invalidates) = true
is_invalidates _ = false

is_invalidates→eq : (r : Option InvalidationResult) → is_invalidates r ≡ true → r ≡ some invalidates
is_invalidates→eq r h = ground arith

abbrev pub fresh : {M : Type 0} → ℕ → M → Stored M
fresh now m = record { item = m; created = now; expired = false }

abbrev pub items : {M : Type 0} → List (Stored M) → List M
items = map (λ s. s.item)

module _ {M : Type 0} (policy : MessageReplacingPolicy M) where
  -- the stored messages that a new one replaces, and those that it leaves
  abbrev pub replaced : M → List (Stored M) → List (Stored M)
  replaced m = filter (λ s. is_invalidates (policy m s.item))

  abbrev pub survivors : M → List (Stored M) → List (Stored M)
  survivors m = filter (λ s. not (is_invalidates (policy m s.item)))

  add_loop_valid :
      (m : M) (xs : List (Stored M))
      → check_valid_loop policy m xs ≡ some true
      → add_loop policy m xs ≡ some (survivors m xs, items (replaced m xs), true)
  unfolding add_loop check_valid_loop
  add_loop_valid m [] h = refl
  add_loop_valid m (x ∷ xs) h = ground (arith, add_loop_valid m xs)

  add_loop_outcome :
      (m : M) (xs : List (Stored M))
      → (add_loop policy m xs >>= λ r. some r.2) ≡ check_valid_loop policy m xs
  unfolding add_loop check_valid_loop
  add_loop_outcome m [] = refl
  add_loop_outcome m (x ∷ xs) = ground (arith, add_loop_outcome m xs)

  -- `Add` accepts a message exactly if `CheckValid` does, and panics exactly if it does.
  pub add-check_valid :
      (now : ℕ) (m : M) (s : MessageStore M)
      → check_valid policy m s ≡ (add policy now m s >>= λ r. some r.2)
  unfolding add check_valid
  add-check_valid now m s = ground (arith, add_loop_outcome m s.messages)

  -- A message that `CheckValid` accepts goes to the end, behind the stored messages that it does not
  -- replace, in their order, and the trigger is called on those that it replaces, in order.
  pub add_valid :
      (now : ℕ) (m : M) (s : MessageStore M)
      → check_valid policy m s ≡ some true
      → add policy now m s
        ≡ some (
          record s {
            messages =
                survivors m s.messages ++ record { item = m; created = now; expired = false } ∷ [];
          },
          items (replaced m s.messages),
          true,
        )
  unfolding add check_valid
  add_valid now m s h = rw (add_loop_valid m s.messages h)

  -- the store and the dropped messages of an accepted `Add`
  pub accepted :
      (now : ℕ) (m : M) (s s' : MessageStore M) (dropped : List M)
      → add policy now m s ≡ some (s', dropped, true)
      → (s'.messages ≡ survivors m s.messages ++ fresh now m ∷ [])
        × (s'.expired_count ≡ s.expired_count)
        × (dropped ≡ items (replaced m s.messages))
        × (check_valid policy m s ≡ some true)
  accepted now m s s' dropped e =
      let valid : check_valid policy m s ≡ some true = ground (arith, add-check_valid now m s) in
      ground (arith, add_valid now m s valid)

  -- No stored message has anything to say about another.
  abbrev pub Unrelated : Stored M → Stored M → Type 0
  Unrelated x y = (policy x.item y.item ≡ some no_action) × (policy y.item x.item ≡ some no_action)

  abbrev pub IsCoherent : MessageStore M → Type 0
  IsCoherent s = AllPairs Unrelated s.messages

  -- a message that replaces a stored one is not refused because of an unrelated one
  valid_beyond :
      (laws : PolicyLaws policy) (m : M) (x : Stored M) (xs : List (Stored M))
      → policy m x.item ≡ some invalidates
      → All (Unrelated x) xs
      → check_valid_loop policy m xs ≢ some false
  unfolding check_valid_loop
  valid_beyond laws m x [] p u = ground arith
  valid_beyond laws m x (y ∷ ys) p u =
      ground (arith, laws.between m x.item y.item, valid_beyond laws m x ys)

  refused_loop :
      (laws : PolicyLaws policy) (m : M) (xs : List (Stored M))
      → AllPairs Unrelated xs
      → check_valid_loop policy m xs ≡ some false
      → add_loop policy m xs ≡ some (xs, [], false)
  unfolding add_loop check_valid_loop
  refused_loop laws m [] c h = cc
  refused_loop laws m (x ∷ xs) c h =
      ground (arith, refused_loop laws m xs c.1, valid_beyond laws m x xs)

  -- In a coherent store a refused message changes nothing, and the trigger is not called.
  add_refused :
      (laws : PolicyLaws policy) (now : ℕ) (m : M) (s : MessageStore M)
      → IsCoherent s
      → check_valid policy m s ≡ some false
      → add policy now m s ≡ some (s, [], false)
  unfolding add check_valid
  add_refused laws now m s c h = rw (refused_loop laws m s.messages c h)

  pub survivors-Unrelated :
      (laws : PolicyLaws policy) (m : M) (x : Stored M) (xs : List (Stored M))
      → x.item ≡ m
      → check_valid_loop policy m xs ≡ some true
      → All (λ y. Unrelated y x) (survivors m xs)
  unfolding check_valid_loop
  survivors-Unrelated laws m x [] e h = tt
  survivors-Unrelated laws m x (y ∷ ys) e h =
      ground (arith, survivors-Unrelated laws m x ys e, laws.symmetric m y.item)

  -- Whatever `Add` does with a message, the store stays coherent: it never holds two messages of which
  -- one is out of date by the other.
  pub add-IsCoherent :
      (laws : PolicyLaws policy) (now : ℕ) (m : M) (s s' : MessageStore M) (dropped : List M)
      (new : Bool)
      → IsCoherent s
      → add policy now m s ≡ some (s', dropped, new)
      → IsCoherent s'
  add-IsCoherent laws now m s s' dropped new c e = elim (Option-cases (check_valid policy m s)) [
    | inl panic ↦ absurd (ground (arith, add-check_valid now m s))
    | inr (true, valid) ↦
        let same : s'.messages ≡ survivors m s.messages ++ fresh now m ∷ [] =
          ground (arith, add_valid now m s valid) in
        rw same (
          AllPairs-snoc Unrelated (fresh now m) (survivors m s.messages)
            (AllPairs-filter Unrelated (λ x. not (is_invalidates (policy m x.item))) s.messages c)
            (unfold check_valid in survivors-Unrelated laws m (fresh now m) s.messages refl valid))
    | inr (false, refused) ↦
        let same : s ≡ s' = ground (arith, add_refused laws now m s c refused) in
        subst IsCoherent same c
  ]

  blocked_behind :
      (d : M) (x : Stored M) (xs : List (Stored M))
      → policy d x.item ≡ some invalidated
      → check_valid_loop policy d (xs ++ x ∷ []) ≢ some true
  unfolding check_valid_loop
  blocked_behind d x [] p = ground arith
  blocked_behind d x (y ∷ ys) p = ground (arith, blocked_behind d x ys p)

  replaced_blocked :
      (laws : PolicyLaws policy) (m : M) (x : Stored M) (ys xs : List (Stored M))
      → x.item ≡ m
      → All (λ d. check_valid_loop policy d (ys ++ x ∷ []) ≢ some true) (items (replaced m xs))
  replaced_blocked laws m x ys [] e = tt
  replaced_blocked laws m x ys (y ∷ xs) e = elim (Bool-cases (is_invalidates (policy m y.item))) [
    | inl older ↦ rw older (
      blocked_behind y.item x ys
          (rw e (laws.inverse m y.item (is_invalidates→eq (policy m y.item) older))),
      replaced_blocked laws m x ys xs e,
    )
    | inr other ↦ rw other (replaced_blocked laws m x ys xs e)
  ]

  -- A message that a newer one has replaced does not come back: `CheckValid` does not accept it any
  -- more, and so `Add` does not either.
  pub replaced_stay_out :
      (laws : PolicyLaws policy) (now : ℕ) (m : M) (s s' : MessageStore M) (dropped : List M)
      → add policy now m s ≡ some (s', dropped, true)
      → All (λ d. check_valid policy d s' ≢ some true) dropped
  unfolding check_valid
  replaced_stay_out laws now m s s' dropped e =
      let (same, _, gone, _) = accepted now m s s' dropped e in
      rw (gone, same)
        (replaced_blocked laws m (fresh now m) (survivors m s.messages) s.messages refl)
