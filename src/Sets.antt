-- ===== src/Sets.antt =====
-- The set of gossip/common.go (Set), as the list of its items. Its map's order is the list's: a
-- theorem about every list is one about every order.
use grpc_gossip.Prelude.{Bool, false, ◌≡◌, ◌||◌, List, [], ◌∷◌, ◌++◌, Eq, if◌then◌else◌, arith}

module _ {A : Type 0} ⦃e : Eq A⦄ where
  unfoldable pub exists : List A → A → Bool
  exists [] a = false
  exists (x ∷ s) a = e.beq x a || exists s a

  unfoldable pub add : List A → A → List A
  unfolding exists
  add s a = if exists s a then s else s ++ a ∷ []

  unfoldable pub remove : List A → A → List A
  remove [] a = []
  remove (x ∷ s) a = let rest = remove s a in if e.beq x a then rest else x ∷ rest

  exists-append : (s : List A) (a b : A) → exists (s ++ a ∷ []) b ≡ exists s b || e.beq a b
  unfolding exists
  exists-append [] a b = ground arith
  exists-append (x ∷ s) a b = ground (arith, exists-append s a b)

  exists-add : (s : List A) (a b : A) → exists (add s a) b ≡ exists s b || e.beq a b
  unfolding add
  exists-add s a b = ground (arith, exists-append s a b, e.beq_iff a b)

  exists-remove :
      (s : List A) (a b : A) → exists (remove s a) b ≡ (if e.beq a b then false else exists s b)
  unfolding exists remove
  exists-remove [] a b = ground arith
  exists-remove (x ∷ s) a b =
      ground (arith, exists-remove s a b, e.beq_iff a b, e.beq_iff x a, e.beq_iff x b)
