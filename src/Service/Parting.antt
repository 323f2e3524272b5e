-- ===== src/Service/Parting.antt =====
-- The parts of a batch (gossip/gossip.go: partitionMessages, removeSelfLoop).
use mathlib.Core.List.{Memᴰ}
use grpc_gossip.Prelude.{
  ◌≡◌, refl, Slice, Bool, true, false, Option, some, List, [], ◌∷◌, All, Holds, Holds-some,
  Holds-bind, Bool-cases, inl, inr, if◌then◌else◌,
}
use grpc_gossip.Selecting.{RemotePeer}
use grpc_gossip.Service.Forwarding.{partition_messages, remove_self_loop}
use grpc_gossip.Service.Batches.{Emitted, partition_checked}

-- what all elements have, both parts of a partition have; and the test tells which part an element is in
module _ {ℓ κ} {A : Type ℓ} (P : A → Type κ) (pred : A → Bool) where
  pub partition-All :
      (xs : List A)
      → All P xs
      → All (λ x. P x × (pred x ≡ true)) (partition_messages pred xs).0
        × All (λ x. P x × (pred x ≡ false)) (partition_messages pred xs).1
  unfolding partition_messages
  partition-All [] h = (tt, tt)
  partition-All (x ∷ xs) h =
      let ih = partition-All xs h.1 in
      elim (Bool-cases (pred x)) [
        | inl picked ↦ rw picked (((h.0, picked), ih.0), ih.1)
        | inr left ↦ rw left (ih.0, ((h.0, left), ih.1))
      ]

pub remove_self_loop-All :
    (Q : RemotePeer → Type 0) (f : Slice → Bool) (peers : List RemotePeer)
    → All Q peers
    → All (λ p. Q p × (f p.pki_id ≡ true)) (remove_self_loop f peers)
unfolding remove_self_loop
remove_self_loop-All Q f [] h = tt
remove_self_loop-All Q f (p ∷ peers) h =
    let ih = remove_self_loop-All Q f peers h.1 in
    elim (Bool-cases (f p.pki_id)) [
      | inl picked ↦ rw picked ((h.0, picked), ih)
      | inr left ↦ rw left ih
    ]

module _ {ℓ} (P : Emitted → Type ℓ) (pred : Emitted → Option Bool) where
  abbrev pub Parts : List Emitted × List Emitted → Type ℓ
  Parts (s1, s2) =
      All (λ e. P e × (pred e ≡ some true)) s1 × All (λ e. P e × (pred e ≡ some false)) s2

  pub partition_checked-All :
      (es : List Emitted) → All P es → Holds Parts (partition_checked pred es)
  unfolding partition_checked
  partition_checked-All [] h = (tt, tt)
  partition_checked-All (e ∷ es) h = Holds-bind Parts (pred e) _ (λ picked found.
      Holds-bind Parts (partition_checked pred es) _ (λ (s1, s2) done.
        let ih = Holds-some Parts _ (s1, s2) (partition_checked-All es h.1) done in
        sorted e s1 s2 picked h.0 found ih))
    where
      sorted :
          (e : Emitted) (s1 s2 : List Emitted) (picked : Bool)
          → P e
          → pred e ≡ some picked
          → Parts (s1, s2)
          → Parts (if picked then (e ∷ s1, s2) else (s1, e ∷ s2))
      sorted e s1 s2 true h found (a, b) = (((h, found), a), b)
      sorted e s1 s2 false h found (a, b) = (a, ((h, found), b))

pub All-Mem {ℓ} : {A : Type ℓ} (xs : List A) → All (λ x. Memᴰ x xs) xs
All-Mem xs = go xs (λ x m. m)
  where
    go : (ys : List _) → ((x : _) → Memᴰ x ys → Memᴰ x xs) → All (λ x. Memᴰ x xs) ys
    go [] f = tt
    go (y ∷ ys) f = (f y (Memᴰ.head refl), go ys (λ x m. f x (Memᴰ.tail m)))
