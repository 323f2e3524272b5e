-- ===== src/Selecting/Passing.antt =====
-- What the filter of SelectPeers ensures (gossip/filter.go).
use mathlib.Core.List.{Memᴰ}
use grpc_gossip.Prelude.{
  ℕ, zero, suc, ℤ, arith, ◌≡◌, true, some, List, [], ◌∷◌, ◌++◌, length, get_elem?, eq_ℕ, All,
  All-append, Holds, Holds-bind, choose, Bool-cases, inl, inr,
}
use grpc_gossip.Selecting.{Peer, RemotePeer, RoutingFilter, remote, select_loop, select_peers}

elem-Mem : (pool : List Peer) (i : ℕ) (p : Peer) → get_elem? pool i ≡ some p → Memᴰ p pool
elem-Mem [] i p e = absurd (ground arith)
elem-Mem (q ∷ pool) zero p e = Memᴰ.head (ground (arith, e))
elem-Mem (q ∷ pool) (suc i) p e = Memᴰ.tail (elem-Mem pool i p e)

module _ (Q : RemotePeer → Type 0) (f : RoutingFilter) (pool : List Peer)
    (h : (q : Peer) → Memᴰ q pool → f q ≡ true → Q (remote q)) where
  select_loop-All :
      (k : ℤ) (perm : List ℕ) (res : List RemotePeer)
      → All Q res
      → Holds (All Q) (select_loop k pool f perm res)
  unfolding select_loop
  select_loop-All k [] res a = a
  select_loop-All k (i ∷ perm) res a = choose (Holds (All Q)) (eq_ℕ k (length res)) (some res) _ a (
      Holds-bind (All Q) (get_elem? pool i) _ (λ p found. elim (Bool-cases (f p)) [
        | inl fits ↦ rw fits (
            select_loop-All k perm (res ++ remote p ∷ [])
              (All-append Q res (remote p ∷ []) a (h p (elem-Mem pool i p found) fits, tt)))
        | inr fails ↦ rw fails (select_loop-All k perm res a)
      ]))

  -- what the remote peers of all that pass the filter have, the selected peers have
  pub select_peers-All : (k : ℤ) (perm : List ℕ) → Holds (All Q) (select_peers k pool f perm)
  unfolding select_peers
  select_peers-All k perm = select_loop-All k perm [] tt
