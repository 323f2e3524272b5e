-- ===== src/Selecting/Chosen.antt =====
-- Which peers are selected (gossip/filter.go).
use mathlib.Core.List.{append_assoc, append-nil, Permᴰ}
use Prim.Native.Nat.{min}
use mathlib.Core.Path.{subst}
use grpc_gossip.Prelude.{
  ℕ, zero, suc, ◌+◌, ◌≤◌, ◌<◌, ◌≡◌, refl, sym, ◌∙◌, ◌↔◌, ℤ, pos, negsuc, Bool, true, none, some,
  List, [], ◌∷◌, ◌++◌, length, length-append, map, get_elem?, take, filter, count, length-filter,
  arith, ◌==◌, All, Bool-cases, inl, inr, ap,
}
use grpc_gossip.Random.{count_from}
use grpc_gossip.Selecting.{
  Peer, RemotePeer, RoutingFilter, remote, combine_routing_filters, select_loop, select_peers,
}

-- A combined filter passes a peer exactly if each of the filters does.
combine_routing_filters_iff :
    (filters : List RoutingFilter) (peer : Peer)
    → (combine_routing_filters filters peer ≡ true) ↔ All (λ f. f peer ≡ true) filters
unfolding combine_routing_filters
combine_routing_filters_iff [] peer = ((λ h. tt), (λ h. refl))
combine_routing_filters_iff (f ∷ filters) peer =
    let ih = combine_routing_filters_iff filters peer in
    ((λ h. (ground arith, ih.0 (ground arith))), (λ h. ground (arith, ih.1 h.1)))

-- the peers at the indices
abbrev pub at : List Peer → List ℕ → List Peer
at pool [] = []
at pool (i ∷ is) =
    let rest = at pool is in elim (get_elem? pool i) [ none ↦ rest | some p ↦ p ∷ rest ]

-- at most k, for a k that is not negative
abbrev pub at_most {ℓ} : {A : Type ℓ} → ℤ → List A → List A
at_most (pos k) xs = take k xs
at_most (negsuc k) xs = xs

in_range : (pool : List Peer) (i : ℕ) → i < length pool → (p : Peer) × (get_elem? pool i ≡ some p)
in_range [] i h = absurd (omega arith)
in_range (q ∷ pool) zero h = (q, refl)
in_range (q ∷ pool) (suc i) h = in_range pool i (omega arith)

module _ (pool : List Peer) (f : RoutingFilter) where
  select_limited :
      (k j : ℕ) (is : List ℕ) (res : List RemotePeer)
      → All (λ i. i < length pool) is
      → k ≡ length res + j
      → select_loop (pos k) pool f is res
        ≡ some (res ++ map remote (take j (filter f (at pool is))))
  unfolding select_loop
  select_limited k zero [] res h e = rw append-nil
  select_limited k (suc j) [] res h e = rw append-nil
  select_limited k zero (i ∷ is) res h e =
      let full : (k == length res) ≡ true = ground arith in rw (full, append-nil)
  select_limited k (suc j) (i ∷ is) res h e =
      let (p, found) = in_range pool i h.0 in
      ground (
        arith,
        found,
        select_limited k (suc j) is res h.1,
        select_limited k j is (res ++ remote p ∷ []) h.1,
        length-append res (remote p ∷ []),
        append_assoc res (remote p ∷ []) (map remote (take j (filter f (at pool is)))),
      )

  select_unlimited :
      (k : ℕ) (is : List ℕ) (res : List RemotePeer)
      → All (λ i. i < length pool) is
      → select_loop (negsuc k) pool f is res ≡ some (res ++ map remote (filter f (at pool is)))
  unfolding select_loop
  select_unlimited k [] res h = rw append-nil
  select_unlimited k (i ∷ is) res h =
      let (p, e) = in_range pool i h.0 in
      ground (
        arith,
        e,
        select_unlimited k is res h.1,
        select_unlimited k is (res ++ remote p ∷ []) h.1,
        append_assoc res (remote p ∷ []) (map remote (filter f (at pool is))),
      )

  select-at :
      (k : ℤ) (is : List ℕ)
      → All (λ i. i < length pool) is
      → select_peers k pool f is ≡ some (map remote (at_most k (filter f (at pool is))))
  unfolding select_peers
  select-at (pos k) is h = select_limited k k is [] h (omega arith)
  select-at (negsuc k) is h = select_unlimited k is [] h

  count-perm : (is js : List ℕ) → Permᴰ is js → count f (at pool is) ≡ count f (at pool js)
  count-perm is js Permᴰ.nil = refl
  count-perm is js (Permᴰ.cons {l₁} {l₂} e p) =
      ground (arith, count-perm l₁ l₂ p, ap (get_elem? pool) e)
  count-perm is js (Permᴰ.swap d e) = ground (arith, ap (get_elem? pool) e, ap (get_elem? pool) d)
  count-perm is js (Permᴰ.trans {l₂} p q) = count-perm is l₂ p ∙ count-perm l₂ js q

module _ (P : ℕ → Type 0) where
  All-perm : (is js : List ℕ) → Permᴰ is js → All P js → All P is
  All-perm is js Permᴰ.nil h = tt
  All-perm is js (Permᴰ.cons {l₁} {l₂} e p) h = (subst P (sym e) h.0, All-perm l₁ l₂ p h.1)
  All-perm is js (Permᴰ.swap d e) h = (subst P (sym d) h.1.0, (subst P (sym e) h.0, h.1.1))
  All-perm is js (Permᴰ.trans {l₂} p q) h = All-perm is l₂ p (All-perm l₂ js q h)

  All-from : (i n : ℕ) → ((j : ℕ) → i ≤ j → j < i + n → P j) → All P (count_from i n)
  unfolding count_from
  All-from i zero f = tt
  All-from i (suc n) f = (
    f i (omega arith) (omega arith),
    All-from (i + 1) n (λ j a b. f j (omega arith) (omega arith)),
  )

get_elem?-append :
    (before pool : List Peer) (p : Peer) → get_elem? (before ++ p ∷ pool) (length before) ≡ some p
get_elem?-append [] pool p = refl
get_elem?-append (b ∷ before) pool p = get_elem?-append before pool p

-- the peers behind a prefix
at-from :
    (before pool : List Peer) (i : ℕ)
    → i ≡ length before
    → at (before ++ pool) (count_from i (length pool)) ≡ pool
unfolding count_from
at-from before [] i e = refl
at-from before (p ∷ pool) i e = ground (
  arith,
  get_elem?-append before pool p,
  append_assoc before (p ∷ []) pool,
  at-from (before ++ p ∷ []) pool (i + 1),
  length-append before (p ∷ []),
)

All-take {ℓ} : {A : Type ℓ} (P : A → Type 0) (k : ℕ) (xs : List A) → All P xs → All P (take k xs)
All-take P zero xs h = tt
All-take P (suc k) [] h = tt
All-take P (suc k) (x ∷ xs) h = (h.0, All-take P k xs h.1)

module _ (f : RoutingFilter) where
  All-passing : (xs : List Peer) → All (λ p. f p ≡ true) (filter f xs)
  All-passing [] = tt
  All-passing (x ∷ xs) = elim (Bool-cases (f x)) [
    | inl passes ↦ rw passes (passes, All-passing xs)
    | inr fails ↦ rw fails (All-passing xs)
  ]

  count-filter-le : (g : Peer → Bool) (xs : List Peer) → count g (filter f xs) ≤ count g xs
  count-filter-le g [] = omega arith
  count-filter-le g (x ∷ xs) = ground (arith, count-filter-le g xs)

  count-take-le : (k : ℕ) (xs : List Peer) → count f (take k xs) ≤ count f xs
  count-take-le zero xs = omega arith
  count-take-le (suc k) [] = omega arith
  count-take-le (suc k) (x ∷ xs) = ground (arith, count-take-le k xs)

length-take : (k : ℕ) (xs : List Peer) → length (take k xs) ≡ min k (length xs)
length-take zero xs = omega arith
length-take (suc k) [] = omega arith
length-take (suc k) (x ∷ xs) = omega (arith, length-take k xs)

-- SelectPeers never reads out of range. For a limit k it selects k peers, or all that pass the filter if
-- these are fewer; every one of them passes; and none is selected more often than it is in the pool.
pub select_peers_lem :
    (k : ℕ) (pool : List Peer) (f : RoutingFilter) (perm : List ℕ)
    → Permᴰ perm (count_from 0 (length pool))
    → (chosen : List Peer) × (select_peers (pos k) pool f perm ≡ some (map remote chosen))
      × (length chosen ≡ min k (count f pool))
      × All (λ p. f p ≡ true) chosen
      × ((g : Peer → Bool) → count g chosen ≤ count g pool)
select_peers_lem k pool f perm p =
    let range = count_from 0 (length pool) in
    let picked = at pool perm in
    let same : (g : RoutingFilter) → count g picked ≡ count g pool =
      λ g. count-perm pool g perm range p ∙ ap (count g) (at-from [] pool 0 refl) in
    (
      take k (filter f picked),
      select-at pool f (pos k) perm (
          All-perm (λ i. i < length pool) perm range p
            (All-from (λ i. i < length pool) 0 (length pool) (λ j a b. omega arith))),
      length-take k (filter f picked) ∙ ap (min k) (length-filter f picked ∙ same f),
      All-take (λ q. f q ≡ true) k (filter f picked) (All-passing f picked),
      λ g. omega (arith, count-take-le g k (filter f picked), count-filter-le f g picked, same g),
    )

-- whatever the limit
pub select_peers_returns :
    (k : ℤ) (pool : List Peer) (f : RoutingFilter) (perm : List ℕ)
    → Permᴰ perm (count_from 0 (length pool))
    → (chosen : List RemotePeer) × (select_peers k pool f perm ≡ some chosen)
select_peers_returns k pool f perm p = (
  map remote (at_most k (filter f (at pool perm))),
  select-at pool f k perm (
      All-perm (λ i. i < length pool) perm (count_from 0 (length pool)) p
        (All-from (λ i. i < length pool) 0 (length pool) (λ j a b. omega arith))),
)
