-- ===== src/Pull/Requests.antt =====
-- The requests that end the wait for digests (gossip/channel.go, initiatePull).
use grpc_gossip.Prelude.{
  ℕ, zero, suc, ◌+◌, ◌^◌, ◌≤◌, ◌<◌, ◌≡◌, refl, Str, str_eq, str_eq_iff, str_eq_refl, Bool, true,
  ◌&&◌, some, List, [], ◌∷◌, ◌++◌, length, map, count, count-append, any, All, All-append,
  get_elem?, Map, get, put, string_eq, arith, sym, Bool-cases, inl, inr,
}
use grpc_gossip.Random.Indices.{random_int_bounds}
use grpc_gossip.Pull.Engine.{or_empty, pick_sources, collect, request_mapping}
use grpc_gossip.Pull.Safety.{HasOwner}

-- how often an item is asked for
abbrev pub asked : Str → Map Str (List Str) → ℕ
asked n [] = 0
asked n ((dest, items) ∷ requests) = count (str_eq n) items + asked n requests

-- a peer is among the owners of an item
abbrev pub owns : Map Str (List Str) → Str → Str → Bool
owns owners n peer = any (λ e. str_eq e.0 n && any (str_eq peer) e.1) owners

-- every item of a request is owned by the peer that it goes to
abbrev pub Owned : Map Str (List Str) → Str × List Str → Type 0
Owned owners (dest, items) = All (λ n. owns owners n dest ≡ true) items

asked-put :
    (n k s : Str) (m : Map Str (List Str))
    → asked n (put m s (or_empty (get m s) ++ k ∷ [])) ≡ asked n m + count (str_eq n) (k ∷ [])
unfolding put get
asked-put n k s [] = ground arith
asked-put n k s ((d, items) ∷ m) =
    ground (arith, asked-put n k s m, count-append (str_eq n) items (k ∷ []))

asked-collect :
    (n : Str) (picked : List (Str × Str)) (m : Map Str (List Str))
    → asked n (collect picked m) ≡ asked n m + count (str_eq n) (map (λ p. p.0) picked)
unfolding collect
asked-collect n [] m = omega arith
asked-collect n ((k, s) ∷ picked) m =
    ground
      (arith, asked-collect n picked (put m s (or_empty (get m s) ++ k ∷ [])), asked-put n k s m)

module _ (owners : Map Str (List Str)) where
  Owned-put :
      (k s : Str) (m : Map Str (List Str))
      → owns owners k s ≡ true
      → All (Owned owners) m
      → All (Owned owners) (put m s (or_empty (get m s) ++ k ∷ []))
  unfolding put get
  Owned-put k s [] o h = ((o, tt), tt)
  Owned-put k s ((d, items) ∷ m) o h = elim (Bool-cases (str_eq d s)) [
    | inl same ↦
        let d≡s = (str_eq_iff d s).0 same in
        rw same
          (All-append (λ n. owns owners n s ≡ true) items (k ∷ []) (rw (sym d≡s) h.0) (o, tt), h.1)
    | inr other ↦ rw other (h.0, Owned-put k s m o h.1)
  ]

  Owned-collect :
      (picked : List (Str × Str)) (m : Map Str (List Str))
      → All (λ p. owns owners p.0 p.1 ≡ true) picked
      → All (Owned owners) m
      → All (Owned owners) (collect picked m)
  unfolding collect
  Owned-collect [] m o h = h
  Owned-collect ((k, s) ∷ picked) m o h = Owned-collect picked _ o.1 (Owned-put k s m o.0 h)

some_source :
    (l : List Str) (i : ℕ)
    → i < length l
    → (s : Str) × (get_elem? l i ≡ some s) × (any (str_eq s) l ≡ true)
some_source [] i lt = ground arith
some_source (x ∷ l) zero lt = (x, refl, ground (arith, str_eq_refl x))
some_source (x ∷ l) (suc i) lt =
    let (s, found, is_in) = some_source l i (omega arith) in (s, found, ground arith)

owns-more :
    (o : Str × List Str) (owners : Map Str (List Str)) (picked : List (Str × Str))
    → All (λ p. owns owners p.0 p.1 ≡ true) picked
    → All (λ p. owns (o ∷ owners) p.0 p.1 ≡ true) picked
owns-more o owners [] h = tt
owns-more o owners (p ∷ picked) h = (ground arith, owns-more o owners picked h.1)

pick_sources_lem :
    (owners : Map Str (List Str)) (draws : List ℕ)
    → All HasOwner owners
    → All (λ u. u < 2 ^ 64) draws
    → length owners ≤ length draws
    → (picked : List (Str × Str)) × (pick_sources owners draws ≡ some picked)
      × (map (λ p. p.0) picked ≡ map (λ o. o.0) owners)
      × All (λ p. owns owners p.0 p.1 ≡ true) picked
unfolding pick_sources
pick_sources_lem [] draws h b le = ([], refl, refl, tt)
pick_sources_lem (o ∷ owners) [] h b le = ground arith
pick_sources_lem ((n, []) ∷ owners) (u ∷ draws) h b le = ground arith
pick_sources_lem ((n, s ∷ sources) ∷ owners) (u ∷ draws) h b le =
    let (source, found, is_in) =
      some_source (s ∷ sources) _
        (random_int_bounds u (length (s ∷ sources)) b.0 (omega arith)).1 in
    let (picked, picks, same, owned) = pick_sources_lem owners draws h.1 b.1 (omega arith) in
    (
      (n, source) ∷ picked,
      ground (arith, found, picks),
      ground (arith, same),
      (ground (arith, is_in, str_eq_refl n), owns-more (n, s ∷ sources) owners picked owned),
    )

-- When the wait for digests ends and every item to ask for has an owner, with a random number for each
-- item the requests are made: each item is asked for exactly as often as it is a key of item2owners,
-- that is once, and each from a peer that advertised it.
pub request_mapping_lem :
    (owners : Map Str (List Str)) (draws : List ℕ)
    → All HasOwner owners
    → All (λ u. u < 2 ^ 64) draws
    → length owners ≤ length draws
    → (requests : Map Str (List Str)) × (request_mapping owners draws ≡ some requests)
      × ((n : Str) → asked n requests ≡ count (str_eq n) (map (λ o. o.0) owners))
      × All (Owned owners) requests
unfolding request_mapping
request_mapping_lem owners draws h b le =
    let (picked, picks, same, owned) = pick_sources_lem owners draws h b le in
    (
      collect picked [],
      rw picks refl,
      (λ n. ground (arith, same, asked-collect n picked [])),
      Owned-collect owners picked [] owned tt,
    )
