-- ===== src/Tests/Peers.antt =====
-- Random numbers, filters, selection and the demultiplexer on small inputs.
use mathlib.Core.List.{Permᴰ}
use Prim.Native.Nat.{min}
use grpc_gossip.Prelude.{
  ℕ, ◌≡◌, ◌<◌, ◌≤◌, ◌≢◌, refl, pos, string_of, Bool, true, false, some, List, [], ◌∷◌, map, length,
  count, All, AllPairs, arith, inr, ◌==◌, str_eq,
}
use grpc_gossip.Random.{random_int, get_random_indices, index_in_slice, count_from}
use grpc_gossip.Random.Indices.{get_random_indices_lem}
use grpc_gossip.Selecting.{Peer, RoutingFilter, select_peers, remote}
use grpc_gossip.Selecting.Chosen.{select_peers_lem}
use grpc_gossip.Demux.{DeMultiplexer}
use grpc_gossip.Tests.Data.{ann, bob, peer}

get_random_indices_example :
    (is : List ℕ) × (get_random_indices 2 3 (4 ∷ 7 ∷ 5 ∷ []) ≡ some is)
    × (length is ≡ 2)
    × All (λ i. i < 3) is
    × AllPairs ◌≢◌ is
unfolding random_int index_in_slice
get_random_indices_example =
    get_random_indices_lem 2 3 (4 ∷ 7 ∷ 5 ∷ []) (omega arith)
      (omega arith, (omega arith, (omega arith, tt))) (inr (omega arith))

abbrev is_ann : RoutingFilter
is_ann p = str_eq (string_of p.pki_id) (string_of ann)

abbrev pool : List Peer
pool = peer ann ∷ peer bob ∷ []

swapped : Permᴰ (1 ∷ 0 ∷ []) (count_from 0 (length pool))
unfolding count_from
swapped = Permᴰ.swap refl refl

select_peers_example :
    (chosen : List Peer) × (select_peers (pos 1) pool is_ann (1 ∷ 0 ∷ [])
      ≡ some (map remote chosen))
    × (length chosen ≡ min 1 (count is_ann pool))
    × All (λ p. is_ann p ≡ true) chosen
    × ((g : Peer → Bool) → count g chosen ≤ count g pool)
select_peers_example = select_peers_lem 1 pool is_ann (1 ∷ 0 ∷ []) swapped

abbrev demux : DeMultiplexer ℕ
demux = record {
  channels =
      record { pred = λ n. n == 3; queue = []; closed = false }
      ∷ record { pred = λ n. true; queue = 9 ∷ []; closed = false }
      ∷ [];
  closed = false;
}
