-- ===== src/Channel/Wanting.antt =====
-- Which blocks a channel asks for (gossip/channel.go, IngressDigFilter of createBlockPuller).
use grpc_gossip.Prelude.{
  ℕ, ◌^◌, ◌<◌, ◌≡◌, refl, bytes, string_of, leb, List, [], ◌∷◌, map, filter, All, arith, Slice,
}
use grpc_gossip.Types.{DataDigest}
use grpc_gossip.Channel.Decimal.{decimal, parse_uint, parse_uint-decimal}
use grpc_gossip.Channel.Blocks.{is_wanted, ingress_dig_filter}

-- the digests of blocks with the given numbers
abbrev pub digests_of : List ℕ → List Slice
digests_of = map (λ n. bytes (decimal n))

wanted :
    (height : ℕ) (ns : List ℕ)
    → All (λ n. n < 2 ^ 64) ns
    → filter (λ s. is_wanted height (parse_uint (string_of s))) (digests_of ns)
      ≡ digests_of (filter (leb height) ns)
wanted height [] h = refl
wanted height (n ∷ ns) h = ground (arith, parse_uint-decimal n h.0, wanted height ns h.1)

-- Of a digest of block numbers, for numbers of 64 bits, the puller goes on with exactly those that are
-- not below the height of the ledger, in their order.
pub ingress_dig_filter_lem :
    (height : ℕ) (d : DataDigest) (ns : List ℕ)
    → d.digests ≡ digests_of ns
    → All (λ n. n < 2 ^ 64) ns
    → ingress_dig_filter height d ≡ record d { digests = digests_of (filter (leb height) ns) }
unfolding ingress_dig_filter
ingress_dig_filter_lem height d ns are h = ground (arith, are, wanted height ns h)
