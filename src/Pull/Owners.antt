-- ===== src/Pull/Owners.antt =====
-- Who is noted as an owner of what (gossip/channel.go, onDigest).
use grpc_gossip.Prelude.{
  ℕ, ◌≡◌, Str, str_eq, str_eq_iff, not, ◌&&◌, List, [], ◌∷◌, ◌++◌, count, Map, get, put, get-put,
  string_eq, nat_eq, if◌then◌else◌, arith, zero, suc,
}
use mathlib.Core.List.{append-nil, append_assoc}
use grpc_gossip.Sets
use grpc_gossip.Pull.Engine.{
  PullEngine, Item, item_eq, string, or_empty, or_blank, note_owners, on_digest,
}

abbrev pub replicate : ℕ → Str → List Str
replicate zero s = []
replicate (suc n) s = s ∷ replicate n s

-- what a digest adds to the owners of an item
abbrev pub noted : PullEngine → List Str → ℕ → Str → List Str
noted e digest nonce n =
    if e.accepting_digests
      && Sets.exists e.outgoing_nonces nonce
      && not (Sets.exists e.state (string n))
    then replicate (count (str_eq n) digest) (or_blank (get e.nonces2peers nonce))
    else []

note_owners_lem :
    (state : List Item) (owner : Str) (digest : List Str) (owners : Map Str (List Str)) (n : Str)
    → or_empty (get (note_owners state owner digest owners) n)
      ≡ or_empty (get owners n)
        ++ (if Sets.exists state (string n) then [] else replicate (count (str_eq n) digest) owner)
unfolding note_owners
note_owners_lem state owner [] owners n = ground (arith, append-nil (or_empty (get owners n)))
note_owners_lem state owner (k ∷ digest) owners n = ground (
  arith,
  note_owners_lem state owner digest owners n,
  note_owners_lem state owner digest (put owners k (or_empty (get owners k) ++ owner ∷ [])) n,
  get-put owners k n (or_empty (get owners k) ++ owner ∷ []),
  append_assoc (or_empty (get owners k)) (owner ∷ []) (replicate (count (str_eq n) digest) owner),
  str_eq_iff k n,
  str_eq_iff n k,
)

-- A digest changes item2owners only while digests are accepted, and only if its nonce is one that this
-- round of pulling sent out. Then each item that it lists and that is not in the state gets, once for
-- each time it is listed, the peer that the nonce was sent to as a further owner; the owners of every
-- other item stay.
pub on_digest_lem :
    (digest : List Str) (nonce : ℕ) (e : PullEngine) (n : Str)
    → or_empty (get (on_digest digest nonce e).item2owners n)
      ≡ or_empty (get e.item2owners n) ++ noted e digest nonce n
unfolding on_digest
on_digest_lem digest nonce e n = ground (
  arith,
  note_owners_lem e.state (or_blank (get e.nonces2peers nonce)) digest e.item2owners n,
  append-nil (or_empty (get e.item2owners n)),
)
