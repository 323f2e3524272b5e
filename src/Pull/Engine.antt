-- ===== src/Pull/Engine.antt =====
-- The engine of the pull protocol (gossip/channel.go, pullEngine): its state and its operations.
use grpc_gossip.Prelude.{
  ℕ, ◌≡◌, ◌↔◌, Str, str_eq, str_eq_iff, ==_iff, Bool, true, false, not, ◌||◌, ◌==◌, ltb, Option,
  none, some, ◌>>=◌, List, [], ◌∷◌, ◌++◌, length, map, get_elem?, pos_part, Eq, Map, get, put,
  string_eq, nat_eq, if◌then◌else◌, arith,
}
use grpc_gossip.Random.{random_int, get_random_indices}
use grpc_gossip.Selecting.{Peer, preferred_endpoint}
use grpc_gossip.Sets

-- what the engine's set of interface values holds: strings, and runes to remove
pub data Item : Type 0 where
  string : Str → Item
  rune : ℕ → Item

abbrev pub item_beq : Item → Item → Bool
item_beq (string s) (string t) = str_eq s t
item_beq (rune a) (rune b) = a == b
item_beq _ _ = false

pub item_beq_iff : (a b : Item) → (item_beq a b ≡ true) ↔ (a ≡ b)
item_beq_iff (string s) (string t) = ground (arith, str_eq_iff s t)
item_beq_iff (string s) (rune b) = ground arith
item_beq_iff (rune a) (string t) = ground arith
item_beq_iff (rune a) (rune b) = ground (arith, ==_iff a b)

instance abbrev pub item_eq : Eq Item
item_eq = record { beq = item_beq; beq_iff = item_beq_iff }

pub record PullEngine : Type 0 where
  pub stop_flag : Bool
  pub state : List Item
  pub item2owners : Map Str (List Str)
  pub peers2nonces : Map Str ℕ
  pub nonces2peers : Map ℕ Str
  pub accepting_digests : Bool
  pub accepting_responses : Bool
  pub outgoing_nonces : List ℕ
  pub incoming_nonces : List ℕ

abbrev pub or_empty : Option (List Str) → List Str
or_empty none = []
or_empty (some l) = l

abbrev pub or_blank : Option Str → Str
or_blank none = []
or_blank (some s) = s

-- the loop of `onDigest`
unfoldable pub note_owners : List Item → Str → List Str → Map Str (List Str) → Map Str (List Str)
note_owners state owner [] owners = owners
note_owners state owner (n ∷ digest) owners =
    let next = λ (o : Map Str (List Str)). note_owners state owner digest o in
    if Sets.exists state (string n)
    then next owners
    else next (put owners n (or_empty (get owners n) ++ owner ∷ []))

unfoldable pub on_digest : List Str → ℕ → PullEngine → PullEngine
unfolding note_owners
on_digest digest nonce e =
    if not e.accepting_digests || not (Sets.exists e.outgoing_nonces nonce) then e else record e {
      item2owners = note_owners e.state (or_blank (get e.nonces2peers nonce)) digest e.item2owners;
    }

-- The digest of `onHello`; an item that is no string panics.
unfoldable pub digest_of : (Str → Bool) → List Item → Option (List Str)
digest_of f [] = some []
digest_of f (rune c ∷ items) = none
digest_of f (string s ∷ items) = digest_of f items >>= λ rest. some (if f s then s ∷ rest else rest)

abbrev pub nonempty : List Str → Option (List Str)
nonempty [] = none
nonempty (s ∷ l) = some (s ∷ l)

-- the engine, and the digest that is sent, if one is
unfoldable pub on_hello : ℕ → (Str → Bool) → PullEngine → Option (PullEngine × Option (List Str))
unfolding digest_of
on_hello nonce f e = digest_of f e.state >>= λ digest.
    some (record e { incoming_nonces = Sets.add e.incoming_nonces nonce }, nonempty digest)

-- the function of onHello's timer
unfoldable pub forget_hello : ℕ → PullEngine → PullEngine
forget_hello nonce e = record e { incoming_nonces = Sets.remove e.incoming_nonces nonce }

-- the loop of `onReq`
unfoldable pub items_to_send : List Item → (Str → Bool) → List Str → List Str
items_to_send state f [] = []
items_to_send state f (item ∷ items) =
    let rest = items_to_send state f items in
    if Sets.exists state (string item) then (if f item then item ∷ rest else rest) else rest

-- what `SendRes` is called on, if it is
unfoldable pub on_req : List Str → ℕ → (Str → Bool) → PullEngine → Option (List Str)
unfolding items_to_send
on_req items nonce f e =
    if not (Sets.exists e.incoming_nonces nonce)
    then none
    else nonempty (items_to_send e.state f items)

unfoldable pub add_all : List Str → List Item → List Item
add_all [] state = state
add_all (seq ∷ items) state = add_all items (Sets.add state (string seq))

unfoldable pub on_res : List Str → ℕ → PullEngine → PullEngine
unfolding add_all
on_res items nonce e =
    if not (Sets.exists e.outgoing_nonces nonce) || not e.accepting_responses
    then e
    else record e { state = add_all items e.state }

-- the first draw that is not in use, and the draws that are left
pub new_nonce : List ℕ → List ℕ → Option (ℕ × List ℕ)
new_nonce outgoing [] = none
new_nonce outgoing (n ∷ draws) =
    let rest = new_nonce outgoing draws in
    if not (Sets.exists outgoing n) then some (n, draws) else rest

unfoldable pub endpoints_at : List Peer → List ℕ → Option (List Str)
unfolding preferred_endpoint
endpoints_at pool [] = some []
endpoints_at pool (j ∷ indices) = get_elem? pool j >>= λ p.
    endpoints_at pool indices >>= λ rest. some (preferred_endpoint p ∷ rest)

-- `SelectPeers` of the mediator
unfoldable pub select_endpoints : ℕ → List Peer → List ℕ → Option (List Str)
unfolding endpoints_at get_random_indices
select_endpoints count pool draws =
    let k = if ltb (length pool) count then length pool else count in
    get_random_indices k (length pool) draws >>= λ indices. endpoints_at pool indices

-- The loop of `initiatePull`: the engine, and the peers that are greeted with their nonces.
unfoldable pub greet : List Str → List ℕ → PullEngine → Option (PullEngine × List (Str × ℕ))
unfolding new_nonce
greet [] draws e = some (e, [])
greet (peer ∷ peers) draws e = new_nonce e.outgoing_nonces draws >>= λ (nonce, left).
    greet peers left (record e {
      outgoing_nonces = Sets.add e.outgoing_nonces nonce;
      nonces2peers = put e.nonces2peers nonce peer;
      peers2nonces = put e.peers2nonces peer nonce;
    })
    >>= λ (e', hellos). some (e', (peer, nonce) ∷ hellos)

unfoldable pub initiate : List Str → List ℕ → PullEngine → Option (PullEngine × List (Str × ℕ))
unfolding greet
initiate peers draws e = greet peers draws (record e { accepting_digests = true })

-- a source for each item, one draw for each
unfoldable pub pick_sources : Map Str (List Str) → List ℕ → Option (List (Str × Str))
unfolding random_int
pick_sources [] draws = some []
pick_sources (o ∷ owners) [] = none
pick_sources ((n, sources) ∷ owners) (u ∷ draws) =
    get_elem? sources (pos_part (random_int u (length sources))) >>= λ source.
    pick_sources owners draws >>= λ rest. some ((n, source) ∷ rest)

unfoldable pub collect : List (Str × Str) → Map Str (List Str) → Map Str (List Str)
collect [] requests = requests
collect ((n, source) ∷ picked) requests =
    collect picked (put requests source (or_empty (get requests source) ++ n ∷ []))

-- the requests of the function of initiatePull's timer: the items to ask each peer for
unfoldable pub request_mapping : Map Str (List Str) → List ℕ → Option (Map Str (List Str))
unfolding pick_sources collect
request_mapping owners draws = pick_sources owners draws >>= λ picked. some (collect picked [])

abbrev or_zero : Option ℕ → ℕ
or_zero none = 0
or_zero (some n) = n

-- The function of initiatePull's timer: the engine, and the destination, the items and the nonce of
-- each request.
unfoldable pub request : List ℕ → PullEngine → Option (PullEngine × List (Str × List Str × ℕ))
unfolding request_mapping
request draws e = request_mapping e.item2owners draws >>= λ requests. some (
  record e { accepting_digests = false; accepting_responses = true },
  map (λ r. (r.0, r.1, or_zero (get e.peers2nonces r.0))) requests,
)

unfoldable pub end_pull : PullEngine → PullEngine
end_pull e = record e {
  accepting_responses = false;
  outgoing_nonces = [];
  item2owners = [];
  peers2nonces = [];
  nonces2peers = [];
}

unfoldable pub stop : PullEngine → PullEngine
stop e = record e { stop_flag = true }

-- the engine of `NewPullMediator`
abbrev pub new_pull_engine : PullEngine
new_pull_engine = record {
  stop_flag = false;
  state = [];
  item2owners = [];
  peers2nonces = [];
  nonces2peers = [];
  accepting_digests = false;
  accepting_responses = false;
  outgoing_nonces = [];
  incoming_nonces = [];
}
