-- ===== src/Pull/Answers.antt =====
-- What the mediator answers (gossip/channel.go: onReq, SendRes, onHello, Remove).
use grpc_gossip.Prelude.{
  ℕ, ◌≡◌, refl, Str, str_eq_iff, Bool, true, false, ◌&&◌, Option, some, List, [], ◌∷◌, ◌++◌, filter,
  map, get-delete, string_eq, nat_eq, ap, arith, Bool-cases, inl, inr, string_of,
}
use mathlib.Core.List.{append-nil}
use grpc_gossip.Sets
use grpc_gossip.Types.{Envelope, data_req, DataRequest}
use grpc_gossip.Pull.Engine.{nonempty, item_eq, string, on_req, items_to_send, on_hello}
use grpc_gossip.Pull.Mediator.{
  PullMediator, Received, Action, respond_update, call_hooks, request_msg_type, maybe_res,
  handle_content, envelopes_of, bytes_to_strings, remove, send_res,
}
use grpc_gossip.Pull.Safety.{IsValid, remove_runes-same}

-- what a request may be answered with: the items asked for that are in the state, that the filter of
-- the asking peer lets through, and that are stored
abbrev pub granted : PullMediator → Received → ℕ → Str → Bool
granted p m nonce item =
    Sets.exists p.engine.incoming_nonces nonce
    && Sets.exists p.engine.state (string item)
    && p.adapter.egress_dig_filter m item

-- the envelopes that an answer carries
abbrev pub data_of : List Action → List (Option Envelope)
data_of [] = []
data_of (respond_update n envelopes ∷ actions) = envelopes ++ data_of actions
data_of (_ ∷ actions) = data_of actions

module _ (m : Received) (p : PullMediator) (nonce : ℕ) where
  filter-greeted :
      (items : List Str)
      → Sets.exists p.engine.incoming_nonces nonce ≡ true
      → items_to_send p.engine.state (p.adapter.egress_dig_filter m) items
        ≡ filter (granted p m nonce) items
  unfolding items_to_send
  filter-greeted [] h = refl
  filter-greeted (i ∷ items) h = ground (arith, h, filter-greeted items h)

  filter-stranger :
      (items : List Str)
      → Sets.exists p.engine.incoming_nonces nonce ≡ false
      → filter (granted p m nonce) items ≡ []
  filter-stranger [] h = refl
  filter-stranger (i ∷ items) h = ground (arith, h, filter-stranger items h)

  answered :
      (items ids : List Str)
      → data_of (maybe_res p (nonempty items) nonce ++ call_hooks request_msg_type ids [] ∷ [])
        ≡ envelopes_of p.item_id_to_msg items
  unfolding send_res envelopes_of
  answered [] ids = refl
  answered (i ∷ items) ids = append-nil (envelopes_of p.item_id_to_msg (i ∷ items))

-- A request leaves the mediator as it is, and is answered with the envelopes of exactly those items
-- that it asks for, in its order, that are in the state, that the filter of the asking peer lets
-- through and that are stored; with none if its nonce is not among the nonces of the hellos that are
-- being answered, from whichever peers they came.
pub data_req_lem :
    (m : Received) (p : PullMediator) (r : DataRequest)
    → (actions : List Action) × (handle_content m p (data_req r) ≡ some (p, actions))
      × (data_of actions
          ≡ envelopes_of p.item_id_to_msg (filter (granted p m r.nonce) (map string_of r.digests)))
unfolding handle_content on_req bytes_to_strings send_res envelopes_of
data_req_lem m p r =
    let ids = map string_of r.digests in
    (
      _,
      refl,
      elim (Bool-cases (Sets.exists p.engine.incoming_nonces r.nonce)) [
        | inl greeted ↦ ground (
          arith,
          greeted,
          answered m p r.nonce (items_to_send p.engine.state (p.adapter.egress_dig_filter m) ids)
              ids,
          filter-greeted m p r.nonce ids greeted,
        )
        | inr stranger ↦ ground (arith, stranger, filter-stranger m p r.nonce ids stranger)
      ],
    )

-- A digest that is removed is no longer stored, so a request for it is answered without it; but it
-- stays in the set of the engine, and every hello is still answered as if it had not been removed.
pub remove_still_advertised :
    (digest : Str) (p : PullMediator) (nonce : ℕ) (f : Str → Bool)
    → IsValid p.engine
    → (envelopes_of (remove digest p).item_id_to_msg (digest ∷ []) ≡ [])
      × (on_hello nonce f (remove digest p).engine ≡ on_hello nonce f p.engine)
unfolding remove envelopes_of
remove_still_advertised digest p nonce f v = (
  ground (arith, get-delete p.item_id_to_msg digest digest, str_eq_iff digest digest),
  ap (λ s. on_hello nonce f (record p.engine { state = s }))
      (remove_runes-same digest p.engine.state v.strings),
)
