-- ===== src/Identity/Mapping.antt =====
-- What the identity mapper maps to what (gossip/mapper.go).
use grpc_gossip.Prelude.{
  ℕ, ◌≡◌, refl, Str, str_eq, str_eq_iff, Slice, string_of, Bool, true, false, some, List, [], ◌∷◌,
  Map, get, put, delete, string_eq, arith, if◌then◌else◌, All, inl, inr, Option-cases,
}
use grpc_gossip.Errors.{ok, Result-cases}
use grpc_gossip.Crypto.{CryptoService, get_pki_id_of_cert, expiration}
use grpc_gossip.Identity.{
  StoredId, IdMapper, new_entry, insert_id, put_id, get_id, verify_id, validate_ids, delete_all,
  suspect_peers, fetch_id, delete_id, blank, new_id_mapper,
}

-- An entry stands under its own PKI-ID, which is the one of its certificate.
abbrev pub IsBound : Str × StoredId → Type 0
IsBound e = (string_of e.1.pki_id ≡ e.0) × (string_of (get_pki_id_of_cert e.1.peer_id) ≡ e.0)

pub record IsValid (is : IdMapper) : Type 0 where
  pub bound : All IsBound is.pki_id_to_cert

All-put :
    (m : Map Str StoredId) (k : Str) (s : StoredId)
    → All IsBound m
    → IsBound (k, s)
    → All IsBound (put m k s)
unfolding put
All-put [] k s h b = (b, tt)
All-put ((j, t) ∷ m) k s h b =
    elim (str_eq j k) as (λ c. All IsBound (if c then (k, s) ∷ m else (j, t) ∷ put m k s)) [
      | true ↦ (b, h.1)
      | false ↦ (h.0, All-put m k s h.1 b)
    ]

All-delete : (m : Map Str StoredId) (k : Str) → All IsBound m → All IsBound (delete m k)
unfolding delete
All-delete [] k h = tt
All-delete ((j, t) ∷ m) k h =
    elim (str_eq j k) as (λ c. All IsBound (if c then delete m k else (j, t) ∷ delete m k)) [
      | true ↦ All-delete m k h.1
      | false ↦ (h.0, All-delete m k h.1)
    ]

IsBound-get :
    (m : Map Str StoredId) (k : Str) (s : StoredId)
    → All IsBound m
    → get m k ≡ some s
    → IsBound (k, s)
unfolding get
IsBound-get [] k s h e = cc
IsBound-get ((j, t) ∷ m) k s h e = ground (arith, IsBound-get m k s h.1, str_eq_iff j k)

insert_id-IsValid :
    (now : ℕ) (pki id : Slice) (date : ℕ) (is : IdMapper)
    → string_of pki ≡ string_of (get_pki_id_of_cert id)
    → IsValid is
    → IsValid (insert_id now pki id date is).0
unfolding insert_id
insert_id-IsValid now pki id date is e v = ground (
  arith,
  All-put is.pki_id_to_cert (string_of (get_pki_id_of_cert id)) (new_entry now pki id date) v.bound
      (e, refl),
)

put_id-IsValid :
    (times : Map Str ℕ) (now : ℕ) (pki id : Slice) (is : IdMapper)
    → IsValid is
    → IsValid (put_id times now pki id is).0
unfolding put_id
put_id-IsValid times now pki id is v = elim (Result-cases (expiration times now id)) [
  | inl (date, e) ↦ ground (
    arith,
    str_eq_iff (string_of pki) (string_of (get_pki_id_of_cert id)),
    λ (same : string_of pki ≡ string_of (get_pki_id_of_cert id)).
        insert_id-IsValid now pki id date is same v,
  )
  | inr (x, e) ↦ ground arith
]

get_id-IsValid :
    (now : ℕ) (pki : Slice) (is : IdMapper) → IsValid is → IsValid (get_id now pki is).0
unfolding get_id
get_id-IsValid now pki is v = elim (Option-cases (get is.pki_id_to_cert (string_of pki))) [
  | inl e ↦ ground arith
  | inr (s, e) ↦ ground (
    arith,
    All-put is.pki_id_to_cert (string_of pki) (fetch_id now s) v.bound
        (IsBound-get is.pki_id_to_cert (string_of pki) s v.bound e),
  )
]

verify_id-get_id :
    (now : ℕ) (pki sig msg : Slice) (is : IdMapper)
    → (verify_id now pki sig msg is).0 ≡ (get_id now pki is).0
unfolding verify_id
verify_id-get_id now pki sig msg is = ground arith

validate_ids-IsBound :
    (now : ℕ) (mcs : CryptoService) (self : Str) (suspected : Slice → Bool) (m : Map Str StoredId)
    → All IsBound m
    → All IsBound (validate_ids now mcs self suspected m).0
unfolding validate_ids
validate_ids-IsBound now mcs self suspected [] h = tt
validate_ids-IsBound now mcs self suspected ((k, s) ∷ m) h =
    ground (arith, validate_ids-IsBound now mcs self suspected m h.1)

delete_all-IsBound :
    (gone : List StoredId) (is : IdMapper)
    → All IsBound is.pki_id_to_cert
    → All IsBound (delete_all gone is).0.pki_id_to_cert
unfolding delete_all delete_id
delete_all-IsBound [] is h = h
delete_all-IsBound (s ∷ gone) is h =
    delete_all-IsBound gone (delete_id s.pki_id s.peer_id is).0
      (All-delete is.pki_id_to_cert (string_of s.pki_id) h)

suspect_peers-IsValid :
    (now : ℕ) (suspected : Slice → Bool) (is : IdMapper)
    → IsValid is
    → IsValid (suspect_peers now suspected is).0
unfolding suspect_peers
suspect_peers-IsValid now suspected is v = record {
  bound =
      let checked = validate_ids now is.mcs is.self_pki_id suspected is.pki_id_to_cert in
      delete_all-IsBound checked.1 (record is { pki_id_to_cert = checked.0 })
        (validate_ids-IsBound now is.mcs is.self_pki_id suspected is.pki_id_to_cert v.bound);
}

-- The calls that a mapper gets: the methods, and the timers that fire.
pub data Call : Type 0 where
  put_call : ℕ → Slice → Slice → Call
  get_call : ℕ → Slice → Call
  verify_call : ℕ → Slice → Slice → Slice → Call
  suspect_call : ℕ → (Slice → Bool) → Call
  timer_call : Slice → Slice → Call

module _ (times : Map Str ℕ) where
  unfoldable pub after : Call → IdMapper → IdMapper
  after (put_call now pki id) is = (put_id times now pki id is).0
  after (get_call now pki) is = (get_id now pki is).0
  after (verify_call now pki sig msg) is = (verify_id now pki sig msg is).0
  after (suspect_call now suspected) is = (suspect_peers now suspected is).0
  after (timer_call pki id) is = (delete_id pki id is).0

  unfoldable pub run : List Call → IdMapper → IdMapper
  run [] is = is
  run (c ∷ calls) is = run calls (after c is)

  after-IsValid : (c : Call) (is : IdMapper) → IsValid is → IsValid (after c is)
  unfolding after delete_id
  after-IsValid (put_call now pki id) is v = put_id-IsValid times now pki id is v
  after-IsValid (get_call now pki) is v = get_id-IsValid now pki is v
  after-IsValid (verify_call now pki sig msg) is v =
      rw (verify_id-get_id now pki sig msg is) (get_id-IsValid now pki is v)
  after-IsValid (suspect_call now suspected) is v = suspect_peers-IsValid now suspected is v
  after-IsValid (timer_call pki id) is v = record {
    bound = All-delete is.pki_id_to_cert (string_of pki) v.bound;
  }

  run-IsValid : (calls : List Call) (is : IdMapper) → IsValid is → IsValid (run calls is)
  unfolding run
  run-IsValid [] is v = v
  run-IsValid (c ∷ calls) is v = run-IsValid calls (after c is) (after-IsValid c is v)

  new-IsValid :
      (now : ℕ) (mcs : CryptoService) (self : Slice) → IsValid (new_id_mapper times now mcs self)
  unfolding new_id_mapper
  new-IsValid now mcs self =
      put_id-IsValid times now (get_pki_id_of_cert self) self (blank mcs self)
        (record { bound = tt })

  get_id_bound :
      (now : ℕ) (pki id : Slice) (is : IdMapper)
      → IsValid is
      → (get_id now pki is).1 ≡ ok id
      → string_of (get_pki_id_of_cert id) ≡ string_of pki
  unfolding get_id
  get_id_bound now pki id is v h = elim (Option-cases (get is.pki_id_to_cert (string_of pki))) [
    | inl e ↦ ground arith
    | inr (s, e) ↦ ground (arith, IsBound-get is.pki_id_to_cert (string_of pki) s v.bound e)
  ]

  -- Whatever calls a new mapper gets, in whatever order and with timers firing between them, an identity
  -- that `Get` returns for a PKI-ID is one whose certificate has that PKI-ID.
  pub get_id-run :
      (start now : ℕ) (mcs : CryptoService) (self pki id : Slice) (calls : List Call)
      → (get_id now pki (run calls (new_id_mapper times start mcs self))).1 ≡ ok id
      → string_of (get_pki_id_of_cert id) ≡ string_of pki
  get_id-run start now mcs self pki id calls h =
      get_id_bound now pki id _ (run-IsValid calls _ (new-IsValid start mcs self)) h
