-- ===== src/Identity.antt =====
-- The identity mapper (gossip/mapper.go). A method returns the new state beside its result and the
-- identities that `onPurge` is called on. `now` is the clock at the call, and a timer is the time at
-- which it fires.
pub mod Mapping
pub mod Purging
use grpc_gossip.Prelude.{
  ℕ, ◌+◌, ◌*◌, ◌^◌, Str, str_eq, Slice, nil, bytes, string_of, is_nil, bytes_equal, Bool, true,
  false, not, ◌&&◌, Option, none, some, is_some, List, [], ◌∷◌, Map, get, put, delete, has,
  string_eq, ltb, ◌==◌, if◌then◌else◌,
}
use grpc_gossip.Errors.{
  Error, Result, ok, err, pki_id_is_nil, id_type_is_nil, pki_id_mismatch, id_type_expired,
  pki_id_not_found,
}
use grpc_gossip.Crypto
use grpc_gossip.Crypto.{CryptoService, get_pki_id_of_cert, validate_id_type, expiration}

pub record StoredId : Type 0 where
  pub pki_id : Slice
  pub last_access_time : ℕ
  pub peer_id : Slice
  -- when the timer fires
  pub expiration_timer : Option ℕ

pub record IdMapper : Type 0 where
  pub mcs : CryptoService
  pub pki_id_to_cert : Map Str StoredId
  pub self_pki_id : Str

abbrev pub usage_threshold : ℕ
usage_threshold = 3600 * 10 ^ 9

abbrev pub millisecond : ℕ
millisecond = 10 ^ 6

-- `time.Now().After(expirationDate)`, unless the date is zero
abbrev is_expired : ℕ → ℕ → Bool
is_expired now date = not (date == 0) && ltb date now

abbrev timer_of : ℕ → Option ℕ
timer_of date = if date == 0 then none else some (date + millisecond)

abbrev new_entry : ℕ → Slice → Slice → ℕ → StoredId
new_entry now pki_id id_type date = record {
  pki_id = pki_id;
  last_access_time = now;
  peer_id = id_type;
  expiration_timer = timer_of date;
}

-- the end of `Put`, for an identity whose expiration date is known
unfoldable pub insert_id : ℕ → Slice → Slice → ℕ → IdMapper → IdMapper × Option Error
insert_id now pki_id id_type date is =
    if has is.pki_id_to_cert (string_of pki_id)
    then (is, none)
    else if is_expired now date
    then (is, some id_type_expired)
    else (
      record is {
        pki_id_to_cert =
            put is.pki_id_to_cert (string_of (get_pki_id_of_cert id_type))
              (new_entry now pki_id id_type date);
      },
      none,
    )

-- `Put`; `times` is the package variable ExpirationTimes.
unfoldable pub put_id : Map Str ℕ → ℕ → Slice → Slice → IdMapper → IdMapper × Option Error
unfolding insert_id
put_id times now pki_id id_type is =
    if is_nil pki_id
    then (is, some pki_id_is_nil)
    else if is_nil id_type
    then (is, some id_type_is_nil)
    else elim (expiration times now id_type) [
      | err x ↦ (is, some x)
      | ok date ↦ elim (validate_id_type is.mcs id_type) [
        | some x ↦ (is, some x)
        | none ↦
            if not (bytes_equal pki_id (get_pki_id_of_cert id_type))
            then (is, some pki_id_mismatch)
            else insert_id now pki_id id_type date is
      ]
    ]

-- `fetchId` notes the access.
abbrev fetch_id : ℕ → StoredId → StoredId
fetch_id now s = record s { last_access_time = now }

abbrev found : ℕ → Slice → IdMapper → Option StoredId → IdMapper × Result Slice
found now pki_id is none = (is, err pki_id_not_found)
found now pki_id is (some s) = (
  record is { pki_id_to_cert = put is.pki_id_to_cert (string_of pki_id) (fetch_id now s) },
  ok s.peer_id,
)

-- `Get`
unfoldable pub get_id : ℕ → Slice → IdMapper → IdMapper × Result Slice
get_id now pki_id is = found now pki_id is (get is.pki_id_to_cert (string_of pki_id))

abbrev verify_with : IdMapper × Result Slice → Slice → Slice → IdMapper × Option Error
verify_with (is, err x) signature message = (is, some x)
verify_with (is, ok cert) signature message = (is, Crypto.verify cert signature message)

-- `Verify`
pub verify_id : ℕ → Slice → Slice → Slice → IdMapper → IdMapper × Option Error
unfolding get_id
verify_id now vk_id signature message is = verify_with (get_id now vk_id is) signature message

-- `delete`: the mapper, and the arguments of `onPurge`
pub delete_id : Slice → Slice → IdMapper → IdMapper × Slice × Slice
delete_id pki_id id is =
    (record is { pki_id_to_cert = delete is.pki_id_to_cert (string_of pki_id) }, pki_id, id)

-- not used for longer than the threshold, and not this peer
abbrev pub is_unused : ℕ → Str → Str → StoredId → Bool
is_unused now self key s = not (str_eq key self) && ltb (s.last_access_time + usage_threshold) now

-- The loop of `validateIds`: the entries, with the accesses that it notes, and what is to be purged.
pub validate_ids :
    ℕ → CryptoService → Str → (Slice → Bool) → Map Str StoredId → Map Str StoredId × List StoredId
validate_ids now mcs self suspected [] = ([], [])
validate_ids now mcs self suspected ((key, s) ∷ rest) =
    let (entries, gone) = validate_ids now mcs self suspected rest in
    if is_unused now self key s
    then ((key, s) ∷ entries, s ∷ gone)
    else if not (suspected s.peer_id)
    then ((key, s) ∷ entries, gone)
    else if is_some (validate_id_type mcs s.peer_id)
    then ((key, fetch_id now s) ∷ entries, fetch_id now s ∷ gone)
    else ((key, fetch_id now s) ∷ entries, gone)

pub delete_all : List StoredId → IdMapper → IdMapper × List Slice
delete_all [] is = (is, [])
delete_all (s ∷ rest) is =
    let (is', purged) = delete_all rest (delete_id s.pki_id s.peer_id is).0 in
    (is', s.pki_id ∷ purged)

-- `SuspectPeers`: the mapper, and the PKI-IDs that `onPurge` is called on
pub suspect_peers : ℕ → (Slice → Bool) → IdMapper → IdMapper × List Slice
unfolding validate_ids delete_all delete_id
suspect_peers now suspected is =
    let (entries, gone) = validate_ids now is.mcs is.self_pki_id suspected is.pki_id_to_cert in
    delete_all gone (record is { pki_id_to_cert = entries })

-- a turn of `periodicalPurgeUnusedIds`
unfoldable pub purge_unused : ℕ → IdMapper → IdMapper × List Slice
unfolding suspect_peers
purge_unused now is = suspect_peers now (λ _. false) is

abbrev blank : CryptoService → Slice → IdMapper
blank mcs self_id = record {
  mcs = mcs;
  pki_id_to_cert = [];
  self_pki_id = string_of (get_pki_id_of_cert self_id);
}

-- `NewIdMapper`
unfoldable pub new_id_mapper : Map Str ℕ → ℕ → CryptoService → Slice → IdMapper
unfolding put_id
new_id_mapper times now mcs self_id =
    (put_id times now (get_pki_id_of_cert self_id) self_id (blank mcs self_id)).0
