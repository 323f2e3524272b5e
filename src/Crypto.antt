-- ===== src/Crypto.antt =====
-- The naive crypto service (gossip/common.go, NaiveMessageCryptoService). Times are numbers, 0 is
-- Go's zero time; `expiration_times` is the package variable ExpirationTimes.
use grpc_gossip.Prelude.{
  ℕ, ◌+◌, ◌*◌, ◌^◌, Str, Slice, bytes, string_of, bytes_equal, not, Option, none, some, Map, get,
  put, has, string_eq, [], if◌then◌else◌,
}
use grpc_gossip.Errors.{Error, Result, ok, wrong_signature, forbidden, revoked}

-- the keys of a `map[string]struct{}`
abbrev pub KeySet : Type 0
KeySet = Map Str (Unit {0})

-- `none` is a nil map
pub record CryptoService : Type 0 where
  pub allowed_pki_ids : Option KeySet
  pub revoked_pki_ids : Option KeySet

abbrev pub hour : ℕ
hour = 3600 * 10 ^ 9

-- `PKIidType(peerId)`
unfoldable pub get_pki_id_of_cert : Slice → Slice
get_pki_id_of_cert peer_id = peer_id

-- a fresh slice with the bytes of the message
unfoldable pub sign : Slice → Result Slice
sign msg = ok (bytes (string_of msg))

unfoldable pub verify : Slice → Slice → Slice → Option Error
verify peer_id signature message =
    if not (bytes_equal signature message) then some wrong_signature else none

unfoldable pub verify_block : Slice → ℕ → Slice → Option Error
verify_block chain_id seq_num signed_block = none

abbrev check_allowed : Option KeySet → Slice → Option Error
check_allowed none id = none
check_allowed (some allowed) id = if has allowed (string_of id) then none else some forbidden

unfoldable pub verify_by_channel : CryptoService → Slice → Option Error
verify_by_channel cs id = check_allowed cs.allowed_pki_ids id

abbrev check_revoked : Option KeySet → Slice → Option Error
check_revoked none id = none
check_revoked (some gone) id = if has gone (string_of id) then some revoked else none

unfoldable pub validate_id_type : CryptoService → Slice → Option Error
unfolding get_pki_id_of_cert
validate_id_type cs peer_id = check_revoked cs.revoked_pki_ids (get_pki_id_of_cert peer_id)

unfoldable pub expiration : Map Str ℕ → ℕ → Slice → Result ℕ
expiration expiration_times now peer_id = elim (get expiration_times (string_of peer_id)) [
  | some exp ↦ ok exp
  | none ↦ ok (now + hour)
]

abbrev or_empty : Option KeySet → KeySet
or_empty none = []
or_empty (some m) = m

unfoldable pub revoke : Slice → CryptoService → CryptoService
revoke pki_id cs = record cs {
  revoked_pki_ids = some (put (or_empty cs.revoked_pki_ids) (string_of pki_id) tt);
}
