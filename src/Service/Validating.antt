-- ===== src/Service/Validating.antt =====
-- The checks of received messages (gossip/gossip.go: ValidateStateInfoMsg, validateLeadershipMessage,
-- validateIdMsg, GetOrgOfPeer). The identity mapper is asked through a function; `none` is a panic.
use grpc_gossip.Prelude.{
  Slice, nil, bytes, string_of, is_nil, is_empty, bytes_equal, not, Option, none, some, ◌>>=◌, [],
  ◌∷◌, if◌then◌else◌,
}
use grpc_gossip.Errors.{
  Error, Result, ok, err, pki_id_not_found, empty_pki_id, peer_identity_missing, pki_id_mismatch,
}
use grpc_gossip.Types.{
  LeadershipMessage, PeerIdentity, get_state_info, get_leadership_msg, get_peer_identity,
}
use grpc_gossip.Message.{SignedGossipMessage}
use grpc_gossip.Crypto
use grpc_gossip.Crypto.{CryptoService, get_pki_id_of_cert, validate_id_type}
use grpc_gossip.Signing

-- `IdMapper.Get`: the identity of a PKI-ID
abbrev pub Ids : Type 0
Ids = Slice → Result Slice

-- "ORG1", the only organization of `OrgCryptoService`
abbrev pub default_org : Slice
default_org = bytes (79 ∷ 82 ∷ 71 ∷ 49 ∷ [])

-- `OrgCryptoService.OrgByPeerId`
abbrev pub org_by_peer_id : Slice → Slice
org_by_peer_id id = default_org

abbrev org_of_id : Result Slice → Slice
org_of_id (err x) = nil
org_of_id (ok cert) = org_by_peer_id cert

-- `GetOrgOfPeer`
unfoldable pub get_org_of_peer : Ids → Slice → Slice
get_org_of_peer ids pki_id = org_of_id (ids pki_id)

abbrev verified_by : Result Slice → Slice → Slice → Option Error
verified_by (err x) signature message = some x
verified_by (ok cert) signature message = Crypto.verify cert signature message

-- the verifier of `ValidateStateInfoMsg`
abbrev mapped_verifier : Ids → Signing.Verifier
mapped_verifier ids id signature message =
    if is_nil (get_pki_id_of_cert id)
    then some pki_id_not_found
    else verified_by (ids (get_pki_id_of_cert id)) signature message

abbrev check_signed : SignedGossipMessage → Signing.Verifier → Result Slice → Option Error
check_signed m verifier (err x) = some x
check_signed m verifier (ok id) = Signing.verify m id verifier

-- `ValidateStateInfoMsg`
unfoldable pub validate_state_info_msg : Ids → SignedGossipMessage → Option (Option Error)
validate_state_info_msg ids m = get_state_info m.message.content >>= λ si.
    some (check_signed m (mapped_verifier ids) (ids si.pki_id))

abbrev check_leader : Ids → SignedGossipMessage → LeadershipMessage → Option Error
check_leader ids m l =
    if is_empty (string_of l.pki_id) then some empty_pki_id else elim (ids l.pki_id) [
      | err x ↦ some x
      | ok id ↦ Signing.verify m id (λ _ signature message. Crypto.verify id signature message)
    ]

-- `validateLeadershipMessage`
unfoldable pub validate_leadership_message : Ids → SignedGossipMessage → Option (Option Error)
validate_leadership_message ids m =
    get_leadership_msg m.message.content >>= λ l. some (check_leader ids m l)

abbrev check_identity : CryptoService → SignedGossipMessage → Option PeerIdentity → Option Error
check_identity cs m none = some peer_identity_missing
check_identity cs m (some p) =
    if not (bytes_equal (get_pki_id_of_cert p.cert) p.pki_id)
    then some pki_id_mismatch
    else elim (Signing.verify m p.cert Crypto.verify) [
      | some x ↦ some x
      | none ↦ validate_id_type cs p.cert
    ]

-- `validateIdMsg` of the certificate store
unfoldable pub validate_id_msg : CryptoService → SignedGossipMessage → Option Error
validate_id_msg cs m = check_identity cs m (get_peer_identity m.message.content)
