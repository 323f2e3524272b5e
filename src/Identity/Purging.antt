-- ===== src/Identity/Purging.antt =====
-- What SuspectPeers leaves in the identity mapper (gossip/mapper.go).
use grpc_gossip.Prelude.{
  ℕ, ◌≡◌, refl, Str, str_eq, str_eq_iff, Slice, string_of, Bool, false, ◌&&◌, is_some, List, [],
  ◌∷◌, Map, delete, string_eq, arith, All, any, Bool-cases, inl, inr,
}
use grpc_gossip.Crypto.{CryptoService, validate_id_type}
use grpc_gossip.Identity.{
  StoredId, IdMapper, is_unused, validate_ids, delete_all, delete_id, suspect_peers, fetch_id,
}
use grpc_gossip.Identity.Mapping.{IsBound, IsValid}

-- suspected, and revoked
abbrev pub is_revoked : CryptoService → (Slice → Bool) → StoredId → Bool
is_revoked mcs suspected s = suspected s.peer_id && is_some (validate_id_type mcs s.peer_id)

abbrev deleted : Str → List StoredId → Bool
deleted k gone = any (λ s. str_eq (string_of s.pki_id) k) gone

module _ (now : ℕ) (mcs : CryptoService) (self : Str) (suspected : Slice → Bool) where
  abbrev pub Fine : Str × StoredId → Type 0
  Fine e = (is_unused now self e.0 e.1 ≡ false) × (is_revoked mcs suspected e.1 ≡ false)

  -- an entry that is not fine is among those to be deleted
  abbrev Caught : List StoredId → Str × StoredId → Type 0
  Caught gone e = deleted e.0 gone ≡ false → Fine e

  Caught-more :
      (s : StoredId) (gone : List StoredId) (m : Map Str StoredId)
      → All (Caught gone) m
      → All (Caught (s ∷ gone)) m
  Caught-more s gone [] h = tt
  Caught-more s gone (e ∷ m) h = (ground arith, Caught-more s gone m h.1)

  validate_ids-Caught :
      (m : Map Str StoredId)
      → All IsBound m
      → All
          (Caught (validate_ids now mcs self suspected m).1)
          (validate_ids now mcs self suspected m).0
  unfolding validate_ids
  validate_ids-Caught [] h = tt
  validate_ids-Caught ((k, s) ∷ m) h =
      let (entries, gone) = validate_ids now mcs self suspected m in
      let rest = validate_ids-Caught m h.1 in
      ground (
        arith,
        rest,
        Caught-more s gone entries rest,
        Caught-more (fetch_id now s) gone entries rest,
        str_eq_iff (string_of s.pki_id) k,
      )

module _ (P : Str × StoredId → Type 0) where
  All-undeleted : (m : Map Str StoredId) → All (λ e. deleted e.0 [] ≡ false → P e) m → All P m
  All-undeleted [] h = tt
  All-undeleted (e ∷ m) h = (h.0 refl, All-undeleted m h.1)

  All-delete_one :
      (s : StoredId) (gone : List StoredId) (m : Map Str StoredId)
      → All (λ e. deleted e.0 (s ∷ gone) ≡ false → P e) m
      → All (λ e. deleted e.0 gone ≡ false → P e) (delete m (string_of s.pki_id))
  unfolding delete
  All-delete_one s gone [] h = tt
  All-delete_one s gone (e ∷ m) h = elim (Bool-cases (str_eq e.0 (string_of s.pki_id))) [
    | inl same ↦ rw same (All-delete_one s gone m h.1)
    | inr other ↦ rw other (
      (λ kept. h.0 (
          ground
            (arith, str_eq_iff e.0 (string_of s.pki_id), str_eq_iff (string_of s.pki_id) e.0))),
      All-delete_one s gone m h.1,
    )
  ]

  All-deleted :
      (gone : List StoredId) (is : IdMapper)
      → All (λ e. deleted e.0 gone ≡ false → P e) is.pki_id_to_cert
      → All P (delete_all gone is).0.pki_id_to_cert
  unfolding delete_all delete_id
  All-deleted [] is h = All-undeleted is.pki_id_to_cert h
  All-deleted (s ∷ gone) is h =
      All-deleted gone (delete_id s.pki_id s.peer_id is).0
        (All-delete_one s gone is.pki_id_to_cert h)

-- After SuspectPeers no identity is left that is suspected and revoked, and none that has been unused
-- for longer than the threshold, but this peer's own.
pub suspect_peers_lem :
    (now : ℕ) (suspected : Slice → Bool) (is : IdMapper)
    → IsValid is
    → All
        (Fine now is.mcs is.self_pki_id suspected)
        (suspect_peers now suspected is).0.pki_id_to_cert
unfolding suspect_peers
suspect_peers_lem now suspected is v =
    let checked = validate_ids now is.mcs is.self_pki_id suspected is.pki_id_to_cert in
    All-deleted (Fine now is.mcs is.self_pki_id suspected) checked.1
      (record is { pki_id_to_cert = checked.0 })
      (validate_ids-Caught now is.mcs is.self_pki_id suspected is.pki_id_to_cert v.bound)
