-- ===== src/Errors.antt =====
-- The errors that the gossip package returns (gossip/*.go: errors.New, fmt.Errorf), one constructor
-- for each text, and the result of a call that returns a value or an error.
use grpc_gossip.Prelude.{ℕ, Option, none, some, ◌≡◌, refl, ◌⊎◌, inl, inr}

pub data Error : Type 0 where
  missing_envelope empty_payload empty_signature : Error
  wrong_signature forbidden revoked : Error
  pki_id_is_nil id_type_is_nil pki_id_mismatch id_type_expired pki_id_not_found : Error
  empty_pki_id peer_identity_missing : Error
  no_subscribers timed_out : Error
  failed_signing timeout_missing no_such_channel too_few_peers too_few_acks : Error
  shutting_down comm_is_stopping conn_store_is_closing : Error
  -- an error that a library or the network returns
  external : ℕ → Error

-- `(value, error)`
pub data Result {ℓ} (A : Type ℓ) : Type ℓ where
  ok : A → Result A
  err : Error → Result A

-- `if err != nil { return err }`
infixl 5 ◌>>=◌
abbrev pub ◌>>=◌ {ℓ κ} : {A : Type ℓ} {B : Type κ} → Result A → (A → Result B) → Result B
ok a >>= f = f a
err e >>= f = err e

-- the error of a call, nil if there is none
abbrev pub error_of {ℓ} : {A : Type ℓ} → Result A → Option Error
error_of (ok a) = none
error_of (err e) = some e

-- To split on a result and keep the equation.
pub Result-cases {ℓ} :
    {A : Type ℓ} (r : Result A) → ((a : A) × (r ≡ ok a)) ⊎ ((e : Error) × (r ≡ err e))
Result-cases (ok a) = inl (a, refl)
Result-cases (err e) = inr (e, refl)
