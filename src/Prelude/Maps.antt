-- ===== src/Prelude/Maps.antt =====
-- Go maps as association lists. The key's equality is an instance. A loop over a map takes the
-- order of the list: a theorem about every list is one about every order.
use Prim.Native.Nat.{ℕ}
use mathlib.Core.Path.{◌≡◌, refl, subst}
use mathlib.Core.Logic.{◌↔◌, inl, inr}
use mathlib.Core.Bool.{Bool, true, false}
use mathlib.Core.List.{List, [], ◌∷◌}
use mathlib.Core.Option.{Option, none, some}
use native.Mathlib.Omega.{arith}
use grpc_gossip.Prelude.Tests.{◌==◌, ==_iff, if◌then◌else◌, is_some, Bool-cases}
use grpc_gossip.Prelude.Lists.{All}
use grpc_gossip.Prelude.Strings.{Str, str_eq, str_eq_iff}

pub record Eq {ℓ} (A : Type ℓ) : Type ℓ where
  pub beq : A → A → Bool
  pub beq_iff : (a b : A) → (beq a b ≡ true) ↔ (a ≡ b)

instance abbrev pub nat_eq : Eq ℕ
nat_eq = record { beq = ◌==◌; beq_iff = ==_iff }

instance abbrev pub string_eq : Eq Str
string_eq = record { beq = str_eq; beq_iff = str_eq_iff }

abbrev pub Map {ℓ} : Type ℓ → Type ℓ → Type ℓ
Map K V = List (K × V)

module _ {ℓ} {K V : Type ℓ} ⦃e : Eq K⦄ where
  -- `v, exists := m[k]`
  unfoldable pub get : Map K V → K → Option V
  get [] k = none
  get ((j, v) ∷ m) k = if e.beq j k then some v else get m k

  -- `m[k] = v`
  unfoldable pub put : Map K V → K → V → Map K V
  put [] k v = (k, v) ∷ []
  put ((j, w) ∷ m) k v = let rest = put m k v in if e.beq j k then (k, v) ∷ m else (j, w) ∷ rest

  -- `delete(m, k)`
  unfoldable pub delete : Map K V → K → Map K V
  delete [] k = []
  delete ((j, v) ∷ m) k = let rest = delete m k in if e.beq j k then rest else (j, v) ∷ rest

  abbrev pub has : Map K V → K → Bool
  has m k = is_some (get m k)

  pub get-put :
      (m : Map K V) (k j : K) (v : V) → get (put m k v) j ≡ (if e.beq k j then some v else get m j)
  unfolding get put
  get-put [] k j v = refl
  get-put ((i, w) ∷ m) k j v =
      ground (arith, get-put m k j v, e.beq_iff k j, e.beq_iff i k, e.beq_iff i j)

  pub get-delete :
      (m : Map K V) (k j : K) → get (delete m k) j ≡ (if e.beq k j then none else get m j)
  unfolding get delete
  get-delete [] k j = ground arith
  get-delete ((i, w) ∷ m) k j =
      ground (arith, get-delete m k j, e.beq_iff k j, e.beq_iff i k, e.beq_iff i j)

  pub All-put {κ} :
      (P : K × V → Type κ) (m : Map K V) (k : K) (v : V) → P (k, v) → All P m → All P (put m k v)
  unfolding put
  All-put P [] k v p h = (p, tt)
  All-put P ((j, w) ∷ m) k v p h =
      elim (e.beq j k) as (λ b. All P (if b then (k, v) ∷ m else (j, w) ∷ put m k v)) [
        | true ↦ (p, h.1)
        | false ↦ (h.0, All-put P m k v p h.1)
      ]

  pub All-get {κ} :
      (P : V → Type κ) (m : Map K V) (k : K) (v : V) → All (λ e. P e.1) m → get m k ≡ some v → P v
  unfolding get
  All-get P [] k v h found = absurd (ground arith)
  All-get P ((j, w) ∷ m) k v h found = elim (Bool-cases (e.beq j k)) [
    | inl here ↦ subst P (ground (arith, here, found)) h.0
    | inr elsewhere ↦ All-get P m k v h.1 (ground (arith, elsewhere))
  ]
