-- ===== src/Prelude/Int.antt =====
-- Go's int where a sign matters. `negsuc n` is -(n + 1).
use Prim.Native.Nat.{ℕ, zero, suc, ◌-◌}
use mathlib.Core.Bool.{Bool, true, false}
use grpc_gossip.Prelude.Tests.{leb, ◌==◌, if◌then◌else◌}

pub data ℤ : Type 0 where
  pos : ℕ → ℤ
  negsuc : ℕ → ℤ

abbrev pub pred_ℤ : ℤ → ℤ
pred_ℤ (pos zero) = negsuc 0
pred_ℤ (pos (suc n)) = pos n
pred_ℤ (negsuc n) = negsuc (suc n)

abbrev pub is_zero_ℤ : ℤ → Bool
is_zero_ℤ (pos n) = n == 0
is_zero_ℤ (negsuc n) = false

-- a ≤ n, for a number n that is a length
abbrev pub le_ℕ : ℤ → ℕ → Bool
le_ℕ (pos a) n = leb a n
le_ℕ (negsuc a) n = true

-- n < a
abbrev pub gt_ℕ : ℤ → ℕ → Bool
gt_ℕ (pos a) n = elim (leb a n) [ true ↦ false | false ↦ true ]
gt_ℕ (negsuc a) n = false

abbrev pub eq_ℕ : ℤ → ℕ → Bool
eq_ℕ (pos a) n = a == n
eq_ℕ (negsuc a) n = false

-- a - b, as an integer
abbrev pub sub_ℕ : ℕ → ℕ → ℤ
sub_ℕ a b = if leb b a then pos (a - b) else negsuc (b - a - 1)

-- a where it is positive, and 0 elsewhere
abbrev pub pos_part : ℤ → ℕ
pos_part (pos n) = n
pos_part (negsuc n) = 0
