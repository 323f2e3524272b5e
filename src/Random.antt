-- ===== src/Random.antt =====
-- Random numbers (gossip/common.go: RandomInt, GetRandomIndices, IndexInSlice). What RandomUInt64
-- draws is an argument, one number below 2^64 for each call.
pub mod Indices
use grpc_gossip.Prelude.{
  ℕ, zero, suc, ◌+◌, ◌-◌, ◌%◌, ◌^◌, ℤ, pos, negsuc, Bool, true, false, Option, none, some, List, [],
  ◌∷◌, ◌++◌, length, map, pos_part, ltb, ◌==◌, if◌then◌else◌,
}

-- `int(u)` for a uint64: two's complement
abbrev pub int_of_uint64 : ℕ → ℤ
int_of_uint64 u = if ltb u (2 ^ 63) then pos u else negsuc (2 ^ 64 - 1 - u)

-- `m % n` for a positive n: Go truncates towards zero
abbrev pub rem : ℤ → ℕ → ℤ
rem (pos m) n = pos (m % n)
rem (negsuc m) n = elim (suc m % n) [ zero ↦ pos 0 | suc r ↦ negsuc r ]

-- `n + m` for a negative m
abbrev wrap : ℕ → ℤ → ℤ
wrap n (pos m) = pos m
wrap n (negsuc m) = if ltb m n then pos (n - suc m) else negsuc (m - n)

unfoldable pub random_int : ℕ → ℕ → ℤ
random_int u n = wrap n (rem (int_of_uint64 u) n)

-- `IndexInSlice`, with the counter of its loop; `none` is -1
unfoldable pub index_in_slice {ℓ} : {A : Type ℓ} → (A → A → Bool) → List A → A → ℕ → Option ℕ
index_in_slice equals [] o i = none
index_in_slice equals (x ∷ xs) o i =
    let rest = index_in_slice equals xs o (i + 1) in if equals x o then some i else rest

-- `for i := 0; i < n; i++ { indices = append(indices, i) }`
unfoldable pub count_from : ℕ → ℕ → List ℕ
count_from i zero = []
count_from i (suc n) = i ∷ count_from (i + 1) n

abbrev seen : Option ℕ → Bool
seen none = false
seen (some i) = true

-- The loop that draws: `none` where the draws are used up before the indices are found.
pub draw_indices : ℕ → List ℕ → List ℕ → Option (List ℕ)
draw_indices count [] indices = if ltb (length indices) count then none else some indices
draw_indices count (n ∷ draws) indices =
    let rest =
      draw_indices count draws
        (if seen (index_in_slice ◌==◌ indices n 0) then indices else indices ++ n ∷ []) in
    if ltb (length indices) count then rest else some indices

-- `GetRandomIndices`; `bound` is highestIndex + 1, and `none` means that the draws were used up.
unfoldable pub get_random_indices : ℕ → ℕ → List ℕ → Option (List ℕ)
unfolding draw_indices count_from random_int
get_random_indices count bound draws =
    if ltb bound count
    then some []
    else if bound == count
    then some (count_from 0 count)
    else draw_indices count (map (λ u. pos_part (random_int u bound)) draws) []
