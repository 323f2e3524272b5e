-- ===== src/Random/Indices.antt =====
-- The indices that are drawn are in range, distinct, and as many as asked for (gossip/common.go).
use grpc_gossip.Prelude.{
  ℕ, zero, suc, ◌+◌, ◌^◌, ◌≤◌, ◌<◌, ◌≡◌, refl, ◌≢◌, pos, pos_part, false, none, some, List, [], ◌∷◌,
  ◌++◌, length, map, take, ltb, ◌==◌, arith, if◌then◌else◌, All, AllPairs, All-append, Bool-cases,
  inl, inr, ◌∙◌, ◌⊎◌, length-append,
}
use grpc_gossip.Random.{
  random_int, index_in_slice, seen, draw_indices, count_from, get_random_indices,
}

-- A random number below a positive n is a number below n, also where the 64 bits read as a negative
-- int.
pub random_int_bounds :
    (u n : ℕ)
    → u < 2 ^ 64
    → 0 < n
    → (random_int u n ≡ pos (pos_part (random_int u n))) × (pos_part (random_int u n) < n)
unfolding random_int
random_int_bounds u n h p = ground arith

-- the values of a list without repetitions, in the order in which they first occur
abbrev pub distinct : List ℕ → List ℕ → List ℕ
distinct acc [] = acc
distinct acc (n ∷ ns) =
    distinct (if seen (index_in_slice ◌==◌ acc n 0) then acc else acc ++ n ∷ []) ns

take_all : (xs : List ℕ) → take (length xs) xs ≡ xs
take_all [] = refl
take_all (x ∷ xs) = rw (take_all xs)

take_prefix : (xs ys : List ℕ) (k : ℕ) → k ≤ length xs → take k (xs ++ ys) ≡ take k xs
take_prefix xs ys zero h = refl
take_prefix [] ys (suc k) h = absurd (omega arith)
take_prefix (x ∷ xs) ys (suc k) h = rw (take_prefix xs ys k (omega arith))

-- what is there is kept in front
distinct_keeps :
    (acc ns : List ℕ) (k : ℕ)
    → k ≤ length acc
    → (take k (distinct acc ns) ≡ take k acc) × (length acc ≤ length (distinct acc ns))
distinct_keeps acc [] k h = (refl, omega arith)
distinct_keeps acc (n ∷ ns) k h = elim (Bool-cases (seen (index_in_slice ◌==◌ acc n 0))) [
  | inl old ↦ rw old (distinct_keeps acc ns k h)
  | inr new ↦ rw new (
      let longer = length-append acc (n ∷ []) in
      let (same, more) = distinct_keeps (acc ++ n ∷ []) ns k (omega (arith, longer)) in
      (same ∙ take_prefix acc (n ∷ []) k h, omega (arith, more, longer)))
]

draw_indices-distinct :
    (count : ℕ) (draws acc : List ℕ)
    → length acc ≤ count
    → draw_indices count draws acc ≡ (
        if ltb (length (distinct acc draws)) count
        then none
        else some (take count (distinct acc draws)))
unfolding draw_indices
draw_indices-distinct count [] acc h = elim (Bool-cases (ltb (length acc) count)) [
  | inl short ↦ rw short
  | inr full ↦ let e : length acc ≡ count = ground arith in rw (full, ← e, take_all acc)
]
draw_indices-distinct count (n ∷ draws) acc h = elim (Bool-cases (ltb (length acc) count)) [
  | inl short ↦ rw short (
      draw_indices-distinct count draws
        (if seen (index_in_slice ◌==◌ acc n 0) then acc else acc ++ n ∷ [])
        (ground (arith, length-append acc (n ∷ []))))
  | inr full ↦
      let e : length acc ≡ count = ground arith in
      let (same, more) = distinct_keeps acc (n ∷ draws) count (omega arith) in
      let t : take count acc ≡ acc = rw (← e, take_all acc) in ground (arith, same, more, t)
]

length-take : (k : ℕ) (xs : List ℕ) → k ≤ length xs → length (take k xs) ≡ k
length-take zero xs h = refl
length-take (suc k) [] h = absurd (omega arith)
length-take (suc k) (x ∷ xs) h = omega (arith, length-take k xs (omega arith))

All-take : (P : ℕ → Type 0) (k : ℕ) (xs : List ℕ) → All P xs → All P (take k xs)
All-take P zero xs h = tt
All-take P (suc k) [] h = tt
All-take P (suc k) (x ∷ xs) h = (h.0, All-take P k xs h.1)

AllPairs-take : (k : ℕ) (xs : List ℕ) → AllPairs ◌≢◌ xs → AllPairs ◌≢◌ (take k xs)
AllPairs-take zero xs h = tt
AllPairs-take (suc k) [] h = tt
AllPairs-take (suc k) (x ∷ xs) h = (All-take (λ y. x ≢ y) k xs h.0, AllPairs-take k xs h.1)

unseen : (xs : List ℕ) (n i : ℕ) → seen (index_in_slice ◌==◌ xs n i) ≡ false → All (λ x. x ≢ n) xs
unfolding index_in_slice
unseen [] n i h = tt
unseen (x ∷ xs) n i h = (ground arith, unseen xs n (i + 1) (ground arith))

AllPairs-snoc :
    (xs : List ℕ) (n : ℕ) → AllPairs ◌≢◌ xs → All (λ x. x ≢ n) xs → AllPairs ◌≢◌ (xs ++ n ∷ [])
AllPairs-snoc [] n d u = (tt, tt)
AllPairs-snoc (x ∷ xs) n d u =
    (All-append (λ y. x ≢ y) xs (n ∷ []) d.0 (u.0, tt), AllPairs-snoc xs n d.1 u.1)

distinct-AllPairs : (acc ns : List ℕ) → AllPairs ◌≢◌ acc → AllPairs ◌≢◌ (distinct acc ns)
distinct-AllPairs acc [] h = h
distinct-AllPairs acc (n ∷ ns) h = elim (Bool-cases (seen (index_in_slice ◌==◌ acc n 0))) [
  | inl old ↦ rw old (distinct-AllPairs acc ns h)
  | inr new ↦
      rw new (distinct-AllPairs (acc ++ n ∷ []) ns (AllPairs-snoc acc n h (unseen acc n 0 new)))
]

distinct-All : (P : ℕ → Type 0) (acc ns : List ℕ) → All P acc → All P ns → All P (distinct acc ns)
distinct-All P acc [] h k = h
distinct-All P acc (n ∷ ns) h k = elim (Bool-cases (seen (index_in_slice ◌==◌ acc n 0))) [
  | inl old ↦ rw old (distinct-All P acc ns h k.1)
  | inr new ↦ rw new (distinct-All P (acc ++ n ∷ []) ns (All-append P acc (n ∷ []) h (k.0, tt)) k.1)
]

All-weaken : (P Q : ℕ → Type 0) → ((x : ℕ) → P x → Q x) → (xs : List ℕ) → All P xs → All Q xs
All-weaken P Q f [] h = tt
All-weaken P Q f (x ∷ xs) h = (f x h.0, All-weaken P Q f xs h.1)

count_from_lem :
    (i n : ℕ)
    → (length (count_from i n) ≡ n)
      × All (λ x. i ≤ x) (count_from i n)
      × All (λ x. x < i + n) (count_from i n)
      × AllPairs ◌≢◌ (count_from i n)
unfolding count_from
count_from_lem i zero = (refl, tt, tt, tt)
count_from_lem i (suc n) =
    let rest = count_from (i + 1) n in
    let (len, above, below, apart) = count_from_lem (i + 1) n in
    (
      omega (arith, len),
      (omega arith, All-weaken (λ x. i + 1 ≤ x) (λ x. i ≤ x) (λ x h. omega arith) rest above),
      (
        omega arith,
        All-weaken (λ x. x < i + 1 + n) (λ x. x < i + suc n) (λ x h. omega arith) rest below,
      ),
      (All-weaken (λ x. i + 1 ≤ x) (λ x. i ≢ x) (λ x h. omega arith) rest above, apart),
    )

-- the draws, as numbers below the bound
abbrev pub numbers : ℕ → List ℕ → List ℕ
numbers bound = map (λ u. pos_part (random_int u bound))

numbers_below :
    (bound : ℕ) (draws : List ℕ)
    → 0 < bound
    → All (λ u. u < 2 ^ 64) draws
    → All (λ n. n < bound) (numbers bound draws)
numbers_below bound [] p h = tt
numbers_below bound (u ∷ draws) p h =
    ((random_int_bounds u bound h.0 p).1, numbers_below bound draws p h.1)

-- Asked for no more indices than there are, GetRandomIndices returns as soon as the draws hold enough
-- different numbers (at once if all indices are wanted), and what it returns are as many indices as
-- asked for, all below the bound and no two of them equal.
pub get_random_indices_lem :
    (count bound : ℕ) (draws : List ℕ)
    → count ≤ bound
    → All (λ u. u < 2 ^ 64) draws
    → (bound ≡ count) ⊎ (count ≤ length (distinct [] (numbers bound draws)))
    → (is : List ℕ) × (get_random_indices count bound draws ≡ some is)
      × (length is ≡ count)
      × All (λ i. i < bound) is
      × AllPairs ◌≢◌ is
unfolding get_random_indices
get_random_indices_lem count bound draws le h enough = elim (Bool-cases (bound == count)) [
  | inl all_of_them ↦
      let (len, _, below, apart) = count_from_lem 0 count in
      (
        count_from 0 count,
        ground arith,
        len,
        All-weaken (λ x. x < 0 + count) (λ x. x < bound) (λ x k. ground arith) (count_from 0 count)
            below,
        apart,
      )
  | inr some_of_them ↦
      let found = distinct [] (numbers bound draws) in
      let many : count ≤ length found = ground arith in
      let fresh = distinct-AllPairs [] (numbers bound draws) tt in
      let small =
        distinct-All (λ n. n < bound) [] (numbers bound draws) tt
          (numbers_below bound draws (ground arith) h) in
      (
        take count found,
        ground (arith, draw_indices-distinct count (numbers bound draws) []),
        length-take count found many,
        All-take (λ n. n < bound) count found small,
        AllPairs-take count found fresh,
      )
]
