-- ===== src/Channel/Decimal.antt =====
-- The numbers of blocks as texts (gossip/channel.go: fmt.Sprintf with "%d" and strconv.ParseUint, at
-- a uint64 in base 10).
use grpc_gossip.Prelude.{
  ℕ, zero, suc, ◌+◌, ◌-◌, ◌*◌, ◌/◌, ◌%◌, ◌^◌, ◌<◌, ◌≡◌, refl, ap, ◌∙◌, Str, Option, none, some, [],
  ◌∷◌, ltb, leb, ◌&&◌, if◌then◌else◌, arith, Bool-cases, inl, inr,
}

-- the digits of a number in front of a text, with fuel for their count
unfoldable pub digits : ℕ → ℕ → Str → Str
digits zero n rest = rest
digits (suc f) n rest =
    let more = digits f (n / 10) ((48 + n % 10) ∷ rest) in
    if ltb n 10 then (48 + n) ∷ rest else more

-- A uint64 has at most 20 digits.
unfoldable pub decimal : ℕ → Str
unfolding digits
decimal n = digits 20 n []

unfoldable pub parse_digits : ℕ → Str → Option ℕ
parse_digits v [] = some v
parse_digits v (c ∷ s) =
    let rest = parse_digits (v * 10 + (c - 48)) s in
    if leb 48 c && leb c 57 then (if ltb (v * 10 + (c - 48)) (2 ^ 64) then rest else none) else none

-- `strconv.ParseUint(s, 10, 64)`; `none` is an error
unfoldable pub parse_uint : Str → Option ℕ
unfolding parse_digits
parse_uint [] = none
parse_uint (c ∷ s) = parse_digits 0 (c ∷ s)

abbrev pow10 : ℕ → ℕ
pow10 zero = 1
pow10 (suc f) = 10 * pow10 f

parse_digits-digit :
    (v d : ℕ) (rest : Str)
    → d < 10
    → v * 10 + d < 2 ^ 64
    → parse_digits v ((48 + d) ∷ rest) ≡ parse_digits (v * 10 + d) rest
unfolding parse_digits
parse_digits-digit v d rest small fits =
    let same : 48 + d - 48 ≡ d = omega arith in ground (arith, same)

parse_digits-digits :
    (f n : ℕ) (rest : Str)
    → n < 2 ^ 64
    → n < pow10 f
    → parse_digits 0 (digits f n rest) ≡ parse_digits n rest
unfolding digits
parse_digits-digits zero n rest small fits = let is_zero : n ≡ 0 = omega arith in rw is_zero refl
parse_digits-digits (suc f) n rest small fits = elim (Bool-cases (ltb n 10)) [
  | inl last ↦
      let whole : 0 * 10 + n ≡ n = omega arith in
      rw last (
        parse_digits-digit 0 n rest (ground arith) (omega arith)
        ∙ ap (λ v. parse_digits v rest) whole)
  | inr more ↦
      let whole : n / 10 * 10 + n % 10 ≡ n = omega arith in
      rw more (
        parse_digits-digits f (n / 10) ((48 + n % 10) ∷ rest) (omega arith) (omega arith)
        ∙ parse_digits-digit (n / 10) (n % 10) rest (omega arith) (omega arith)
        ∙ ap (λ v. parse_digits v rest) whole)
]

parse_uint-digits :
    (f n c : ℕ) (rest : Str)
    → parse_uint (digits f n (c ∷ rest)) ≡ parse_digits 0 (digits f n (c ∷ rest))
unfolding digits
parse_uint-digits zero n c rest = unfold parse_uint in refl
parse_uint-digits (suc f) n c rest = elim (Bool-cases (ltb n 10)) [
  | inl last ↦ rw last (unfold parse_uint in refl)
  | inr more ↦ rw more (parse_uint-digits f (n / 10) (48 + n % 10) (c ∷ rest))
]

parse_uint-decimal_digits : (n : ℕ) → parse_uint (digits 20 n []) ≡ parse_digits 0 (digits 20 n [])
unfolding digits
parse_uint-decimal_digits n = elim (Bool-cases (ltb n 10)) [
  | inl last ↦ rw last (unfold parse_uint in refl)
  | inr more ↦ rw more (parse_uint-digits 19 (n / 10) (48 + n % 10) [])
]

-- Parsing the text of a block number gives the number back, for every uint64.
pub parse_uint-decimal : (n : ℕ) → n < 2 ^ 64 → parse_uint (decimal n) ≡ some n
unfolding decimal
parse_uint-decimal n small =
    parse_uint-decimal_digits n ∙ parse_digits-digits 20 n [] small (omega arith) ∙ nothing_left n
  where
    nothing_left : (v : ℕ) → parse_digits v [] ≡ some v
    nothing_left v = unfold parse_digits in refl
