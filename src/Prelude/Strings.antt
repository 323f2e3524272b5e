-- ===== src/Prelude/Strings.antt =====
-- Go strings as lists of bytes, and byte slices, which may be nil.
use Prim.Native.Nat.{ℕ}
use mathlib.Core.Path.{◌≡◌, refl}
use mathlib.Core.Logic.{◌↔◌}
use mathlib.Core.Bool.{Bool, true, false, ◌&&◌}
use mathlib.Core.List.{List, [], ◌∷◌}
use native.Mathlib.Omega.{arith}
use grpc_gossip.Prelude.Tests.{◌==◌}

abbrev pub Str : Type 0
Str = List ℕ

unfoldable pub str_eq : Str → Str → Bool
str_eq [] [] = true
str_eq [] (b ∷ t) = false
str_eq (a ∷ s) [] = false
str_eq (a ∷ s) (b ∷ t) = a == b && str_eq s t

pub str_eq_iff : (s t : Str) → (str_eq s t ≡ true) ↔ (s ≡ t)
unfolding str_eq
str_eq_iff [] [] = ground arith
str_eq_iff [] (b ∷ t) = ground arith
str_eq_iff (a ∷ s) [] = ground arith
str_eq_iff (a ∷ s) (b ∷ t) = ground (arith, str_eq_iff s t)

pub str_eq_refl : (s : Str) → str_eq s s ≡ true
str_eq_refl s = (str_eq_iff s s).1 refl

-- `[]byte`: nil, or bytes
pub data Slice : Type 0 where
  nil : Slice
  bytes : Str → Slice

-- `string(b)`: the nil slice reads as the empty string
abbrev pub string_of : Slice → Str
string_of nil = []
string_of (bytes s) = s

abbrev pub is_nil : Slice → Bool
is_nil nil = true
is_nil (bytes s) = false

-- `len(b) == 0`
abbrev pub is_empty : Str → Bool
is_empty [] = true
is_empty (c ∷ s) = false

-- `bytes.Equal`: nil and the empty slice are equal
abbrev pub bytes_equal : Slice → Slice → Bool
bytes_equal a b = str_eq (string_of a) (string_of b)
