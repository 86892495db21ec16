-- ===== src/Common/Numbers.antt =====
-- strtoul of the C library in base 10, on a string of bytes.
use Prim.Native.Nat.{ℕ, ◌+◌, ◌-◌, ◌*◌, ◌%◌}
use mathlib.Core.Path.{◌≡◌, refl}
use mathlib.Core.Bool.{Bool, true, false, ◌&&◌, ◌||◌}
use mathlib.Core.List.{List, [], ◌∷◌}
use native.Mathlib.Omega.{arith}
use vmopsbench.Common.Tests.{leb, ltb, ◌==◌, if◌then◌else◌}
use vmopsbench.Common.Bytes.{isdigit, codes}

isspace : ℕ → Bool
isspace c = c == 32 || (leb 9 c && leb c 13)

skip_spaces : List ℕ → List ℕ
skip_spaces [] = []
skip_spaces (c ∷ s) = if isspace c then skip_spaces s else c ∷ s

-- The value of the digits at the head of the string.
unfoldable pub digits_value : ℕ → List ℕ → ℕ
digits_value acc [] = acc
digits_value acc (c ∷ s) =
    let more = digits_value (acc * 10 + (c - b'0')) s in if isdigit c then more else acc

-- ULONG_MAX
abbrev ulong_max : ℕ
ulong_max = 18446744073709551615

-- A value that does not fit is ULONG_MAX, whatever the sign.
clip : (negative : Bool) → ℕ → ℕ
clip negative v =
    if ltb ulong_max v
    then ulong_max
    else if negative
    then (ulong_max + 1 - v) % (ulong_max + 1)
    else v

signed : List ℕ → ℕ
unfolding clip
signed [] = 0
signed (c ∷ s) =
    if c == b'-'
    then clip true (digits_value 0 s)
    else if c == b'+'
    then clip false (digits_value 0 s)
    else clip false (digits_value 0 (c ∷ s))

unfoldable pub strtoul : List ℕ → ℕ
unfolding signed skip_spaces isspace digits_value
strtoul s = signed (skip_spaces s)

-- On digits alone the value is read, and clipped to the largest one.
pub strtoul-digit :
    (c : ℕ) (s : List ℕ)
    → isdigit c ≡ true
    → strtoul (c ∷ s)
      ≡ (if ltb ulong_max (digits_value 0 (c ∷ s)) then ulong_max else digits_value 0 (c ∷ s))
unfolding strtoul
strtoul-digit c s h = ground arith

strtoul_runs : (strtoul (codes " -5x") ≡ 18446744073709551611) × (strtoul (codes "0042,7") ≡ 42)
unfolding strtoul
strtoul_runs = (refl, refl)
