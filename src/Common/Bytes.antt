-- ===== src/Common/Bytes.antt =====
-- C strings as lists of their bytes before the terminator, and the C library's operations on them.
use Prim.Native.Nat.{ℕ, zero, suc}
use Prim.Native.Char.{code}
use Prim.Native.String.{String}
use mathlib.Core.Path.{◌≡◌, refl}
use mathlib.Core.Bool.{Bool, true, false, ◌&&◌}
use mathlib.Core.List.{List, [], ◌∷◌, ◌++◌}
use native.Mathlib.Omega.{arith}
use vmopsbench.Common.Tests.{leb, ◌==◌, ==_refl}
use vmopsbench.Common.Lists.{length, drop}

-- The bytes of an ASCII literal.
abbrev pub codes : String → List ℕ
codes String.[] = []
codes (String.◌∷◌ c s) = code c ∷ codes s

-- strncmp (s, t, n) == 0: equal up to `n` bytes, or up to the end of both.
abbrev pub strncmp_eq : List ℕ → List ℕ → ℕ → Bool
strncmp_eq s t zero = true
strncmp_eq [] [] (suc n) = true
strncmp_eq [] (y ∷ t) (suc n) = false
strncmp_eq (x ∷ s) [] (suc n) = false
strncmp_eq (x ∷ s) (y ∷ t) (suc n) = (x == y) && strncmp_eq s t n

-- isdigit
abbrev pub isdigit : ℕ → Bool
isdigit c = leb b'0' c && leb c b'9'

-- A literal is recognised at the head of a string that begins with it.
pub strncmp_eq-append : (t rest : List ℕ) → strncmp_eq (t ++ rest) t (length t) ≡ true
strncmp_eq-append [] rest = refl
strncmp_eq-append (x ∷ t) rest = ground (arith, ==_refl x, strncmp_eq-append t rest)

-- What is recognised stands at the head of the string.
pub strncmp_eq-split :
    (s t : List ℕ) → strncmp_eq s t (length t) ≡ true → s ≡ t ++ drop (length t) s
strncmp_eq-split s [] h = refl
strncmp_eq-split [] (y ∷ t) h = cc
strncmp_eq-split (x ∷ s) (y ∷ t) h = ground (arith, strncmp_eq-split s t)
