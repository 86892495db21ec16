-- ===== src/Common/Stores.antt =====
-- Structures in allocated memory, as a list of them with their pointers.
use Prim.Native.Nat.{ℕ, ◌+◌}
use mathlib.Core.Path.{◌≡◌}
use mathlib.Core.Bool.{Bool, true, false}
use mathlib.Core.Option.{Option, none, some}
use mathlib.Core.List.{List, [], ◌∷◌}
use native.Mathlib.Omega.{arith}
use vmopsbench.Common.Tests.{◌==◌, ==_iff, if◌then◌else◌}

abbrev pub one_if : Bool → ℕ
one_if true = 1
one_if false = 0

module _ {A : Type 0} where
  -- The structure at a pointer, if there is one.
  unfoldable pub find : (p : ℕ) → List (ℕ × A) → Option A
  find p [] = none
  find p ((q, o) ∷ live) = if q == p then some o else find p live

  unfoldable pub remove : (p : ℕ) → List (ℕ × A) → List (ℕ × A)
  remove p [] = []
  remove p ((q, o) ∷ live) = if q == p then live else (q, o) ∷ remove p live

  -- How many structures are at the pointer.
  abbrev pub held : (x : ℕ) → List (ℕ × A) → ℕ
  held x [] = 0
  held x ((q, o) ∷ live) = one_if (q == x) + held x live

  pub held-remove :
      (p x : ℕ) (live : List (ℕ × A)) (o : A)
      → find p live ≡ some o
      → held x live ≡ held x (remove p live) + one_if (p == x)
  unfolding find remove
  held-remove p x [] o h = cc
  held-remove p x ((q, o') ∷ live) o h = ground (arith, held-remove p x live o, ==_iff q p)
