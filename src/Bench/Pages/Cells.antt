-- ===== src/Bench/Pages/Cells.antt =====
-- Arrays of addresses: how many cells are in use.
use vmopsbench.Common.{
  ℕ, zero, suc, ◌+◌, ◌≡◌, ◌≢◌, refl, ap, Bool, true, false, ◌==◌, List, [], ◌∷◌, ◌++◌, set,
  replicate, length, All, arith,
}

abbrev pub NonNull : ℕ → Type 0
NonNull a = a ≢ 0

abbrev pub one_unless : Bool → ℕ
one_unless true = 0
one_unless false = 1

-- The cells of the array that are not NULL.
abbrev pub in_use : List ℕ → ℕ
in_use [] = 0
in_use (a ∷ l) = one_unless (a == 0) + in_use l

pub in_use-append : (k l : List ℕ) → in_use (k ++ l) ≡ in_use k + in_use l
in_use-append [] l = omega arith
in_use-append (a ∷ k) l = omega (arith, in_use-append k l)

pub in_use-replicate : (n : ℕ) → in_use (replicate n 0) ≡ 0
in_use-replicate zero = refl
in_use-replicate (suc n) = omega (arith, in_use-replicate n)

used : (a : ℕ) → a ≢ 0 → one_unless (a == 0) ≡ 1
used a h = ground (arith, h)

pub All-in_use : (l : List ℕ) → All NonNull l → in_use l ≡ length l
All-in_use [] h = refl
All-in_use (a ∷ l) (h, k) = omega (arith, used a h, All-in_use l k)

pub set-All : (l : List ℕ) (i a : ℕ) → All NonNull l → a ≢ 0 → All NonNull (set l i a)
set-All [] i a h k = tt
set-All (x ∷ l) zero a (h, t) k = (k, t)
set-All (x ∷ l) (suc i) a (h, t) k = (h, set-All l i a t k)

pub append-All : (k l : List ℕ) → All NonNull k → All NonNull l → All NonNull (k ++ l)
append-All [] l h t = t
append-All (a ∷ k) l (x, h) t = (x, append-All k l h t)

pub snoc-append : (k l : List ℕ) (a : ℕ) → k ++ (a ∷ l) ≡ (k ++ (a ∷ [])) ++ l
snoc-append [] l a = refl
snoc-append (x ∷ k) l a = ap (λ t. x ∷ t) (snoc-append k l a)
