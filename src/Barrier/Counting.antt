-- ===== src/Barrier/Counting.antt =====
-- Families indexed by thread: assignment at one index, and the number of the first `n` threads that
-- a weight of 0 or 1 counts.
use vmopsbench.Common.{ℕ, zero, suc, ◌+◌, ◌≤◌, ◌<◌, ◌≡◌, refl, arith, ◌==◌, if◌then◌else◌, dec_lt}

abbrev pub assign {ℓ} : {A : Type ℓ} → (ℕ → A) → ℕ → A → ℕ → A
assign f i a j = if j == i then a else f j

module _ {ℓ} {A : Type ℓ} (w : A → ℕ) where
  pub tally : ℕ → (ℕ → A) → ℕ
  tally zero f = 0
  tally (suc n) f = w (f n) + tally n f

  -- An index outside the range does not count.
  tally-assign_ge : (n : ℕ) (f : ℕ → A) (i : ℕ) (a : A) → n ≤ i → tally n (assign f i a) ≡ tally n f
  unfolding tally
  tally-assign_ge zero f i a h = refl
  tally-assign_ge (suc n) f i a h = ground (arith, tally-assign_ge n f i a)

  pub tally-assign :
      (n : ℕ) (f : ℕ → A) (i : ℕ) (a : A)
      → i < n
      → tally n (assign f i a) + w (f i) ≡ tally n f + w a
  unfolding tally
  tally-assign zero f i a h = absurd (omega arith)
  tally-assign (suc n) f i a h = elim (dec_lt i n) [
    | yes below ↦ ground (arith, tally-assign n f i a below)
    | no last ↦ ground (arith, tally-assign_ge n f i a)
  ]

  pub le-tally : (n : ℕ) (f : ℕ → A) (i : ℕ) → i < n → w (f i) ≤ tally n f
  unfolding tally
  le-tally zero f i h = absurd (omega arith)
  le-tally (suc n) f i h = elim (dec_lt i n) [
    | yes below ↦ omega (arith, le-tally n f i below)
    | no last ↦ ground arith
  ]

  pub tally-zero : (n : ℕ) (f : ℕ → A) → ((i : ℕ) → i < n → w (f i) ≡ 0) → tally n f ≡ 0
  unfolding tally
  tally-zero zero f h = refl
  tally-zero (suc n) f h =
      omega (arith, h n (omega arith), tally-zero n f (λ i p. h i (omega arith)))

  pub none_of_tally : (n : ℕ) (f : ℕ → A) → tally n f ≡ 0 → (i : ℕ) → i < n → w (f i) ≡ 0
  unfolding tally
  none_of_tally zero f h i p = absurd (omega arith)
  none_of_tally (suc n) f h i p = elim (dec_lt i n) [
    | yes below ↦ none_of_tally n f (omega arith) i below
    | no last ↦ ground arith
  ]

  pub tally-all : (n : ℕ) (f : ℕ → A) → ((i : ℕ) → i < n → w (f i) ≡ 1) → tally n f ≡ n
  unfolding tally
  tally-all zero f h = refl
  tally-all (suc n) f h = omega (arith, h n (omega arith), tally-all n f (λ i p. h i (omega arith)))

  module _ (small : (a : A) → w a ≤ 1) where
    pub tally-le : (n : ℕ) (f : ℕ → A) → tally n f ≤ n
    unfolding tally
    tally-le zero f = omega arith
    tally-le (suc n) f = omega (arith, small (f n), tally-le n f)

    pub all_of_tally : (n : ℕ) (f : ℕ → A) → tally n f ≡ n → (i : ℕ) → i < n → w (f i) ≡ 1
    unfolding tally
    all_of_tally zero f h i p = absurd (omega arith)
    all_of_tally (suc n) f h i p = elim (dec_lt i n) [
      | yes below ↦ all_of_tally n f (omega (arith, small (f n), tally-le n f)) i below
      | no last ↦ ground (arith, small (f n), tally-le n f)
    ]

pub tally_mono {ℓ} :
    {A : Type ℓ} (v w : A → ℕ)
    → ((a : A) → v a ≤ w a)
    → (n : ℕ) (f : ℕ → A) → tally v n f ≤ tally w n f
unfolding tally
tally_mono v w h zero f = omega arith
tally_mono v w h (suc n) f = omega (arith, h (f n), tally_mono v w h n f)
