-- ===== src/Stats/Rate.antt =====
-- How far apart the samples of vmops_utils_add_stats are, and what the default rate keeps.
use vmopsbench.Common.{
  ℕ, zero, suc, ◌+◌, ◌-◌, ◌≤◌, ◌<◌, ◌≡◌, refl, List, [], ◌∷◌, ◌++◌, map, arith, length, none, some,
  take, drop, replicate,
}
use mathlib.Core.Path.{subst}
use vmopsbench.Platform.{u64_mod}
use vmopsbench.Stats.{Statval, fresh}
use vmopsbench.Stats.Sampling.{run, pick, InTime, run-fresh}

-- Each sample is no earlier than `next`, and each later one at least `delta` after the one before.
abbrev pub Spaced : (delta next : ℕ) → List Statval → Type 0
Spaced delta next [] = Unit
Spaced delta next (c ∷ cs) = (next ≤ c.t_elapsed) × Spaced delta (c.t_elapsed + delta) cs

pick-Spaced : (delta next : ℕ) (cs : List Statval) → Spaced delta next (pick delta next cs)
unfolding pick
pick-Spaced delta next [] = tt
pick-Spaced delta next (c ∷ cs) =
    ground (arith, pick-Spaced delta next cs, pick-Spaced delta (c.t_elapsed + delta) cs)

Spaced-take :
    (delta n next : ℕ) (cs : List Statval) → Spaced delta next cs → Spaced delta next (take n cs)
Spaced-take delta zero next cs h = tt
Spaced-take delta (suc n) next [] h = tt
Spaced-take delta (suc n) next (c ∷ cs) h = (h.0, Spaced-take delta n (c.t_elapsed + delta) cs h.1)

-- Elapsed times that do not go back.
abbrev pub Ordered : (from : ℕ) → List Statval → Type 0
Ordered from [] = Unit
Ordered from (c ∷ cs) = (from ≤ c.t_elapsed) × Ordered c.t_elapsed cs

pick-Ordered : (next : ℕ) (cs : List Statval) → Ordered next cs → pick 0 next cs ≡ cs
unfolding pick
pick-Ordered next [] h = refl
pick-Ordered next (c ∷ cs) h = ground (arith, pick-Ordered (c.t_elapsed + 0) cs)

-- The samples that a thread's buffer of `n` cells holds after any run of calls lie at least the
-- sampling interval apart; the cells behind them are untouched. The condition is that no elapsed
-- time plus the interval reaches 2^64.
pub run-fresh-Spaced :
    (n delta : ℕ) (cs : List Statval)
    → n < u64_mod
    → InTime delta cs
    → (kept : List Statval) × ((run (fresh n delta) cs).values
        ≡ map some kept ++ replicate (n - length kept) none)
      × Spaced delta 0 kept
run-fresh-Spaced n delta cs small fits = (
  take n (pick delta 0 (drop 10 cs)),
  (run-fresh n delta cs small fits).0,
  Spaced-take delta n 0 (pick delta 0 (drop 10 cs)) (pick-Spaced delta 0 (drop 10 cs)),
)

-- At the default rate of 0, with elapsed times that do not go back after the warm-up, every
-- operation after the first ten is stored, in order, until the buffer of `n` cells is full.
pub run-fresh-all :
    (n : ℕ) (cs : List Statval)
    → n < u64_mod
    → InTime 0 cs
    → Ordered 0 (drop 10 cs)
    → let kept = take n (drop 10 cs) in
      (run (fresh n 0) cs).values ≡ map some kept ++ replicate (n - length kept) none
run-fresh-all n cs small fits ordered =
    subst
      (λ ps.
        (run (fresh n 0) cs).values
        ≡ map some (take n ps) ++ replicate (n - length (take n ps)) none)
      (pick-Ordered 0 (drop 10 cs) ordered) (run-fresh n 0 cs small fits).0
