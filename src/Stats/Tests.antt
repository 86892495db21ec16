-- ===== src/Stats/Tests.antt =====
-- The sampling of a few operations, and the theorems at them.
use vmopsbench.Common.{ℕ, ◌≡◌, refl, List, [], ◌∷◌, ◌++◌, some, none, arith, replicate}
use vmopsbench.Stats.{Statval, fresh, add_stats}
use vmopsbench.Stats.Sampling.{run, pick, run-fresh}

abbrev at : ℕ → ℕ → Statval
at c t = record { tid = 1; t_elapsed = t; counter = c; val = 7 }

-- Ten warm-up calls, then operations 5 apart.
abbrev calls : List Statval
calls = replicate 10 (at 0 0) ++ (at 1 5 ∷ at 2 10 ∷ at 3 15 ∷ at 4 20 ∷ [])

run_at_10 : (run (fresh 3 10) calls).values ≡ some (at 1 5) ∷ some (at 3 15) ∷ none ∷ []
unfolding fresh add_stats
run_at_10 = refl

run-fresh_example :
    ((run (fresh 3 10) calls).values ≡ some (at 1 5) ∷ some (at 3 15) ∷ none ∷ [])
    × ((run (fresh 3 10) calls).idx ≡ 2)
unfolding pick
run-fresh_example = run-fresh 3 10 calls (omega arith) (omega arith)
