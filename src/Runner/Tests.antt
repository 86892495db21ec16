-- ===== src/Runner/Tests.antt =====
-- A run whose second thread cannot be started.
use vmopsbench.Common.{ℕ, ◌≡◌, refl, true, [], ◌∷◌, ltb, if◌then◌else◌, length, arith}
use vmopsbench.Args.{last_arg}
use vmopsbench.Config.{failure}
use vmopsbench.Runner.{Os, run_benchmark}
use vmopsbench.Runner.Threads.{Accounted, run_benchmark_accounts}

abbrev os_of : ℕ → Os
os_of limit t c = record { ok = true; value = if ltb (length t) limit then length t else 0 }

run_at_2 : (run_benchmark (os_of 2) 2 (last_arg ∷ last_arg ∷ []) []).0 ≡ failure
unfolding run_benchmark
run_at_2 = refl

run_benchmark_accounts_example :
    Accounted 1 [] (run_benchmark (os_of 2) 2 (last_arg ∷ last_arg ∷ []) [])
run_benchmark_accounts_example =
    run_benchmark_accounts (os_of 2) 2 (last_arg ∷ last_arg ∷ []) [] 1 (λ z. omega (arith, z))
