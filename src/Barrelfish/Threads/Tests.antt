-- ===== src/Barrelfish/Threads/Tests.antt =====
-- Threads on two cores, and the theorem at them.
use vmopsbench.Common.{
  ℕ, suc, ◌≡◌, refl, true, Option, some, none, List, [], ◌∷◌, length, find, remove, IfAny, run_ops,
}
use vmopsbench.Barrelfish.Threads.{
  System, Sys, at_start, plat_thread_start, plat_thread_cancel, plat_thread_join,
  plat_thread_barrier_init,
}
use vmopsbench.Barrelfish.Threads.Memory.{Sound, mallocs, frees}
use vmopsbench.Barrelfish.Threads.Runs.{perform, Op, start, init, join, cancel, run_threads_memory}

abbrev sys : System
sys = record { reply = λ t c. record { ok = true; value = suc (length t) }; core_id = 0 }

-- The barrier is at 1, the threads are at 2 and 68.
abbrev ops : List Op
ops = init 2 ∷ start 1 8 90 0 ∷ start 1 9 90 1 ∷ join 2 ∷ cancel 68 ∷ []

run_threads_memory_example : IfAny (Sound sys) (run_ops (perform sys) ops at_start)
run_threads_memory_example = run_threads_memory sys ops

abbrev allocated : (x : ℕ) → Option Sys → ℕ × ℕ
allocated x none = (0, 0)
allocated x (some s) = (mallocs x s.trace, frees x s.trace)

-- The memory of both threads is freed.
ops_threads :
    (allocated 2 (run_ops (perform sys) ops at_start) ≡ (1, 1))
    × (allocated 68 (run_ops (perform sys) ops at_start) ≡ (1, 1))
unfolding plat_thread_start plat_thread_cancel plat_thread_join plat_thread_barrier_init find remove
ops_threads = (refl, refl)
