-- ===== src/Linux/Threads/Tests.antt =====
-- Two threads and a barrier, and the theorem at them.
use vmopsbench.Common.{
  ℕ, suc, ◌≡◌, refl, true, Option, some, none, List, [], ◌∷◌, length, find, remove, IfAny, run_ops,
}
use vmopsbench.Linux.Threads.{
  Pthreads, Sys, plat_thread_start, plat_thread_join, plat_thread_cancel, plat_thread_barrier_init,
  plat_thread_barrier_destroy, plat_thread_barrier,
}
use vmopsbench.Linux.Threads.Memory.{
  perform, Owned, Op, init, start, wait, join, cancel, destroy, at_start, run_ops_memory, mallocs,
  frees,
}

abbrev lib : Pthreads
lib t c = record { ok = true; value = suc (length t) }

-- The barrier is at 1, the threads are at 3 and 5.
abbrev ops : List Op
ops = init 2 ∷ start 1 8 0 ∷ start 1 9 1 ∷ wait 1 ∷ join 3 ∷ cancel 5 ∷ destroy 1 ∷ []

run_ops_memory_example : IfAny Owned (run_ops (perform lib) ops at_start)
run_ops_memory_example = run_ops_memory lib ops

abbrev allocated : (x : ℕ) → Option Sys → ℕ × ℕ
allocated x none = (0, 0)
allocated x (some s) = (mallocs x s.trace, frees x s.trace)

-- The barrier is destroyed, but its memory is not freed.
ops_barrier : allocated 1 (run_ops (perform lib) ops at_start) ≡ (1, 0)
unfolding plat_thread_start plat_thread_join plat_thread_cancel plat_thread_barrier_init
    plat_thread_barrier_destroy plat_thread_barrier find remove
ops_barrier = refl
