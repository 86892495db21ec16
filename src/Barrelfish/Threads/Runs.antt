-- ===== src/Barrelfish/Threads/Runs.antt =====
-- src/platform/barrelfish.c: any sequence of operations on threads and barriers.
use vmopsbench.Common.{
  ℕ, ◌≡◌, refl, not, Option, some, none, List, if_cases, arith, find, remove, held-remove, state_of,
  IfAny, run_ops, run_ops-IfAny,
}
use vmopsbench.Platform.{PlatError, err_ok}
use vmopsbench.Barrelfish.Threads.{
  malloc_barrier, free, domain_thread_join, System, Thread, Sys, ask, tell, plat_thread_start,
  plat_thread_cancel, join_result, plat_thread_join, plat_thread_barrier_init, at_start,
}
use vmopsbench.Barrelfish.Threads.Memory.{Sound, start-Sound}

-- The operations of platform.h on threads and barriers; the rest of a barrier is the matter of the
-- functions of pthread_barrier_t.
pub data Op : Type 0 where
  start : (run st memobj coreid : ℕ) → Op
  cancel join : (thread : ℕ) → Op
  init : (nthreads : ℕ) → Op

-- The state after one operation; `none` is an access of memory that holds no thread, or a panic.
abbrev pub perform : System → Op → Sys → Option Sys
perform sys (start run st memobj coreid) s = state_of (plat_thread_start sys run st memobj coreid s)
perform sys (cancel thread) s = state_of (plat_thread_cancel sys thread s)
perform sys (join thread) s = state_of (plat_thread_join sys thread s)
perform sys (init nthreads) s = some (plat_thread_barrier_init sys nthreads s).1

module _ (sys : System) where
  cancel-Sound :
      (p : ℕ) (s : Sys) → Sound sys s → IfAny (Sound sys) (state_of (plat_thread_cancel sys p s))
  unfolding plat_thread_cancel
  cancel-Sound p s (w, i) = by_thread (find p s.threads) refl
    where
      by_thread :
          (r : Option Thread)
          → find p s.threads ≡ r
          → IfAny (Sound sys) (
              state_of (elim r [
                | none ↦ none
                | some o ↦
                    some (err_ok, tell sys (free p) (record s { threads = remove p s.threads }))
              ]))
      by_thread none e = tt
      by_thread (some o) e = (λ x. omega (arith, w x, held-remove p x s.threads o e), (tt, i))

  join-Sound :
      (p : ℕ) (s : Sys) → Sound sys s → IfAny (Sound sys) (state_of (plat_thread_join sys p s))
  unfolding plat_thread_join
  join-Sound p s (w, i) = by_thread (find p s.threads) refl
    where
      by_thread :
          (r : Option Thread)
          → find p s.threads ≡ r
          → IfAny (Sound sys) (
              state_of (elim r [
                | none ↦ none
                | some o ↦
                    let (r, s') = ask sys (domain_thread_join o.thread) s in
                    some (
                      join_result sys r.ok,
                      tell sys (free p) (record s' { threads = remove p s'.threads }),
                    )
              ]))
      by_thread none e = tt
      by_thread (some o) e = (λ x. omega (arith, w x, held-remove p x s.threads o e), (tt, (tt, i)))

  init-Sound :
      (nthreads : ℕ) (s : Sys) → Sound sys s → Sound sys (plat_thread_barrier_init sys nthreads s).1
  unfolding plat_thread_barrier_init
  init-Sound nthreads s (w, i) =
      let (m, s1) = ask sys malloc_barrier s in
      let P = λ (r : (PlatError × Option ℕ) × Sys). Sound sys r.1 in
      if_cases P (not m.ok) (λ e. (λ x. ground (arith, w x), (tt, i)))
        (λ e. (λ x. ground (arith, w x), (tt, i)))

  perform-Sound : (op : Op) (s : Sys) → Sound sys s → IfAny (Sound sys) (perform sys op s)
  perform-Sound (start run st memobj coreid) s h = start-Sound sys run st memobj coreid s h
  perform-Sound (cancel thread) s h = cancel-Sound thread s h
  perform-Sound (join thread) s h = join-Sound thread s h
  perform-Sound (init nthreads) s h = init-Sound nthreads s h

-- The threads of the Barrelfish backend after any sequence of operations, whatever the system
-- replies, as long as none is given a pointer to memory that holds no thread and no creation panics:
-- allocated is exactly the memory of the threads that were started and neither joined nor cancelled,
-- and of the barriers; and every thread was created on the core of the caller, or on one to which a
-- capability had been sent before.
pub run_threads_memory :
    (sys : System) (ops : List Op) → IfAny (Sound sys) (run_ops (perform sys) ops at_start)
run_threads_memory sys ops =
    run_ops-IfAny (perform sys) (Sound sys) (perform-Sound sys) ops at_start (λ x. omega arith, tt)
