-- ===== src/Linux/Threads/Memory.antt =====
-- src/platform/linux.c: the memory of threads and barriers over any sequence of operations.
use vmopsbench.Common.{
  ℕ, ◌+◌, ◌≡◌, refl, ◌&&◌, not, ◌==◌, Option, some, none, List, [], ◌∷◌, if_cases, if_rule, arith,
  find, held, held-remove, state_of, IfAny, run_ops, run_ops-IfAny, one_if,
}
use vmopsbench.Platform.{PlatError, err_ok}
use vmopsbench.Linux.Threads.{
  Call, malloc_thread, malloc_barrier, free, pthread_create, pthread_cancel, pthread_join,
  pthread_barrier_init, pthread_barrier_destroy, pthread_barrier_wait, Reply, Event, Pthreads,
  Thread, Sys, ask, tell, plat_thread_start, discard, plat_thread_cancel, plat_thread_join,
  plat_thread_barrier_init, plat_thread_barrier_destroy, plat_thread_barrier,
}

abbrev given : (x : ℕ) → Reply → ℕ
given x r = one_if (r.ok && (r.value == x))

abbrev is_malloc : (x : ℕ) → Call → Reply → ℕ
is_malloc x malloc_thread r = given x r
is_malloc x malloc_barrier r = given x r
is_malloc x _ r = 0

abbrev is_free : (x : ℕ) → Call → ℕ
is_free x (free p) = one_if (p == x)
is_free x _ = 0

-- How often malloc has returned the pointer `x`, and how often it was freed.
abbrev pub mallocs : (x : ℕ) → List Event → ℕ
mallocs x [] = 0
mallocs x (e ∷ t) = is_malloc x e.call e.reply + mallocs x t

abbrev pub frees : (x : ℕ) → List Event → ℕ
frees x [] = 0
frees x (e ∷ t) = is_free x e.call + frees x t

abbrev pub barriers_at : (x : ℕ) → List ℕ → ℕ
barriers_at x [] = 0
barriers_at x (q ∷ l) = one_if (q == x) + barriers_at x l

-- What is allocated: the threads that were neither joined nor cancelled, and every barrier.
abbrev pub Owned : Sys → Type 0
Owned s =
    (x : ℕ) → mallocs x s.trace ≡ frees x s.trace + held x s.threads + barriers_at x s.barriers

-- The operations of platform.h on threads and barriers.
pub data Op : Type 0 where
  start : (run st coreid : ℕ) → Op
  cancel join : (thread : ℕ) → Op
  init : (nthreads : ℕ) → Op
  destroy wait : (barrier : ℕ) → Op

-- The state after one operation; `none` is an access of memory that holds no thread.
abbrev pub perform : Pthreads → Op → Sys → Option Sys
perform lib (start run st coreid) s = some (plat_thread_start lib run st coreid s).1
perform lib (cancel thread) s = state_of (plat_thread_cancel lib thread s)
perform lib (join thread) s = state_of (plat_thread_join lib thread s)
perform lib (init nthreads) s = some (plat_thread_barrier_init lib nthreads s).1
perform lib (destroy barrier) s = some (plat_thread_barrier_destroy lib barrier s).1
perform lib (wait barrier) s = some (plat_thread_barrier lib barrier s).1

module _ (lib : Pthreads) where
  start-Owned :
      (run st coreid : ℕ) (s : Sys) → Owned s → Owned (plat_thread_start lib run st coreid s).1
  unfolding plat_thread_start
  start-Owned run st coreid s w =
      let (m, s1) = ask lib malloc_thread s in
      let (c, s2) = ask lib (pthread_create m.value) s1 in
      let P = λ (r : Option ℕ × Sys). Owned r.1 in
      if_cases P (not m.ok) (λ e x. ground (arith, w x))
        (λ e. if_cases P (not c.ok) (λ f x. ground (arith, w x)) (λ f x. ground (arith, w x)))

  init-Owned :
      (nthreads : ℕ) (s : Sys) → Owned s → Owned (plat_thread_barrier_init lib nthreads s).1
  unfolding plat_thread_barrier_init
  init-Owned nthreads s w =
      let (m, s1) = ask lib malloc_barrier s in
      let (i, s2) = ask lib (pthread_barrier_init m.value nthreads) s1 in
      let P = λ (r : (PlatError × Option ℕ) × Sys). Owned r.1 in
      if_cases P (not m.ok) (λ e x. ground (arith, w x))
        (λ e. if_cases P (not i.ok) (λ f x. ground (arith, w x)) (λ f x. ground (arith, w x)))

  cancel-Owned : (p : ℕ) (s : Sys) → Owned s → IfAny Owned (state_of (plat_thread_cancel lib p s))
  unfolding plat_thread_cancel
  cancel-Owned p s w = by_thread (find p s.threads) refl
    where
      by_thread :
          (r : Option Thread)
          → find p s.threads ≡ r
          → IfAny Owned (
              state_of (elim r [
                | none ↦ none
                | some o ↦ some (err_ok, discard lib p (tell lib (pthread_cancel o.thread) s))
              ]))
      by_thread none e = tt
      by_thread (some o) e = λ x. omega (arith, w x, held-remove p x s.threads o e)

  join-Owned : (p : ℕ) (s : Sys) → Owned s → IfAny Owned (state_of (plat_thread_join lib p s))
  unfolding plat_thread_join
  join-Owned p s w = by_thread (find p s.threads) refl
    where
      by_thread :
          (r : Option Thread)
          → find p s.threads ≡ r
          → IfAny Owned (
              state_of (elim r [
                | none ↦ none
                | some o ↦ some (err_ok, discard lib p (tell lib (pthread_join o.thread) s))
              ]))
      by_thread none e = tt
      by_thread (some o) e = λ x. omega (arith, w x, held-remove p x s.threads o e)

  destroy-Owned : (b : ℕ) (s : Sys) → Owned s → Owned (plat_thread_barrier_destroy lib b s).1
  unfolding plat_thread_barrier_destroy
  destroy-Owned b s w =
      let ok = (ask lib (pthread_barrier_destroy b) s).0.ok in
      let done : Owned (tell lib (pthread_barrier_destroy b) s) = λ x. omega (arith, w x) in
      if_rule (λ (r : PlatError × Sys). Owned r.1) ok done done

  wait-Owned : (b : ℕ) (s : Sys) → Owned s → Owned (plat_thread_barrier lib b s).1
  unfolding plat_thread_barrier
  wait-Owned b s w =
      let ok = (ask lib (pthread_barrier_wait b) s).0.ok in
      let done : Owned (tell lib (pthread_barrier_wait b) s) = λ x. omega (arith, w x) in
      if_rule (λ (r : PlatError × Sys). Owned r.1) ok done done

  perform-Owned : (op : Op) (s : Sys) → Owned s → IfAny Owned (perform lib op s)
  perform-Owned (start run st coreid) s w = start-Owned run st coreid s w
  perform-Owned (cancel thread) s w = cancel-Owned thread s w
  perform-Owned (join thread) s w = join-Owned thread s w
  perform-Owned (init nthreads) s w = init-Owned nthreads s w
  perform-Owned (destroy barrier) s w = destroy-Owned barrier s w
  perform-Owned (wait barrier) s w = wait-Owned barrier s w

-- No thread, no barrier and no call yet.
abbrev pub at_start : Sys
at_start = record { trace = []; threads = []; barriers = [] }

-- The threads and barriers of the Linux backend after any sequence of operations, whatever the calls
-- return, as long as none is given a pointer to memory that holds no thread: allocated is exactly the
-- memory of the threads that were started and neither joined nor cancelled, and of every barrier that
-- was initialised, also of those that were destroyed since.
pub run_ops_memory :
    (lib : Pthreads) (ops : List Op) → IfAny Owned (run_ops (perform lib) ops at_start)
run_ops_memory lib ops =
    run_ops-IfAny (perform lib) Owned (perform-Owned lib) ops at_start (λ x. omega arith)
