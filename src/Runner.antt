-- ===== src/Runner.antt =====
-- src/benchmarks/utils.c, vmops_utils_run_benchmark: starting the threads, and waiting for them.
pub mod Threads
mod Tests
use vmopsbench.Common.{
  ℕ, zero, suc, ◌+◌, Bool, true, false, if◌then◌else◌, ◌==◌, Option, some, none, List, [], ◌∷◌,
  ◌++◌, take,
}
use vmopsbench.Config.{CoreRead, Status, success, failure}
use vmopsbench.Args.{RunArg}

-- The functions of platform.h that it calls. A thread is started on a core, with the index of its
-- argument block.
pub data Call : Type 0 where
  barrier_init : (nthreads : ℕ) → Call
  barrier_destroy : Call
  thread_start : (index : ℕ) (coreid : CoreRead) → Call
  thread_cancel : (thread : ℕ) → Call
  thread_join : (thread : ℕ) → Call

-- `value` is the thread that plat_thread_start returns, NULL is 0.
pub record Reply : Type 0 where
  pub ok : Bool
  pub value : ℕ

pub record Event : Type 0 where
  pub call : Call
  pub reply : Reply

-- A reply for each call after each history, the latest call first.
abbrev pub Os : Type 0
Os = List Event → Call → Reply

module _ (os : Os) where
  abbrev pub ask : Call → List Event → Reply × List Event
  ask c t = let r = os t c in (r, record { call = c; reply = r } ∷ t)

  unfoldable pub cancel_all : List ℕ → List Event → List Event
  cancel_all [] t = t
  cancel_all (thread ∷ threads) t = cancel_all threads (ask (thread_cancel thread) t).1

  -- Starts the threads from `i` on. The earlier ones are `threads`, in their order.
  unfoldable pub start_all :
      (i : ℕ) (threads : List ℕ) → List RunArg → List Event → Option (List ℕ) × List Event
  unfolding cancel_all
  start_all i threads [] t = (some threads, t)
  start_all i threads (a ∷ args) t =
      let (r, t') = ask (thread_start i a.coreid) t in
      let rest = start_all (i + 1) (threads ++ r.value ∷ []) args t' in
      if r.value == 0 then (none, cancel_all threads t') else rest

  unfoldable pub join_all : List ℕ → List Event → List Event
  join_all [] t = t
  join_all (thread ∷ threads) t =
      join_all threads (if thread == 0 then t else (ask (thread_join thread) t).1)

  -- What follows the start of the threads.
  unfoldable pub wait_all : Option (List ℕ) × List Event → Status × List Event
  unfolding join_all
  wait_all (none, t) = (failure, t)
  wait_all (some threads, t) = (success, (ask barrier_destroy (join_all threads t)).1)

  -- vmops_utils_run_benchmark
  unfoldable pub run_benchmark : (nthreads : ℕ) → List RunArg → List Event → Status × List Event
  unfolding start_all wait_all
  run_benchmark nthreads args t =
      let (r, t') = ask (barrier_init nthreads) t in
      if r.ok then wait_all (start_all 0 [] (take nthreads args) t') else (failure, t')
