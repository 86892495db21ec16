-- ===== src/Linux/Threads.antt =====
-- src/platform/linux.c: the threads and the barriers of the Linux backend, over the allocator and the
-- threads of POSIX.
pub mod Memory
mod Tests
use vmopsbench.Common.{
  ℕ, ◌+◌, Bool, not, if◌then◌else◌, ◌==◌, Option, some, none, List, [], ◌∷◌, find, remove,
}
use vmopsbench.Platform.{PlatError, err_ok, err_no_mem, err_barrier}

-- The calls of the allocator and of the threads library. A barrier or a thread is given to it in the
-- memory at a pointer, or as the thread that it has returned.
pub data Call : Type 0 where
  malloc_thread malloc_barrier : Call
  free : (pointer : ℕ) → Call
  pthread_create : (pointer : ℕ) → Call
  pthread_cancel pthread_join : (thread : ℕ) → Call
  pthread_barrier_init : (pointer count : ℕ) → Call
  pthread_barrier_destroy pthread_barrier_wait : (pointer : ℕ) → Call

-- `ok` is whether malloc returns a pointer, and any other call 0; `value` is the pointer, or the new
-- thread.
pub record Reply : Type 0 where
  pub ok : Bool
  pub value : ℕ

pub record Event : Type 0 where
  pub call : Call
  pub reply : Reply

-- A reply for each call after each history, the latest call first.
abbrev pub Pthreads : Type 0
Pthreads = List Event → Call → Reply

-- struct plat_thread, without the CPU set that the thread fills itself; `st` is the argument block.
pub record Thread : Type 0 where
  pub thread : ℕ
  pub coreid : ℕ
  pub run : ℕ
  pub st : ℕ

-- The structures in allocated memory, and the barriers, by their pointers.
pub record Sys : Type 0 where
  pub trace : List Event
  pub threads : List (ℕ × Thread)
  pub barriers : List ℕ

module _ (lib : Pthreads) where
  abbrev pub ask : Call → Sys → Reply × Sys
  ask c s =
      let r = lib s.trace c in (r, record s { trace = record { call = c; reply = r } ∷ s.trace })

  abbrev pub tell : Call → Sys → Sys
  tell c s = (ask c s).1

  -- plat_thread_start: the handle, none for NULL
  unfoldable pub plat_thread_start : (run st coreid : ℕ) → Sys → Option ℕ × Sys
  plat_thread_start run st coreid s =
      let (m, s1) = ask malloc_thread s in
      let (c, s2) = ask (pthread_create m.value) s1 in
      let thread : Thread = record { thread = c.value; coreid = coreid; run = run; st = st } in
      if not m.ok
      then (none, s1)
      else if not c.ok
      then (none, tell (free m.value) s2)
      else (some m.value, record s2 { threads = (m.value, thread) ∷ s2.threads })

  -- memset(thread, 0, sizeof(*thread)); free(thread)
  abbrev pub discard : (p : ℕ) → Sys → Sys
  discard p s = tell (free p) (record s { threads = remove p s.threads })

  -- plat_thread_cancel; `none` is an access of memory that holds no thread.
  unfoldable pub plat_thread_cancel : (thread : ℕ) → Sys → Option (PlatError × Sys)
  plat_thread_cancel thread s = elim (find thread s.threads) [
    | none ↦ none
    | some o ↦ some (err_ok, discard thread (tell (pthread_cancel o.thread) s))
  ]

  -- plat_thread_join, which does not look at the result of pthread_join
  unfoldable pub plat_thread_join : (other : ℕ) → Sys → Option (PlatError × Sys)
  plat_thread_join other s = elim (find other s.threads) [
    | none ↦ none
    | some o ↦ some (err_ok, discard other (tell (pthread_join o.thread) s))
  ]

  -- plat_thread_barrier_init: its result, and what it writes to *barrier
  unfoldable pub plat_thread_barrier_init : (nthreads : ℕ) → Sys → (PlatError × Option ℕ) × Sys
  plat_thread_barrier_init nthreads s =
      let (m, s1) = ask malloc_barrier s in
      let (i, s2) = ask (pthread_barrier_init m.value nthreads) s1 in
      if not m.ok
      then ((err_no_mem, none), s1)
      else if not i.ok
      then ((err_barrier, none), tell (free m.value) s2)
      else ((err_ok, some m.value), record s2 { barriers = m.value ∷ s2.barriers })

  -- plat_thread_barrier_destroy, which does not free the memory of the barrier
  unfoldable pub plat_thread_barrier_destroy : (barrier : ℕ) → Sys → PlatError × Sys
  plat_thread_barrier_destroy barrier s =
      let (r, s') = ask (pthread_barrier_destroy barrier) s in
      if r.ok then (err_ok, s') else (err_barrier, s')

  -- plat_thread_barrier: any other result than 0 is an error, also that of the last thread to arrive
  unfoldable pub plat_thread_barrier : (barrier : ℕ) → Sys → PlatError × Sys
  plat_thread_barrier barrier s =
      let (r, s') = ask (pthread_barrier_wait barrier) s in
      if r.ok then (err_ok, s') else (err_barrier, s')
