-- ===== src/Barrelfish/Threads.antt =====
-- src/platform/barrelfish.c: the threads and the barriers of the Barrelfish backend, over the
-- allocator and the domain of the system.
pub mod Memory
pub mod Runs
mod Tests
use vmopsbench.Common.{
  ℕ, zero, suc, ◌+◌, Bool, true, false, not, if◌then◌else◌, ◌==◌, Option, some, none, List, [], ◌∷◌,
  find, remove,
}
use vmopsbench.Platform.{PlatError, err_ok, err_no_mem, err_thread_join}
use vmopsbench.Barrier.{Mem, barrier_init}

-- The calls of the allocator and of the system. A capability that is sent is that of the frame of a
-- memory object; a thread gets the pointer to its structure.
pub data Call : Type 0 where
  malloc_thread malloc_barrier : Call
  free : (pointer : ℕ) → Call
  domain_send_cap : (coreid memobj : ℕ) → Call
  event_dispatch thread_yield : Call
  domain_thread_create_on : (coreid pointer : ℕ) → Call
  domain_thread_join : (thread : ℕ) → Call

-- `value` is the pointer, or the thread that is created.
pub record Reply : Type 0 where
  pub ok : Bool
  pub value : ℕ

pub record Event : Type 0 where
  pub call : Call
  pub reply : Reply

-- A reply for each call after each history, the latest call first, and the core of the caller.
pub record System : Type 0 where
  pub reply : List Event → Call → Reply
  pub core_id : ℕ

-- struct plat_thread; `st` is the argument block.
pub record Thread : Type 0 where
  pub thread : ℕ
  pub coreid : ℕ
  pub run : ℕ
  pub st : ℕ

-- The structures in allocated memory, and the barriers with their `max`, by their pointers.
pub record Sys : Type 0 where
  pub trace : List Event
  pub threads : List (ℕ × Thread)
  pub barriers : List (ℕ × ℕ × Mem)

module _ (sys : System) where
  abbrev pub ask : Call → Sys → Reply × Sys
  ask c s =
      let r = sys.reply s.trace c in
      (r, record s { trace = record { call = c; reply = r } ∷ s.trace })

  abbrev pub tell : Call → Sys → Sys
  tell c s = (ask c s).1

  -- for (i = 0; i < n; i++) { event_dispatch_non_block(...); thread_yield(); }
  unfoldable pub let_run : (n : ℕ) → Sys → Sys
  let_run zero s = s
  let_run (suc n) s = let_run n (tell thread_yield (tell event_dispatch s))

  -- The creation, from the first rounds of yielding on; `none` is the panic when it fails.
  unfoldable pub create_thread : (p run st coreid : ℕ) → Sys → Option (Option ℕ × Sys)
  unfolding let_run
  create_thread p run st coreid s =
      let (c, s') = ask (domain_thread_create_on coreid p) (let_run 16 s) in
      let thread : Thread = record { thread = c.value; coreid = coreid; run = run; st = st } in
      if c.ok
      then some (some p, let_run 16 (record s' { threads = (p, thread) ∷ s'.threads }))
      else none

  -- plat_thread_start, for an argument block whose object is `memobj`: the handle, none for NULL
  unfoldable pub plat_thread_start : (run st memobj coreid : ℕ) → Sys → Option (Option ℕ × Sys)
  unfolding create_thread
  plat_thread_start run st memobj coreid s =
      let (m, s1) = ask malloc_thread s in
      let (c, s2) = ask (domain_send_cap coreid memobj) s1 in
      if not m.ok
      then some (none, s1)
      else if coreid == sys.core_id
      then create_thread m.value run st coreid s1
      else if not c.ok
      then some (none, tell (free m.value) s2)
      else create_thread m.value run st coreid s2

  -- plat_thread_cancel, which stops no thread; `none` is an access of memory that holds no thread.
  unfoldable pub plat_thread_cancel : (thread : ℕ) → Sys → Option (PlatError × Sys)
  plat_thread_cancel thread s = elim (find thread s.threads) [
    | none ↦ none
    | some o ↦ some (err_ok, tell (free thread) (record s { threads = remove thread s.threads }))
  ]

  abbrev pub join_result : Bool → PlatError
  join_result true = err_ok
  join_result false = err_thread_join

  -- plat_thread_join, which frees the structure also when the thread could not be joined
  unfoldable pub plat_thread_join : (other : ℕ) → Sys → Option (PlatError × Sys)
  plat_thread_join other s = elim (find other s.threads) [
    | none ↦ none
    | some o ↦
        let (r, s') = ask (domain_thread_join o.thread) s in
        some (join_result r.ok, tell (free other) (record s' { threads = remove other s'.threads }))
  ]

  -- plat_thread_barrier_init: its result, and what it writes to *barrier; the function
  -- pthread_barrier_init of the same file returns 0
  unfoldable pub plat_thread_barrier_init : (nthreads : ℕ) → Sys → (PlatError × Option ℕ) × Sys
  plat_thread_barrier_init nthreads s =
      let (m, s1) = ask malloc_barrier s in
      if not m.ok then ((err_no_mem, none), s1) else (
        (err_ok, some m.value),
        record s1 { barriers = (m.value, nthreads, barrier_init) ∷ s1.barriers },
      )

-- No thread, no barrier and no call yet.
abbrev pub at_start : Sys
at_start = record { trace = []; threads = []; barriers = [] }
