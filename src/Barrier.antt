-- ===== src/Barrier.antt =====
-- src/platform/barrelfish.c, the pthread barrier: a counter and a cycle flag, shared by the
-- threads of a benchmark and accessed in any interleaving.
mod Counting
pub mod Inv
pub mod Moves
pub mod Safety
mod Tests
use vmopsbench.Common.{ℕ, ◌+◌, ◌-◌, ◌%◌, ◌<◌, ◌≡◌, ◌≢◌, if◌then◌else◌, ◌==◌}
use vmopsbench.Platform.{u32_mod}
use vmopsbench.Barrier.Counting.{assign}

-- The fields of struct pthread_barrier that change; `max` is a parameter of the steps.
pub record Mem : Type 0 where
  pub counter : ℕ
  pub cycle : ℕ

-- pthread_barrier_init
abbrev pub barrier_init : Mem
barrier_init = record { counter = 0; cycle = 0 }

-- Where a thread stands in pthread_barrier_wait, with its local variables. `round` is the number
-- of calls that have returned to the thread; the program does not keep it.
pub data Pc : Type 0 where
  outside : (round : ℕ) → Pc
  loaded : (round cycle : ℕ) → Pc  -- after `int cycle = barrier->cycle`
  leading : (round : ℕ) → Pc  -- the add returned max - 1; before `counter = 0`
  resetting : (round : ℕ) → Pc  -- before the load of `cycle` in `cycle = !cycle`
  flipping : (round old : ℕ) → Pc  -- before the store of `!old`
  spinning : (round cycle waitcnt : ℕ) → Pc  -- head of the `while`

-- max - 1, in unsigned arithmetic
abbrev pub last_count : ℕ → ℕ
last_count max = (max + u32_mod - 1) % u32_mod

-- `!c`
abbrev pub negate : ℕ → ℕ
negate c = if c == 0 then 1 else 0

-- One access to shared memory by one thread.
pub data Move (max : ℕ) (m : Mem) : Pc → Mem → Pc → Type 0 where
  load : {r : ℕ} → Move max m (outside r) m (loaded r m.cycle)
  add_last :
      {r c : ℕ}
      → m.counter ≡ last_count max
      → Move max m (loaded r c) (record m { counter = (m.counter + 1) % u32_mod }) (leading r)
  add :
      {r c : ℕ}
      → m.counter ≢ last_count max
      → Move max m (loaded r c) (record m { counter = (m.counter + 1) % u32_mod }) (spinning r c 0)
  reset : {r : ℕ} → Move max m (leading r) (record m { counter = 0 }) (resetting r)
  load_flag : {r : ℕ} → Move max m (resetting r) m (flipping r m.cycle)
  flip : {r v : ℕ} → Move max m (flipping r v) (record m { cycle = negate v }) (outside (r + 1))
  -- at 0x400 rounds the thread yields and starts to count again
  spin :
      {r c k : ℕ}
      → c ≡ m.cycle
      → Move max m (spinning r c k) m (spinning r c (if k == 1024 then 1 else k + 1))
  leave : {r c k : ℕ} → c ≢ m.cycle → Move max m (spinning r c k) m (outside (r + 1))

-- A barrier with its threads; those from the number of threads on never move.
pub record System : Type 0 where
  pub mem : Mem
  pub pc : ℕ → Pc

pub data Step (n : ℕ) (s : System) : System → Type 0 where
  pick :
      (i : ℕ) {m : Mem} {p : Pc}
      → i < n
      → Move n s.mem (s.pc i) m p
      → Step n s (record { mem = m; pc = assign s.pc i p })

abbrev pub init : System
init = record { mem = barrier_init; pc = λ _. outside 0 }

-- The states that `n` threads can reach on a barrier initialised for `n`.
pub data Reach (n : ℕ) : System → Type 0 where
  start : Reach n init
  later : {s t : System} → Reach n s → Step n s t → Reach n t
