-- ===== src/Barrier/Tests.antt =====
-- Two threads at one barrier, and the theorems at the states that they reach.
use vmopsbench.Common.{ℕ, ◌≤◌, ◌<◌, ◌≡◌, refl, arith}
use vmopsbench.Barrier.{
  System, Reach, start, later, pick, load, add, add_last, reset, load_flag, flip, leave,
}
use vmopsbench.Barrier.Safety.{returns, arrivals, IsStuck, no_early_leave, no_deadlock}

abbrev Run : Type 0
Run = (s : System) × Reach 2 s

-- Thread 0 has arrived and spins; thread 1 has done the last add.
abbrev gathered : Run
gathered = (
  _,
  later
      (later
        (later (later start (pick 0 (omega arith) load)) (pick 0 (omega arith) (add (omega arith))))
        (pick 1 (omega arith) load))
      (pick 1 (omega arith) (add_last refl)),
)

-- Thread 1 has flipped the flag and returned; thread 0 has returned too.
abbrev released : Run
released = (
  _,
  later
      (later
        (later (later gathered.1 (pick 1 (omega arith) reset)) (pick 1 (omega arith) load_flag))
        (pick 1 (omega arith) flip))
      (pick 0 (omega arith) (leave (omega arith))),
)

released_mem : released.0.mem ≡ record { counter = 0; cycle = 1 }
released_mem = refl

no_early_leave_example : returns (released.0.pc 0) ≤ arrivals (released.0.pc 1)
no_early_leave_example =
    no_early_leave 0 1 (omega arith) (omega arith) released.1 (omega arith) (omega arith)

no_deadlock_example : ¬ ((i : ℕ) → i < 2 → IsStuck gathered.0.mem (gathered.0.pc i))
no_deadlock_example = no_deadlock {s = gathered.0} (omega arith) (omega arith) gathered.1
