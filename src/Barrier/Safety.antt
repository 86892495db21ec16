-- ===== src/Barrier/Safety.antt =====
-- What holds in every state that the threads of a barrier can reach.
use vmopsbench.Common.{ℕ, ◌+◌, ◌%◌, ◌≤◌, ◌<◌, ◌≡◌, refl, inl, arith}
use vmopsbench.Platform.{u32_mod}
use vmopsbench.Barrier.{
  Mem, Pc, outside, loaded, leading, resetting, flipping, spinning, System, Step, pick, init, Reach,
  start, later,
}
use vmopsbench.Barrier.Counting.{tally, tally-zero, tally-all}
use vmopsbench.Barrier.Inv.{arrived, leads, clears, IsFresh, Inv}
use vmopsbench.Barrier.Moves.{Move-Inv}

Inv-init : (n : ℕ) → 0 < n → n < u32_mod → Inv n 0 init.mem init.pc
Inv-init n some_thread few =
    let a = tally-zero (arrived 0) n init.pc (λ i h. refl) in
    let l = tally-zero leads n init.pc (λ i h. refl) in
    let k = tally-zero clears n init.pc (λ i h. refl) in
    record {
      few = few;
      flag = refl;
      phase = inl (omega arith, l, k, omega arith);
      fresh = λ i h. refl;
    }

Step-Inv :
    {n e : ℕ} {s t : System} → Step n s t → Inv n e s.mem s.pc → (e' : ℕ) × Inv n e' t.mem t.pc
Step-Inv (pick i h mv) inv = let (e', _, inv') = Move-Inv inv i h mv in (e', inv')

pub Reach-Inv :
    {n : ℕ} {s : System} → 0 < n → n < u32_mod → Reach n s → (e : ℕ) × Inv n e s.mem s.pc
Reach-Inv {n} some_thread few start = (0, Inv-init n some_thread few)
Reach-Inv some_thread few (later r st) =
    let (e, inv) = Reach-Inv some_thread few r in Step-Inv st inv

-- The calls of the barrier that have returned to the thread, and those in which it has arrived.
abbrev pub returns : Pc → ℕ
returns (outside r) = r
returns (loaded r c) = r
returns (leading r) = r
returns (resetting r) = r
returns (flipping r v) = r
returns (spinning r c k) = r

abbrev pub arrivals : Pc → ℕ
arrivals (outside r) = r
arrivals (loaded r c) = r
arrivals p = returns p + 1

returns-le : (e : ℕ) (p : Pc) → IsFresh e p → returns p ≤ e
returns-le e (spinning r c k) f = ground arith
returns-le e (loaded r c) f = omega arith
returns-le e (flipping r v) f = omega arith
returns-le e _ f = omega arith

le-arrivals : (e : ℕ) (p : Pc) → IsFresh e p → e ≤ arrivals p
le-arrivals e (spinning r c k) f = ground arith
le-arrivals e (loaded r c) f = omega arith
le-arrivals e (flipping r v) f = omega arith
le-arrivals e _ f = omega arith

-- No thread leaves early: with at least one and fewer than 2^32 threads, in every reachable state a
-- thread has returned from no more calls than every thread has arrived in.
pub no_early_leave :
    {n : ℕ} {s : System} (i j : ℕ)
    → 0 < n
    → n < u32_mod
    → Reach n s
    → i < n
    → j < n
    → returns (s.pc i) ≤ arrivals (s.pc j)
no_early_leave {s} i j some_thread few r hi hj =
    let (e, inv) = Reach-Inv some_thread few r in
    omega (arith, returns-le e (s.pc i) (inv.fresh i hi), le-arrivals e (s.pc j) (inv.fresh j hj))

-- The thread would go round its `while` for as long as no other thread moves.
abbrev pub IsStuck : Mem → Pc → Type 0
IsStuck m (spinning r c k) = c ≡ m.cycle
IsStuck m _ = ⊥

stuck-arrived :
    (e : ℕ) (m : Mem) (p : Pc)
    → m.cycle ≡ e % 2
    → IsFresh e p
    → IsStuck m p
    → (arrived e p ≡ 1) × (leads p ≡ 0)
stuck-arrived e m (spinning r c k) flag f st = ground arith
stuck-arrived e m (loaded r c) flag f st = absurd st
stuck-arrived e m _ flag f st = absurd st

all_arrived :
    {n e : ℕ} {m : Mem} {pc : ℕ → Pc}
    → Inv n e m pc
    → tally (arrived e) n pc ≡ n
    → tally leads n pc ≡ 0
    → ⊥
all_arrived inv a l = ground (arith, inv.phase)

-- No deadlock among threads that all call the barrier: in no reachable state do all of them spin
-- on a flag that still has the value they loaded.
pub no_deadlock :
    {n : ℕ} {s : System}
    → 0 < n
    → n < u32_mod
    → Reach n s
    → ¬ ((i : ℕ) → i < n → IsStuck s.mem (s.pc i))
no_deadlock {n} {s} some_thread few r stuck =
    let (e, inv) = Reach-Inv some_thread few r in
    let each =
      λ (i : ℕ) (h : i < n). stuck-arrived e s.mem (s.pc i) inv.flag (inv.fresh i h) (stuck i h) in
    all_arrived inv (tally-all (arrived e) n s.pc (λ i h. (each i h).0))
      (tally-zero leads n s.pc (λ i h. (each i h).1))

-- The count of rounds that a spinning thread keeps.
abbrev pub waited : Pc → ℕ
waited (spinning r c k) = k
waited _ = 0

waited-le : (e : ℕ) (p : Pc) → IsFresh e p → waited p ≤ 1024
waited-le e (spinning r c k) f = f.2
waited-le e _ f = omega arith

-- The shared words and the local count stay in range: the counter is at most the number of
-- threads, so the unsigned add never wraps; the flag is 0 or 1; a thread yields by round 1024.
pub Reach-bounds :
    {n : ℕ} {s : System} (i : ℕ)
    → 0 < n
    → n < u32_mod
    → Reach n s
    → i < n
    → (s.mem.counter ≤ n) × (s.mem.cycle < 2) × (waited (s.pc i) ≤ 1024)
Reach-bounds {s} i some_thread few r h =
    let (e, inv) = Reach-Inv some_thread few r in
    (counter-le inv, omega (arith, inv.flag), waited-le e (s.pc i) (inv.fresh i h))
  where
    counter-le : {n e : ℕ} {m : Mem} {pc : ℕ → Pc} → Inv n e m pc → m.counter ≤ n
    counter-le inv = ground (arith, inv.phase)
