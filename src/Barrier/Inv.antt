-- ===== src/Barrier/Inv.antt =====
-- The invariant of the barrier: what the counter, the flag and the threads say of the epoch, which
-- is the number of times that the flag has been flipped.
use vmopsbench.Common.{ℕ, ◌+◌, ◌%◌, ◌≤◌, ◌<◌, ◌≡◌, ◌⊎◌, ◌==◌, if◌then◌else◌}
use vmopsbench.Platform.{u32_mod}
use vmopsbench.Barrier.{Mem, Pc, outside, loaded, leading, resetting, flipping, spinning}
use vmopsbench.Barrier.Counting.{tally}

-- The thread has done its add in epoch `e`.
abbrev pub arrived : ℕ → Pc → ℕ
arrived e (outside r) = 0
arrived e (loaded r c) = 0
arrived e (leading r) = 1
arrived e (resetting r) = 1
arrived e (flipping r v) = 1
arrived e (spinning r c k) = if r == e then 1 else 0

-- It was the last to arrive, and has not flipped the flag.
abbrev pub leads : Pc → ℕ
leads (leading r) = 1
leads (resetting r) = 1
leads (flipping r v) = 1
leads _ = 0

-- It has set the counter to 0, and has not flipped the flag.
abbrev pub clears : Pc → ℕ
clears (resetting r) = 1
clears (flipping r v) = 1
clears _ = 0

-- What the locals of a thread say in epoch `e`.
abbrev pub IsFresh : ℕ → Pc → Type 0
IsFresh e (outside r) = r ≡ e
IsFresh e (loaded r c) = (r ≡ e) × (c ≡ e % 2)
IsFresh e (leading r) = r ≡ e
IsFresh e (resetting r) = r ≡ e
IsFresh e (flipping r v) = (r ≡ e) × (v ≡ e % 2)
IsFresh e (spinning r c k) = ((r ≡ e) ⊎ (r + 1 ≡ e)) × (c ≡ r % 2) × (k ≤ 1024)

-- Threads arrive; or one of them leads and has yet to clear the counter; or has cleared it.
abbrev pub Phase : (n counter arrivals leaders cleared : ℕ) → Type 0
Phase n counter a l k =
    ((a < n) × (l ≡ 0) × (k ≡ 0) × (counter ≡ a))
    ⊎ (((a ≡ n) × (l ≡ 1) × (k ≡ 0) × (counter ≡ n))
        ⊎ ((a ≡ n) × (l ≡ 1) × (k ≡ 1) × (counter ≡ 0)))

pub record Inv (n e : ℕ) (m : Mem) (pc : ℕ → Pc) : Type 0 where
  pub few : n < u32_mod
  pub flag : m.cycle ≡ e % 2
  pub phase : Phase n m.counter (tally (arrived e) n pc) (tally leads n pc) (tally clears n pc)
  pub fresh : (i : ℕ) → i < n → IsFresh e (pc i)
