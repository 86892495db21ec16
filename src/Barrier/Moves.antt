-- ===== src/Barrier/Moves.antt =====
-- Every access by a thread keeps the barrier's invariant; the flip starts a new epoch.
use vmopsbench.Common.{
  ℕ, ◌+◌, ◌%◌, ◌≤◌, ◌<◌, ◌≡◌, ◌≢◌, refl, ◌⊎◌, inl, inr, arith, ◌==◌, if◌then◌else◌, Bool-cases,
}
use mathlib.Core.Path.{subst}
use vmopsbench.Platform.{u32_mod}
use vmopsbench.Barrier.{
  Mem, Pc, outside, loaded, leading, resetting, flipping, spinning, last_count, negate, Move, load,
  add_last, add, reset, load_flag, flip, spin, leave,
}
use vmopsbench.Barrier.Counting.{
  assign, tally, tally-assign, tally-le, tally_mono, le-tally, tally-zero, none_of_tally,
  all_of_tally,
}
use vmopsbench.Barrier.Inv.{arrived, leads, clears, IsFresh, Phase, Inv}

pub arrived-le : (e : ℕ) (p : Pc) → arrived e p ≤ 1
arrived-le e (spinning r c k) = ground arith
arrived-le e _ = omega arith

clears-le-leads : (p : Pc) → clears p ≤ leads p
clears-le-leads (leading r) = omega arith
clears-le-leads _ = omega arith

-- Ready for the epoch after `e`, and not yet arrived there.
abbrev Over : ℕ → Pc → Type 0
Over e p = IsFresh (e + 1) p × (arrived (e + 1) p ≡ 0)

step-Over : (e : ℕ) (p : Pc) → arrived e p ≡ 1 → leads p ≡ 0 → IsFresh e p → Over e p
step-Over e (spinning r c k) a l f = ground arith
step-Over e _ a l f = absurd (omega arith)

module _ {n e : ℕ} {m : Mem} {pc : ℕ → Pc} (inv : Inv n e m pc) (i : ℕ) (here : i < n) where
  -- How the three counts change when thread `i` goes from `p` to `p'`.
  record Shift (p p' : Pc) : Type 0 where
    arrivals :
        tally (arrived e) n (assign pc i p') + arrived e p ≡ tally (arrived e) n pc + arrived e p'
    leaders : tally leads n (assign pc i p') + leads p ≡ tally leads n pc + leads p'
    cleared : tally clears n (assign pc i p') + clears p ≡ tally clears n pc + clears p'
    room : tally (arrived e) n (assign pc i p') ≤ n
    own : IsFresh e p
    others : tally clears n pc + leads p ≤ tally leads n pc + clears p
    leads_in : leads p ≤ tally leads n pc

  others_clear : tally clears n pc + leads (pc i) ≤ tally leads n pc + clears (pc i)
  others_clear = omega (
    arith,
    tally-assign leads n pc i (outside 0) here,
    tally-assign clears n pc i (outside 0) here,
    tally_mono clears leads clears-le-leads n (assign pc i (outside 0)),
  )

  shift : (p' : Pc) → Shift (pc i) p'
  shift p' = record {
    arrivals = tally-assign (arrived e) n pc i p' here;
    leaders = tally-assign leads n pc i p' here;
    cleared = tally-assign clears n pc i p' here;
    room = tally-le (arrived e) (arrived-le e) n (assign pc i p');
    own = inv.fresh i here;
    others = others_clear;
    leads_in = le-tally leads n pc i here;
  }

  fresh-assign : (p' : Pc) → IsFresh e p' → (j : ℕ) → j < n → IsFresh e (assign pc i p' j)
  fresh-assign p' f j h = elim (Bool-cases (j == i)) [
    | inl q ↦ rw q f
    | inr q ↦ rw q (inv.fresh j h)
  ]

  -- What a move other than the flip keeps, in the same epoch.
  record Kept (m' : Mem) (p' : Pc) : Type 0 where
    flag : m'.cycle ≡ e % 2
    phase :
        Phase n m'.counter
          (tally (arrived e) n (assign pc i p'))
          (tally leads n (assign pc i p'))
          (tally clears n (assign pc i p'))
    own : IsFresh e p'

  kept : {m' : Mem} {p' : Pc} → Kept m' p' → Inv n e m' (assign pc i p')
  kept {p'} k = record {
    few = inv.few;
    flag = k.flag;
    phase = k.phase;
    fresh = fresh-assign p' k.own;
  }

  move_load : {r : ℕ} → Shift (outside r) (loaded r m.cycle) → Kept m (loaded r m.cycle)
  move_load s = ground (arith, inv.flag, inv.phase, s.arrivals, s.leaders, s.cleared, s.own)

  move_add_last :
      {r c : ℕ}
      → m.counter ≡ last_count n
      → Shift (loaded r c) (leading r)
      → Kept (record m { counter = (m.counter + 1) % u32_mod }) (leading r)
  move_add_last g s = ground (
    arith, inv.few, inv.flag, inv.phase, s.arrivals, s.leaders, s.cleared, s.room, s.own, s.others,
    s.leads_in,
  )

  move_add :
      {r c : ℕ}
      → m.counter ≢ last_count n
      → Shift (loaded r c) (spinning r c 0)
      → Kept (record m { counter = (m.counter + 1) % u32_mod }) (spinning r c 0)
  move_add g s = ground (
    arith, inv.few, inv.flag, inv.phase, s.arrivals, s.leaders, s.cleared, s.room, s.own, s.others,
    s.leads_in,
  )

  move_reset :
      {r : ℕ} → Shift (leading r) (resetting r) → Kept (record m { counter = 0 }) (resetting r)
  move_reset s = ground (
    arith, inv.few, inv.flag, inv.phase, s.arrivals, s.leaders, s.cleared, s.room, s.own, s.others,
    s.leads_in,
  )

  move_load_flag : {r : ℕ} → Shift (resetting r) (flipping r m.cycle) → Kept m (flipping r m.cycle)
  move_load_flag s = ground (
    arith, inv.few, inv.flag, inv.phase, s.arrivals, s.leaders, s.cleared, s.room, s.own, s.others,
    s.leads_in,
  )

  move_spin :
      {r c k : ℕ}
      → Shift (spinning r c k) (spinning r c (if k == 1024 then 1 else k + 1))
      → Kept m (spinning r c (if k == 1024 then 1 else k + 1))
  move_spin s = ground (
    arith, inv.few, inv.flag, inv.phase, s.arrivals, s.leaders, s.cleared, s.room, s.own, s.others,
    s.leads_in,
  )

  move_leave :
      {r c k : ℕ}
      → c ≢ m.cycle
      → Shift (spinning r c k) (outside (r + 1))
      → Kept m (outside (r + 1))
  move_leave g s = ground (
    arith, inv.few, inv.flag, inv.phase, s.arrivals, s.leaders, s.cleared, s.room, s.own, s.others,
    s.leads_in,
  )

  -- When a thread flips the flag, every thread has arrived, no other thread leads, and the counter
  -- is 0.
  record Complete (r : ℕ) : Type 0 where
    everyone : tally (arrived e) n pc ≡ n
    none_leads : tally leads n (assign pc i (outside (r + 1))) ≡ 0
    none_clears : tally clears n (assign pc i (outside (r + 1))) ≡ 0
    zeroed : m.counter ≡ 0

  complete : {r v : ℕ} → Shift (flipping r v) (outside (r + 1)) → Complete r
  complete s = ground (arith, inv.phase, s.leaders, s.cleared)

  -- So every thread takes the next epoch as the one after its own.
  ahead : {r : ℕ} → r ≡ e → Complete r → (j : ℕ) → j < n → Over e (assign pc i (outside (r + 1)) j)
  ahead {r} own c j h = elim (Bool-cases (j == i)) [
    | inl q ↦ rw q (ground arith)
    | inr q ↦ rw q (
        step-Over e (pc j) (all_of_tally (arrived e) (arrived-le e) n pc c.everyone j h)
          (subst (λ b. leads (if b then outside (r + 1) else pc j) ≡ 0) q
            (none_of_tally leads n (assign pc i (outside (r + 1))) c.none_leads j h))
          (inv.fresh j h))
  ]

  flipped :
      {r v : ℕ}
      → Shift (flipping r v) (outside (r + 1))
      → Inv n (e + 1) (record m { cycle = negate v }) (assign pc i (outside (r + 1)))
  flipped {r} {v} s = record {
    few = inv.few;
    flag = ground (arith, s.own);
    phase = inl (ground (arith, none), c.none_leads, c.none_clears, ground (arith, none));
    fresh = λ j h. (over j h).0;
  }
    where
      c : Complete r
      c = complete s

      over : (j : ℕ) → j < n → Over e (assign pc i (outside (r + 1)) j)
      over = ahead s.own.0 c

      none : tally (arrived (e + 1)) n (assign pc i (outside (r + 1))) ≡ 0
      none = tally-zero (arrived (e + 1)) n (assign pc i (outside (r + 1))) (λ j h. (over j h).1)

  abbrev Next : Mem → Pc → Type 0
  Next m' p' = (e' : ℕ) × ((e' ≡ e) ⊎ (e' ≡ e + 1)) × Inv n e' m' (assign pc i p')

  by_move : {p p' : Pc} {m' : Mem} → Move n m p m' p' → Shift p p' → Next m' p'
  by_move load s = (e, inl refl, kept (move_load s))
  by_move (add_last g) s = (e, inl refl, kept (move_add_last g s))
  by_move (add g) s = (e, inl refl, kept (move_add g s))
  by_move reset s = (e, inl refl, kept (move_reset s))
  by_move load_flag s = (e, inl refl, kept (move_load_flag s))
  by_move flip s = (e + 1, inr refl, flipped s)
  by_move (spin g) s = (e, inl refl, kept (move_spin s))
  by_move (leave g) s = (e, inl refl, kept (move_leave g s))

-- A move of one thread leads to a state of the same epoch or, by the flip, of the next one.
pub Move-Inv :
    {n e : ℕ} {m m' : Mem} {pc : ℕ → Pc} {p : Pc}
    → Inv n e m pc
    → (i : ℕ) → i < n
    → Move n m (pc i) m' p
    → (e' : ℕ) × ((e' ≡ e) ⊎ (e' ≡ e + 1)) × Inv n e' m' (assign pc i p)
Move-Inv {p} inv i here mv = by_move inv i here mv (shift inv i here p)
