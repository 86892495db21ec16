-- ===== src/Bench/TlbShoot/Helper.antt =====
-- The other threads of the TLB shootdown: they leave when they see the flag.
use vmopsbench.Common.{
  ℕ, zero, suc, ◌+◌, ◌<◌, ◌≡◌, ◌≢◌, refl, ◌∙◌, Bool, true, false, ◌==◌, arith, if_cases, ==_iff,
}
use vmopsbench.Config.{Cfg}
use vmopsbench.Bench.World.{Plat, Worker, ask, read_done, delta_of, end_of, sub_u64}
use vmopsbench.Bench.Trace.{live, entered}
use vmopsbench.Bench.Thread.{started}
use vmopsbench.Bench.Quiet.{Quiet, barrier-Quiet, started-Quiet}
use vmopsbench.Bench.TlbShoot.{spin, helper, leave}

-- The thread after `k` readings of the flag.
abbrev pub after_reads : Plat → (k : ℕ) → Worker → Worker
after_reads plat zero w = w
after_reads plat (suc k) w = after_reads plat k (ask plat read_done w).1

-- The reading after `k` others finds the flag set.
abbrev pub SetAt : Plat → (k : ℕ) → Worker → Type 0
SetAt plat k w = (ask plat read_done (after_reads plat k w)).0.value ≢ 0

-- What reading the flag leaves alone.
record Same (v w : Worker) : Type 0 where
  live : live w.trace ≡ live v.trace
  bars : entered w.trace ≡ entered v.trace

-- What a helper leaves that has entered the barrier in `v`.
pub record Left (v w : Worker) (time : ℕ) : Type 0 where
  pub count : w.count ≡ 0
  pub bars : entered w.trace ≡ entered v.trace + 2
  pub live : live w.trace ≡ live v.trace
  pub duration : w.duration ≡ time

module _ (plat : Plat) (cfg : Cfg) (memobj tid : ℕ) where
  reading-live : (w : Worker) → live (ask plat read_done w).1.trace ≡ live w.trace
  reading-live w = ground arith

  spin-Same : (fuel : ℕ) (w : Worker) → Same w (spin plat cfg memobj tid fuel w).1
  unfolding spin
  spin-Same zero w = record { live = refl; bars = refl }
  spin-Same (suc fuel) w =
      let w' = (ask plat read_done w).1 in
      let s = spin-Same fuel w' in
      if_cases (λ (r : Bool × Worker). Same w r.1) ((ask plat read_done w).0.value == 0)
        (λ e. record { live = s.live ∙ reading-live w; bars = omega (arith, s.bars) })
        (λ e. record { live = reading-live w; bars = omega arith })

  spin-leaves :
      (k fuel : ℕ) (w : Worker)
      → SetAt plat k w
      → k < fuel
      → (spin plat cfg memobj tid fuel w).0 ≡ true
  unfolding spin
  spin-leaves k zero w s h = absurd (omega (arith, h))
  spin-leaves zero (suc fuel) w s h =
      if_cases (λ (r : Bool × Worker). r.0 ≡ true) ((ask plat read_done w).0.value == 0)
        (λ e. absurd (s ((==_iff (ask plat read_done w).0.value 0).0 e))) (λ e. refl)
  spin-leaves (suc k) (suc fuel) w s h =
      if_cases (λ (r : Bool × Worker). r.0 ≡ true) ((ask plat read_done w).0.value == 0)
        (λ e. spin-leaves k fuel (ask plat read_done w).1 s (omega (arith, h))) (λ e. refl)

  leave-Left :
      (v u : Worker) (d : ℕ) (r : Bool × Worker)
      → Same u r.1
      → r.0 ≡ true
      → Quiet v u 1
      → let (left, w) = leave plat cfg memobj tid d r in (left ≡ true) × Left v w d
  leave-Left v u d (false, w) s e q = absurd (ground arith)
  leave-Left v u d (true, w) s e q =
      let b = barrier-Quiet plat w in
      (
        refl,
        record {
          count = refl;
          bars = omega (arith, b.bars, s.bars, q.bars);
          live = b.live ∙ s.live ∙ q.live;
          duration = refl;
        },
      )

-- A helper of the TLB shootdown, on any platform where the reading of the flag after `k` others
-- finds it set, stops to spin after at most that many readings, enters the barrier for the second
-- time, and touches no mapping. It reports no operation, and as its duration the configured time
-- limit, or what is left to the end of time when there is none, however long it has run.
pub helper_leaves :
    (plat : Plat) (cfg : Cfg) (memobj tid k fuel : ℕ) (v : Worker)
    → SetAt plat k (started plat v).1
    → k < fuel
    → let (left, w) = helper plat cfg memobj tid fuel v in
      let first = (started plat v).0 in
      (left ≡ true) × Left v w (sub_u64 (end_of (delta_of plat cfg.time_ms) first) first)
unfolding helper started
helper_leaves plat cfg memobj tid k fuel v s h =
    let u = (started plat v).1 in
    let first = (started plat v).0 in
    leave-Left plat cfg memobj tid v u (sub_u64 (end_of (delta_of plat cfg.time_ms) first) first)
      (spin plat cfg memobj tid fuel u) (spin-Same plat cfg memobj tid fuel u)
      (spin-leaves plat cfg memobj tid k fuel u s h) (started-Quiet plat v)
