-- ===== src/Bench/TlbShoot.antt =====
-- src/benchmarks/tlbshoot.c: thread 0 maps and unmaps memory, while the other threads touch memory of
-- the same address space until thread 0 says that it is done.
pub mod Announce
pub mod Helper
use vmopsbench.Common.{ℕ, zero, suc, Bool, true, false, if◌then◌else◌, ◌==◌}
use vmopsbench.Config.{Cfg}
use vmopsbench.Platform.{time_max}
use vmopsbench.Bench.World.{
  Plat, Worker, ask, tell, now, vm_map, barrier, read_done, write_done, is_ok, sub_u64, delta_of,
  nops_of, end_of,
}
use vmopsbench.Bench.Thread.{Hooks, measure}
use vmopsbench.Bench.MapUnmap.{run_body}

module _ (plat : Plat) (cfg : Cfg) (memobj tid : ℕ) where
  -- *done = 0x1, between the last reading of the time and the barrier
  unfoldable pub announce : Hooks (Unit {0})
  announce = record { publish = λ w. tell plat write_done w; recover = λ s w. w }

  -- while (!*done): `false` when the fuel is gone, which is a thread that still spins.
  unfoldable pub spin : (fuel : ℕ) → Worker → Bool × Worker
  spin zero w = (false, w)
  spin (suc fuel) w =
      let (r, w') = ask plat read_done w in
      let rest = spin fuel w' in if r.value == 0 then rest else (true, w')

  -- After the loop of a thread that is not thread 0.
  abbrev pub leave : (duration : ℕ) → Bool × Worker → Bool × Worker
  leave duration (false, w) = (false, w)
  leave duration (true, w) = (true, record (tell plat barrier w) { count = 0; duration = duration })

  unfoldable pub helper : (fuel : ℕ) → Worker → Bool × Worker
  unfolding spin
  helper fuel w =
      let (t_start, w') = now plat (tell plat barrier w) in
      let t_end = end_of (delta_of plat cfg.time_ms) t_start in
      leave (sub_u64 t_end t_start) (spin fuel w')

  -- The loops are those of mapunmap.c.
  unfoldable pub shooter : Worker → Worker
  unfolding measure announce
  shooter w =
      measure plat announce (run_body plat cfg memobj tid) (delta_of plat cfg.time_ms)
        (nops_of time_max cfg.nops) tt w

  -- bench_run_fn; `false` while the thread spins.
  unfoldable pub run_fn : (fuel : ℕ) → Worker → Bool × Worker
  unfolding helper shooter
  run_fn fuel w =
      let (r, w') = ask plat (vm_map cfg.memsize memobj 0 cfg.maphuge) w in
      if is_ok r.err then (if tid == 0 then (true, shooter w') else helper fuel w') else (true, w')
