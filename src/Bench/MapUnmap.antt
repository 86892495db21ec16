-- ===== src/Bench/MapUnmap.antt =====
-- src/benchmarks/mapunmap.c, the threads that map one large region: bench_run_fn and
-- bench_run_nounmap_fn.
pub mod Balance
pub mod Growth
use vmopsbench.Common.{ℕ, suc, ◌+◌, ◌%◌, Bool, true, false, if◌then◌else◌, Option, some, none}
use vmopsbench.Config.{Cfg}
use vmopsbench.Platform.{u64_mod, time_max}
use vmopsbench.Bench.World.{
  Plat, Worker, Cmd, pure, and_then, ◌>>=◌, ◌>>◌, try, tell, clock, sample, vm_map, vm_map_fixed,
  vm_unmap, get_time, barrier, sub_u64, delta_of, nops_of, end_of, map_address,
}
use vmopsbench.Bench.Thread.{no_hooks, measure}

module _ (plat : Plat) (cfg : Cfg) (memobj tid : ℕ) where
  -- The body of the isolated loop of bench_run_fn.
  unfoldable pub round_fixed : (addr t_start counter t_current : ℕ) → Unit {0} → Cmd (ℕ × Unit {0})
  round_fixed addr t_start counter t_current _ = do
    try plat (vm_map_fixed addr cfg.memsize memobj 0 cfg.maphuge)
    try plat (vm_unmap addr cfg.memsize)
    t ← clock plat
    sample tid counter (sub_u64 t t_start) (sub_u64 t t_current)
    pure (t, tt)

  -- The body of the other loop of bench_run_fn: the platform chooses the address.
  unfoldable pub round_any : (t_start counter t_current : ℕ) → Unit {0} → Cmd (ℕ × Unit {0})
  round_any t_start counter t_current _ = do
    addr ← try plat (vm_map cfg.memsize memobj 0 cfg.maphuge)
    try plat (vm_unmap addr cfg.memsize)
    t ← clock plat
    sample tid counter (sub_u64 t t_start) (sub_u64 t t_current)
    pure (t, tt)

  unfoldable pub run_body : (t_start counter t_current : ℕ) → Unit {0} → Cmd (ℕ × Unit {0})
  run_body t_start =
      if cfg.isolated then round_fixed (map_address tid) t_start else round_any t_start

  -- bench_run_fn
  unfoldable pub run_fn : Worker → Worker
  unfolding run_body measure
  run_fn = measure plat no_hooks run_body (delta_of plat cfg.time_ms) (nops_of time_max cfg.nops) tt

  -- The bodies of the loops of bench_run_nounmap_fn; the local is the next address.
  unfoldable pub grow_fixed : (t_start counter t_current : ℕ) → ℕ → Cmd (ℕ × ℕ)
  grow_fixed t_start counter t_current addr = do
    try plat (vm_map_fixed addr cfg.memsize memobj 0 cfg.maphuge)
    t ← clock plat
    sample tid ((counter + 1) % u64_mod) (sub_u64 t t_start) (sub_u64 t t_current)
    pure (t, (addr + cfg.memsize) % u64_mod)

  unfoldable pub grow_any : (t_start counter t_current : ℕ) → ℕ → Cmd (ℕ × ℕ)
  grow_any t_start counter t_current addr = do
    try plat (vm_map cfg.memsize memobj 0 cfg.maphuge)
    t ← clock plat
    sample tid ((counter + 1) % u64_mod) (sub_u64 t t_start) (sub_u64 t t_current)
    pure (t, addr)

  unfoldable pub grow_body : (t_start counter t_current : ℕ) → ℕ → Cmd (ℕ × ℕ)
  grow_body = if cfg.isolated then grow_fixed else grow_any

  -- bench_run_nounmap_fn
  unfoldable pub run_nounmap_fn : Worker → Worker
  unfolding grow_body measure
  run_nounmap_fn =
      measure plat no_hooks grow_body (delta_of plat cfg.time_ms) (nops_of time_max cfg.nops)
        (map_address tid)
