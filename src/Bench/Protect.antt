-- ===== src/Bench/Protect.antt =====
-- src/benchmarks/protect.c, the threads that change the protection of one large region:
-- bench_run_fn.
pub mod Cycle
use vmopsbench.Common.{ℕ, Bool, true, false, if◌then◌else◌, Option, some, none}
use vmopsbench.Config.{Cfg}
use vmopsbench.Platform.{read_only, read_write, time_max}
use vmopsbench.Bench.World.{
  Plat, Worker, Cmd, pure, and_then, ◌>>=◌, ◌>>◌, try, tell, clock, vm_map, vm_map_fixed, vm_unmap,
  vm_protect, delta_of, nops_of, map_address,
}
use vmopsbench.Bench.Thread.{Hooks, measure}

module _ (plat : Plat) (cfg : Cfg) (memobj tid : ℕ) where
  -- The mapping made before the measurement, and its address.
  unfoldable pub prepare : Cmd ℕ
  prepare =
      if cfg.isolated
      then (do
        let addr = map_address tid
        try plat (vm_map_fixed addr cfg.memsize memobj 0 cfg.maphuge)
        pure addr)
      else try plat (vm_map cfg.memsize memobj 0 cfg.maphuge)

  -- The body of the loop.
  unfoldable pub cycle : (t_start counter t_current : ℕ) → (addr : ℕ) → Cmd (ℕ × ℕ)
  cycle t_start counter t_current addr = do
    try plat (vm_protect addr cfg.memsize read_only)
    try plat (vm_protect addr cfg.memsize read_write)
    t ← clock plat
    pure (t, addr)

  -- err_out: plat_vm_unmap(addr, cfg->memsize)
  unfoldable pub on_error : Hooks ℕ
  on_error = record {
    publish = λ w. w;
    recover = λ addr w. tell plat (vm_unmap addr cfg.memsize) w;
  }

  unfoldable pub begin : Option ℕ × Worker → Worker
  unfolding measure on_error
  begin (none, w) = w
  begin (some addr, w) =
      measure plat on_error cycle (delta_of plat cfg.time_ms) (nops_of time_max cfg.nops) addr w

  -- bench_run_fn
  unfoldable pub run_fn : Worker → Worker
  unfolding begin
  run_fn w = begin (prepare w)
