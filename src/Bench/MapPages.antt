-- ===== src/Bench/MapPages.antt =====
-- src/benchmarks/mapunmap.c, the threads that only map, in pages of 4 KiB: bench_run_nounmap_4k_fn.
pub mod Growth
use vmopsbench.Common.{
  ℕ, suc, ◌+◌, ◌*◌, ◌%◌, Bool, true, false, if◌then◌else◌, ◌==◌, Option, some, none,
}
use vmopsbench.Config.{Cfg}
use vmopsbench.Platform.{base_page_size, u64_mod, time_max}
use vmopsbench.Bench.World.{
  Plat, Worker, Cmd, pure, and_then, ◌>>=◌, ◌>>◌, try, tell, now, clock, vm_map, vm_map_fixed,
  barrier, sub_u64, delta_of, nops_of, end_of, map_address,
}
use vmopsbench.Bench.Loop.{Ended, finished, aborted, out_of_fuel, timed_loop}
use vmopsbench.Bench.Pages.{nmaps_of, index, Result, done, trapped, no_fuel}

-- The locals of the loop: `page` and `addr`.
abbrev pub Place : Type 0
Place = ℕ × ℕ

module _ (plat : Plat) (cfg : Cfg) (memobj tid : ℕ) where
  -- The rounds of the two loops; they are run only where there are pages.
  unfoldable pub add_fixed : (t_start counter t_current : ℕ) → Place → Cmd (ℕ × Place)
  add_fixed t_start counter t_current (page, addr) = do
    let idx = index (nmaps_of cfg) page
    try plat (vm_map_fixed addr base_page_size memobj (idx * base_page_size) cfg.maphuge)
    t ← clock plat
    pure (t, ((page + 1) % u64_mod, (addr + base_page_size) % u64_mod))

  unfoldable pub add_any : (t_start counter t_current : ℕ) → Place → Cmd (ℕ × Place)
  add_any t_start counter t_current (page, addr) = do
    let idx = index (nmaps_of cfg) page
    try plat (vm_map base_page_size memobj (idx * base_page_size) cfg.maphuge)
    t ← clock plat
    pure (t, ((page + 1) % u64_mod, addr))

  -- A round, or the division by zero.
  unfoldable pub add_page : (t_start counter t_current : ℕ) → Place → Cmd (ℕ × Place)
  unfolding add_fixed add_any
  add_page t_start counter t_current s w =
      if nmaps_of cfg == 0
      then (none, w)
      else (if cfg.isolated
          then add_fixed t_start counter t_current s w
          else add_any t_start counter t_current s w)

  -- cleanup_and_exit, which a failed call reaches without writing the results
  unfoldable pub conclude : (t_start : ℕ) → Ended Place × Worker → Result
  conclude t_start (finished counter t s, w) =
      let (t_end, w') = now plat w in
      done (tell plat barrier (record w' { count = counter; duration = sub_u64 t_end t_start }))
  conclude t_start (aborted counter s, w) =
      if nmaps_of cfg == 0 then trapped else done (tell plat barrier w)
  conclude t_start (out_of_fuel, w) = no_fuel

  -- bench_run_nounmap_4k_fn
  unfoldable pub run_add_fn : Worker → Result
  unfolding add_page conclude
  run_add_fn w =
      let nops = nops_of time_max cfg.nops in
      let (t_current, w') = now plat (tell plat barrier w) in
      conclude t_current (
        timed_loop (add_page t_current) (end_of (delta_of plat cfg.time_ms) t_current) nops
          (suc nops) 0 t_current (tid, map_address tid) w')
