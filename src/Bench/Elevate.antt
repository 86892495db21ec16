-- ===== src/Bench/Elevate.antt =====
-- src/benchmarks/protectelevate.c: the threads that raise the protection of read-only pages one by
-- one.
pub mod Lowered
pub mod Raise
use vmopsbench.Common.{
  ℕ, zero, suc, ◌+◌, ◌*◌, ◌%◌, Bool, true, false, if◌then◌else◌, ltb, ◌==◌, Option, some, none,
}
use vmopsbench.Config.{Cfg}
use vmopsbench.Platform.{read_only, read_write, base_page_size, u64_mod}
use vmopsbench.Bench.World.{
  Plat, Worker, Cmd, pure, and_then, ◌>>=◌, ◌>>◌, try, tell, clock, sample, vm_map, vm_map_fixed,
  vm_unmap, vm_protect, sub_u64, delta_of, nops_of, map_address,
}
use vmopsbench.Bench.Thread.{Hooks, measure}

-- DEFAULT_NOPS
abbrev pub default_nops : ℕ
default_nops = 500000

-- How the preparation ends: with the address at which the measurement starts, or by the return after
-- a mapping that failed. `out_of_fuel` is the model's.
pub data Prepared : Type 0 where
  prepared : (addr : ℕ) → Prepared
  returned : Prepared
  out_of_fuel : Prepared

-- total_map_size, in size_t
abbrev pub total_size : ℕ → ℕ
total_size nops = nops * base_page_size % u64_mod

module _ (plat : Plat) (cfg : Cfg) (memobj tid : ℕ) where
  -- The mapping made in round `i`, and `addr` after it; NULL is 0. Where the platform chooses the
  -- address, the first one is kept.
  unfoldable pub map_chunk : (addr i : ℕ) → Cmd ℕ
  map_chunk addr i =
      if cfg.isolated
      then (do try plat (vm_map_fixed ((addr + i) % u64_mod) cfg.memsize memobj 0 false); pure addr)
      else (do
        curaddr ← try plat (vm_map cfg.memsize memobj 0 false)
        pure (if addr == 0 then curaddr else addr))

  -- for (i = 0; i < total_map_size; i += cfg->memsize): the protection of the region at `addr` is
  -- lowered in each round, and a failure to do so is only logged.
  unfoldable pub prepare : (fuel total addr i : ℕ) → Worker → Prepared × Worker
  prepare zero total addr i w = (out_of_fuel, w)
  prepare (suc fuel) total addr i w = elim (ltb i total) [
    | false ↦ (prepared addr, w)
    | true ↦
        (let (r, w') = map_chunk addr i w in
          elim r [
            | none ↦ (returned, w')
            | some a ↦
                prepare fuel total a ((i + cfg.memsize) % u64_mod)
                  (tell plat (vm_protect a cfg.memsize read_only) w')
          ])
  ]

  -- The body of the timed loop; the local is the next page.
  unfoldable pub raise : (t_start counter t_current : ℕ) → (addr : ℕ) → Cmd (ℕ × ℕ)
  raise t_start counter t_current addr = do
    try plat (vm_protect addr base_page_size read_write)
    t ← clock plat
    sample tid ((counter + 1) % u64_mod) (sub_u64 t t_start) (sub_u64 t t_current)
    pure (t, (addr + base_page_size) % u64_mod)

  -- err_out: plat_vm_unmap(addr, cfg->memsize), at the page that failed
  unfoldable pub on_error : Hooks ℕ
  on_error = record {
    publish = λ w. w;
    recover = λ addr w. tell plat (vm_unmap addr cfg.memsize) w;
  }

  unfoldable pub begin : Prepared × Worker → Worker
  unfolding measure on_error
  begin (prepared addr, w) =
      measure plat on_error raise (delta_of plat cfg.time_ms) (nops_of default_nops cfg.nops) addr w
  begin (returned, w) = w
  begin (out_of_fuel, w) = w

  -- bench_run_fn
  unfoldable pub run_fn : Worker → Worker
  unfolding begin
  run_fn w =
      let total = total_size (nops_of default_nops cfg.nops) in
      begin (prepare (suc total) total (if cfg.isolated then map_address tid else 0) 0 w)
