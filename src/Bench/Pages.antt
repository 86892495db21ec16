-- ===== src/Bench/Pages.antt =====
-- src/benchmarks/mapunmap.c and protect.c, the threads that map memory in pages of 4 KiB, each at
-- an address of its own: bench_run_4k_fn of both files.
pub mod Cells
pub mod Moved
pub mod SetUp
pub mod CleanUp
pub mod Measure
pub mod Balance
pub mod Cycle
use vmopsbench.Common.{
  ℕ, zero, suc, ◌+◌, ◌*◌, ◌/◌, ◌%◌, Bool, true, false, if◌then◌else◌, ◌==◌, Option, some, none,
  List, [], ◌∷◌, set, get_elem?, replicate,
}
use vmopsbench.Config.{Cfg}
use vmopsbench.Platform.{read_only, read_write, base_page_size, u64_mod, time_max}
use vmopsbench.Bench.World.{
  Plat, Worker, Cmd, pure, and_then, ◌>>=◌, ◌>>◌, ask, try, tell, now, clock, vm_map, vm_map_fixed,
  vm_unmap, vm_protect, barrier, is_ok, sub_u64, delta_of, nops_of, end_of, map_address,
}
use vmopsbench.Bench.Loop.{Ended, finished, aborted, out_of_fuel, timed_loop}

-- nmaps
abbrev pub nmaps_of : Cfg → ℕ
nmaps_of cfg = cfg.memsize / base_page_size

-- addrs[i]; the theorems show that `i` is in range.
abbrev pub cell : List ℕ → ℕ → ℕ
cell addrs i = elim (get_elem? addrs i) [ none ↦ 0 | some a ↦ a ]

-- The locals of the loop: `page` and the array.
abbrev pub Local : Type 0
Local = ℕ × List ℕ

-- How a thread ends: `trapped` is the division by zero of `page % nmaps` without pages, and
-- `no_fuel` is the model's.
pub data Result : Type 0 where
  done : Worker → Result
  trapped : Result
  no_fuel : Result

-- The index of a page in a round.
abbrev pub index : (nmaps page : ℕ) → ℕ
index nmaps page = page % nmaps

module _ (plat : Plat) (cfg : Cfg) (memobj tid : ℕ) where
  -- The `n` mappings that are left of the set-up, from index `i` on; `false` after a failed one.
  unfoldable pub set_up_fixed : (n i addr : ℕ) → List ℕ → Worker → Bool × List ℕ × Worker
  set_up_fixed zero i addr addrs w = (true, addrs, w)
  set_up_fixed (suc n) i addr addrs w =
      let (r, w') =
        ask plat (vm_map_fixed addr base_page_size memobj (i * base_page_size) cfg.maphuge) w in
      let rest = set_up_fixed n (i + 1) ((addr + base_page_size) % u64_mod) (set addrs i addr) w' in
      if is_ok r.err then rest else (false, addrs, w')

  unfoldable pub set_up_any : (n i : ℕ) → List ℕ → Worker → Bool × List ℕ × Worker
  set_up_any zero i addrs w = (true, addrs, w)
  set_up_any (suc n) i addrs w =
      let (r, w') = ask plat (vm_map base_page_size memobj (i * base_page_size) cfg.maphuge) w in
      let rest = set_up_any n (i + 1) (set addrs i r.value) w' in
      if is_ok r.err then rest else (false, addrs, w')

  unfoldable pub set_up : Worker → Bool × List ℕ × Worker
  unfolding set_up_fixed set_up_any
  set_up w =
      let nmaps = nmaps_of cfg in
      let addrs = replicate nmaps 0 in
      if cfg.isolated
      then set_up_fixed nmaps 0 (map_address tid) addrs w
      else set_up_any nmaps 0 addrs w

  -- Every page that is in the array is unmapped.
  unfoldable pub unmap_pages : List ℕ → Worker → Worker
  unmap_pages [] w = w
  unmap_pages (a ∷ addrs) w =
      unmap_pages addrs (if a == 0 then w else tell plat (vm_unmap a base_page_size) w)

  -- cleanup_and_exit
  unfoldable pub clean_up : List ℕ → Worker → Worker
  unfolding unmap_pages
  clean_up addrs w = tell plat barrier (unmap_pages addrs (tell plat barrier w))

  -- The rounds of mapunmap.c. They are run only where there are pages.
  unfoldable pub remap_fixed : (t_start counter t_current : ℕ) → Local → Cmd (ℕ × Local)
  remap_fixed t_start counter t_current (page, addrs) = do
    let idx = index (nmaps_of cfg) page
    try plat (vm_unmap (cell addrs idx) base_page_size)
    try plat
        (vm_map_fixed (cell addrs idx) base_page_size memobj (idx * base_page_size) cfg.maphuge)
    t ← clock plat
    pure (t, ((page + 1) % u64_mod, addrs))

  unfoldable pub remap_any : (t_start counter t_current : ℕ) → Local → Cmd (ℕ × Local)
  remap_any t_start counter t_current (page, addrs) = do
    let idx = index (nmaps_of cfg) page
    try plat (vm_unmap (cell addrs idx) base_page_size)
    addr ← try plat (vm_map base_page_size memobj (idx * base_page_size) cfg.maphuge)
    t ← clock plat
    pure (t, ((page + 1) % u64_mod, set addrs idx addr))

  unfoldable pub remap : (t_start counter t_current : ℕ) → Local → Cmd (ℕ × Local)
  remap = if cfg.isolated then remap_fixed else remap_any

  -- The round of protect.c.
  unfoldable pub reprotect : (t_start counter t_current : ℕ) → Local → Cmd (ℕ × Local)
  reprotect t_start counter t_current (page, addrs) = do
    let idx = index (nmaps_of cfg) page
    try plat (vm_protect (cell addrs idx) base_page_size read_only)
    try plat (vm_protect (cell addrs idx) base_page_size read_write)
    t ← clock plat
    pure (t, ((page + 1) % u64_mod, addrs))

  -- After the loop: the results are written before the clean-up, or not at all after a failed call.
  unfoldable pub conclude : (t_start : ℕ) → Ended Local × Worker → Result
  unfolding clean_up
  conclude t_start (finished counter t (page, addrs), w) =
      let (t_end, w') = now plat w in
      done (clean_up addrs (record w' { count = counter; duration = sub_u64 t_end t_start }))
  conclude t_start (aborted counter (page, addrs), w) =
      if nmaps_of cfg == 0 then trapped else done (clean_up addrs w)
  conclude t_start (out_of_fuel, w) = no_fuel

  module _ (body : (t_start counter t_current : ℕ) → Local → Cmd (ℕ × Local)) where
    -- A round, or the division by zero.
    abbrev pub round : (t_start counter t_current : ℕ) → Local → Cmd (ℕ × Local)
    round t_start counter t_current s w =
        if nmaps_of cfg == 0 then (none, w) else body t_start counter t_current s w

    unfoldable pub begin : Bool × List ℕ × Worker → Result
    unfolding conclude
    begin (false, addrs, w) = done (clean_up addrs w)
    begin (true, addrs, w) =
        let nops = nops_of time_max cfg.nops in
        let (t_current, w') = now plat (tell plat barrier w) in
        conclude t_current (
          timed_loop (round t_current) (end_of (delta_of plat cfg.time_ms) t_current) nops
            (suc nops) 0 t_current (tid, addrs) w')

    -- The thread function; `memory` is whether calloc succeeds.
    unfoldable pub run_pages : (memory : Bool) → Worker → Result
    unfolding begin set_up
    run_pages memory w = if memory then begin (set_up w) else done w

  -- bench_run_4k_fn of mapunmap.c
  unfoldable pub run_remap_fn : (memory : Bool) → Worker → Result
  unfolding remap run_pages
  run_remap_fn = run_pages remap

  -- bench_run_4k_fn of protect.c
  unfoldable pub run_reprotect_fn : (memory : Bool) → Worker → Result
  unfolding reprotect run_pages
  run_reprotect_fn = run_pages reprotect
