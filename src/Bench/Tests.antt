-- ===== src/Bench/Tests.antt =====
-- Threads on a platform whose clock counts the calls, and the theorems at them.
use vmopsbench.Common.{
  ◌+◌, ◌≤◌, ℕ, suc, ◌*◌, ◌<◌, ◌≡◌, refl, ◌⊎◌, Bool, true, false, [], if◌then◌else◌, ltb, none,
  arith, length,
}
use vmopsbench.Config.{Cfg}
use vmopsbench.Platform.{err_ok, err_map_failed, time_max}
use vmopsbench.Stats.{fresh}
use vmopsbench.Bench.World.{
  map_address, Plat, Reply, Worker, Event, Call, vm_map, vm_map_fixed, vm_unmap, vm_protect,
  get_time, barrier, read_done, write_done, nops_of, map_address,
}
use vmopsbench.Bench.MapUnmap.{run_fn, run_nounmap_fn}
use vmopsbench.Bench.MapUnmap.Balance
use vmopsbench.Bench.MapUnmap.Growth
use vmopsbench.Bench.Protect.Cycle.{run_fn_outcome, Outcome}
use vmopsbench.Bench.Protect
use vmopsbench.Bench.Elevate.{prepared, prepare, begin, default_nops}
use vmopsbench.Bench.Elevate.Lowered.{preparation_ends, Lowers}
use vmopsbench.Bench.Elevate.Raise
use vmopsbench.Bench.TlbShoot
use vmopsbench.Bench.TlbShoot.Announce
use vmopsbench.Bench.TlbShoot.Helper.{helper_leaves, Left}
use vmopsbench.Bench.Thread.{started}
use vmopsbench.Bench.MapPages.{run_add_fn}
use vmopsbench.Bench.MapPages.Growth.{run_add_fn_ends, Ending as GrowthEnding}
use vmopsbench.Bench.Isolation.{map_address_apart}
use vmopsbench.Bench.World.{sub_u64, end_of, delta_of}
use vmopsbench.Bench.Pages.{run_remap_fn, run_reprotect_fn}
use vmopsbench.Bench.Pages.SetUp.{MapsNonNull}
use vmopsbench.Bench.Pages.Measure.{Ending}
use vmopsbench.Bench.Pages.Balance.{run_remap_fn_ends}
use vmopsbench.Bench.Pages.Cycle.{run_reprotect_fn_ends}

-- Every call succeeds until `limit` calls have been made, and then every one but those that have no
-- result fails.
abbrev answer : (limit n : ℕ) → Call → Reply
answer limit n get_time = record { err = err_ok; value = n }
answer limit n barrier = record { err = err_ok; value = 0 }
answer limit n _ = record {
  err = if ltb n limit then err_ok else err_map_failed;
  value = 4096 * suc n;
}

abbrev plat_of : ℕ → Plat
plat_of limit = record { reply = λ h c. answer limit (length h) c; convert_time = λ ms. ms }

abbrev cfg_of : (isolated : Bool) → (nops : ℕ) → Cfg
cfg_of isolated nops = record {
  benchmark = [];
  coreslist = none;
  corelist_size = 1;
  memsize = 8192;
  nops = nops;
  time_ms = 0;
  stats = 0;
  rate = 0;
  nounmap = false;
  shared = false;
  isolated = isolated;
  map4k = false;
  maphuge = false;
  numainterleave = false;
}

abbrev idle : Worker
idle = record { trace = []; stats = fresh 0 0; count = 0; duration = 0 }

run_fn_at_3 : (run_fn (plat_of 100) (cfg_of true 3) 7 0 idle).count ≡ 3
unfolding run_fn fresh vmopsbench.Bench.Thread.conclude vmopsbench.Bench.Loop.timed_loop
    vmopsbench.Bench.World.now vmopsbench.Bench.World.tell vmopsbench.Bench.World.end_of
    vmopsbench.Bench.World.delta_of nops_of vmopsbench.Bench.MapUnmap.round_fixed
    vmopsbench.Bench.World.try vmopsbench.Bench.World.clock vmopsbench.Bench.World.sample
run_fn_at_3 = refl

run_fn_balance_example :
    let w = run_fn (plat_of 100) (cfg_of true 3) 7 0 idle in
    Balance.Completed idle w (nops_of time_max 3) ⊎ Balance.Failed idle w 8192
run_fn_balance_example = Balance.run_fn_balance (plat_of 100) (cfg_of true 3) 7 0 idle

run_nounmap_fn_growth_example :
    let w = run_nounmap_fn (plat_of 100) (cfg_of false 3) 7 0 idle in
    Growth.Completed idle w (nops_of time_max 3) ⊎ Growth.Failed idle w (nops_of time_max 3)
run_nounmap_fn_growth_example = Growth.run_nounmap_fn_growth (plat_of 100) (cfg_of false 3) 7 0 idle

run_fn_outcome_example :
    Outcome idle (Protect.run_fn (plat_of 4) (cfg_of true 3) 7 0 idle) 8192 (nops_of time_max 3)
run_fn_outcome_example = run_fn_outcome (plat_of 4) (cfg_of true 3) 7 0 idle

preparation_ends_example :
    Lowers
      (plat_of 100)
      (cfg_of true 4)
      7
      0
      4096
      16384
      idle
      (prepare (plat_of 100) (cfg_of true 4) 7 0 16385 16384 4096 0 idle)
preparation_ends_example =
    preparation_ends (plat_of 100) (cfg_of true 4) 7 0 4096 16384 idle refl (omega arith)
      (omega arith)

begin_raises_example :
    let w = begin (plat_of 3) (cfg_of true 4) 7 0 (prepared 4096, idle) in
    Raise.Completed idle w 4096 (nops_of default_nops 4)
    ⊎ ((c : ℕ) × (c < nops_of default_nops 4) × Raise.Failed idle w 4096 8192 c)
begin_raises_example = Raise.begin_raises (plat_of 3) (cfg_of true 4) 7 0 4096 idle (omega arith)

plat_of-MapsNonNull : (limit : ℕ) → MapsNonNull (plat_of limit)
plat_of-MapsNonNull limit t size memobj offset huge e z = omega (arith, z)

run_remap_fn_ends_example :
    Ending idle true 2
      (nops_of time_max 3)
      1
      1
      0
      (run_remap_fn (plat_of 100) (cfg_of false 3) 7 0 true idle)
run_remap_fn_ends_example =
    run_remap_fn_ends (plat_of 100) (cfg_of false 3) 7 0 true idle (plat_of-MapsNonNull 100)
      (omega arith) (omega arith)

run_reprotect_fn_ends_example :
    Ending idle true 2
      (nops_of time_max 3)
      0
      0
      2
      (run_reprotect_fn (plat_of 1) (cfg_of true 3) 7 0 true idle)
run_reprotect_fn_ends_example =
    run_reprotect_fn_ends (plat_of 1) (cfg_of true 3) 7 0 true idle (plat_of-MapsNonNull 1)
      (omega arith) (omega arith)

thread_0_announces_example :
    let (left, w) = TlbShoot.run_fn (plat_of 100) (cfg_of true 3) 7 0 5 idle in
    (left ≡ true)
    × (Announce.Completed idle w (nops_of time_max 3)
        ⊎ ((b : ℕ) × (b ≤ 1) × Announce.Failed idle w b))
thread_0_announces_example = Announce.thread_0_announces (plat_of 100) (cfg_of true 3) 7 5 idle

helper_leaves_example :
    let (left, w) = TlbShoot.helper (plat_of 100) (cfg_of true 3) 7 1 5 idle in
    let first = (started (plat_of 100) idle).0 in
    (left ≡ true) × Left idle w (sub_u64 (end_of (delta_of (plat_of 100) 0) first) first)
helper_leaves_example =
    helper_leaves (plat_of 100) (cfg_of true 3) 7 1 2 5 idle (λ z. omega (arith, z)) (omega arith)

map_address_apart_example :
    ((map_address 1 + 4096 ≤ map_address 0) ⊎ (map_address 0 + 4096 ≤ map_address 1))
    × (1099511627776 < map_address 1)
    × (map_address 1 < 18446744073709551616)
map_address_apart_example =
    map_address_apart 1 0 4096 (λ z. omega (arith, z)) (omega arith) (omega arith) (omega arith)

run_add_fn_ends_example :
    GrowthEnding idle 2 (nops_of time_max 3) (run_add_fn (plat_of 100) (cfg_of true 3) 7 0 idle)
run_add_fn_ends_example = run_add_fn_ends (plat_of 100) (cfg_of true 3) 7 0 idle
