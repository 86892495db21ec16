-- ===== src/Driver.antt =====
-- src/benchmarks: vmpos_bench_run_mapunmap, vmops_bench_run_protect, vmops_bench_run_protect_elevate
-- and vmops_bench_run_tlbshoot, which differ in the thread function that they choose.
pub mod Accounts
pub mod Orderly
mod Tests
use vmopsbench.Common.{ℕ, Bool, true, false, if◌then◌else◌, Option, some, none, List}
use vmopsbench.Config.{Cfg, Status, success, failure}
use vmopsbench.Options.{parse_options}
use vmopsbench.Args.{RunArg, disable_stats, prepare_args, cleanup_args}
use vmopsbench.Args
use vmopsbench.Runner.{run_benchmark}
use vmopsbench.Runner

-- The thread functions of mapunmap.c, protect.c, protectelevate.c and tlbshoot.c.
pub data ThreadFn : Type 0 where
  map_unmap map_unmap_4k map_only map_only_4k : ThreadFn
  protect protect_4k elevate tlbshoot : ThreadFn

unfoldable pub choose_mapunmap : Cfg → ThreadFn
choose_mapunmap cfg =
    if cfg.nounmap
    then (if cfg.map4k then map_only_4k else map_only)
    else (if cfg.map4k then map_unmap_4k else map_unmap)

unfoldable pub choose_protect : Cfg → ThreadFn
choose_protect cfg = if cfg.map4k then protect_4k else protect

unfoldable pub choose_elevate : Cfg → ThreadFn
choose_elevate cfg = elevate

unfoldable pub choose_tlbshoot : Cfg → ThreadFn
choose_tlbshoot cfg = if cfg.map4k then tlbshoot else tlbshoot

-- What the benchmark leaves: its result, the calls for memory objects and those for threads, and the
-- thread function that it has handed to vmops_utils_run_benchmark, if it came to that call. Which
-- threads were started is in the calls for threads.
pub record Outcome : Type 0 where
  pub status : Status
  pub objects : List Args.Event
  pub threads : List Runner.Event
  pub handed : Option ThreadFn

-- The platform in its two parts, and whether the callocs of the preparation succeed.
pub record Machine : Type 0 where
  pub objects : Args.Os
  pub threads : Runner.Os
  pub args_mem : Bool
  pub vals_mem : Bool

module _ (machine : Machine) (choose : Cfg → ThreadFn) (shared : ℕ) where
  -- What follows vmops_utils_run_benchmark with `fn` on `args`: the blocks are cleaned up only after a success.
  unfoldable pub finish_run :
      (fn : ThreadFn) → List RunArg → List Args.Event → Status × List Runner.Event → Outcome
  finish_run fn args t (success, u) = record {
    status = success;
    objects = (cleanup_args machine.objects (some args) t).1;
    threads = u;
    handed = some fn;
  }
  finish_run fn args t (failure, u) = record {
    status = failure;
    objects = t;
    threads = u;
    handed = some fn;
  }

  unfoldable pub run_prepared :
      Cfg → List Runner.Event → Option (List RunArg) × List Args.Event → Outcome
  unfolding finish_run
  run_prepared cfg u (none, t) = record {
    status = failure;
    objects = t;
    threads = u;
    handed = none;
  }
  run_prepared cfg u (some args, t) =
      finish_run (choose cfg) args t (run_benchmark machine.threads cfg.corelist_size args u)

  unfoldable pub run_parsed : List Args.Event → List Runner.Event → Status × Cfg → Outcome
  unfolding run_prepared
  run_parsed t u (failure, cfg) = record {
    status = failure;
    objects = t;
    threads = u;
    handed = none;
  }
  run_parsed t u (success, cfg) =
      run_prepared (disable_stats machine.vals_mem cfg) u
        (prepare_args machine.objects machine.args_mem machine.vals_mem cfg shared t)

  -- The benchmark with the options `opts`.
  unfoldable pub run_driver : (opts : List ℕ) → Cfg → List Args.Event → List Runner.Event → Outcome
  unfolding run_parsed
  run_driver opts cfg t u = run_parsed t u (parse_options opts cfg)

module _ (machine : Machine) where
  -- vmpos_bench_run_mapunmap
  unfoldable pub run_mapunmap :
      (opts : List ℕ) → Cfg → List Args.Event → List Runner.Event → Outcome
  unfolding run_driver
  run_mapunmap = run_driver machine choose_mapunmap 0

  -- vmops_bench_run_protect
  unfoldable pub run_protect : (opts : List ℕ) → Cfg → List Args.Event → List Runner.Event → Outcome
  unfolding run_driver
  run_protect = run_driver machine choose_protect 0

  -- vmops_bench_run_protect_elevate
  unfoldable pub run_protect_elevate :
      (opts : List ℕ) → Cfg → List Args.Event → List Runner.Event → Outcome
  unfolding run_driver
  run_protect_elevate = run_driver machine choose_elevate 0

  -- vmops_bench_run_tlbshoot, with the address of the local `done`
  unfoldable pub run_tlbshoot :
      (done : ℕ) (opts : List ℕ) → Cfg → List Args.Event → List Runner.Event → Outcome
  unfolding run_driver
  run_tlbshoot done = run_driver machine choose_tlbshoot done
