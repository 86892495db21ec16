-- ===== src/Driver/Orderly.antt =====
-- A benchmark that has come to run its threads has named only memory objects that stand.
use vmopsbench.Common.{ℕ, ◌<◌, ◌≤◌, Option, some, none, List, arith}
use vmopsbench.Config.{Cfg, Status, success, failure}
use vmopsbench.Options.{parse_options}
use vmopsbench.Options.Parse.{parse_options-size}
use vmopsbench.Args.{RunArg, disable_stats, prepare_args, cleanup_args}
use vmopsbench.Args
use vmopsbench.Args.Objects.{created, destroyed, IsFresh}
use vmopsbench.Args.Orderly.{Orderly, BothOrderly, prepare_args-BothOrderly}
use vmopsbench.Runner.{run_benchmark}
use vmopsbench.Runner
use vmopsbench.Driver.{ThreadFn, Outcome, Machine, finish_run, run_prepared, run_parsed, run_driver}

abbrev pub OrderlyRun : Args.Os → Option ThreadFn → List Args.Event → Type 0
OrderlyRun os none t = Unit {0}
OrderlyRun os (some fn) t = Orderly os t

module _ (machine : Machine) (choose : Cfg → ThreadFn) (shared : ℕ) where
  abbrev Tidy : Outcome → Type 0
  Tidy o = OrderlyRun machine.objects o.handed o.objects

  finish_run-Tidy :
      (fn : ThreadFn) (args : List RunArg) (t : List Args.Event) (r : Status × List Runner.Event)
      → BothOrderly machine.objects (some args, t)
      → Tidy (finish_run machine choose shared fn args t r)
  unfolding finish_run
  finish_run-Tidy fn args t (success, u) (a, b) = b
  finish_run-Tidy fn args t (failure, u) (a, b) = a

  run_prepared-Tidy :
      (cfg : Cfg) (u : List Runner.Event) (r : Option (List RunArg) × List Args.Event)
      → BothOrderly machine.objects r
      → Tidy (run_prepared machine choose shared cfg u r)
  unfolding run_prepared
  run_prepared-Tidy cfg u (none, t) h = tt
  run_prepared-Tidy cfg u (some args, t) h =
      finish_run-Tidy (choose cfg) args t (run_benchmark machine.threads cfg.corelist_size args u) h

  run_parsed-Tidy :
      (t : List Args.Event) (u : List Runner.Event) (r : Status × Cfg)
      → IsFresh machine.objects
      → 0 < r.1.corelist_size
      → ((x : ℕ) → destroyed x t ≤ created x t)
      → Orderly machine.objects t
      → Tidy (run_parsed machine choose shared t u r)
  unfolding run_parsed
  run_parsed-Tidy t u (failure, cfg) fresh p k h = tt
  run_parsed-Tidy t u (success, cfg) fresh p k h =
      run_prepared-Tidy (disable_stats machine.vals_mem cfg) u
        (prepare_args machine.objects machine.args_mem machine.vals_mem cfg shared t)
        (prepare_args-BothOrderly machine.objects machine.args_mem machine.vals_mem cfg shared t
          fresh p k h)

-- A benchmark on a platform whose handles are fresh, on one core or more: if it has come to call
-- vmops_utils_run_benchmark, then each of its calls, those of the clean-up included, has named a memory object that
-- stood.
pub run_driver-OrderlyRun :
    (machine : Machine) (choose : Cfg → ThreadFn) (shared : ℕ) (opts : List ℕ) (cfg : Cfg)
    (t : List Args.Event) (u : List Runner.Event)
    → IsFresh machine.objects
    → 0 < cfg.corelist_size
    → ((x : ℕ) → destroyed x t ≤ created x t)
    → Orderly machine.objects t
    → let o = run_driver machine choose shared opts cfg t u in
      OrderlyRun machine.objects o.handed o.objects
unfolding run_driver
run_driver-OrderlyRun machine choose shared opts cfg t u fresh p k h =
    run_parsed-Tidy machine choose shared t u (parse_options opts cfg) fresh
      (omega (arith, p, parse_options-size opts cfg)) k h
