-- ===== src/Driver/Accounts.antt =====
-- What a benchmark has created, started and undone when it returns.
use vmopsbench.Common.{ℕ, ◌+◌, ◌<◌, ◌≡◌, ◌≢◌, refl, Option, some, none, List, arith}
use vmopsbench.Config.{Cfg, Status, success, failure}
use vmopsbench.Options.{parse_options}
use vmopsbench.Options.Parse.{parse_options-size}
use vmopsbench.Args.{RunArg, disable_stats, prepare_args, cleanup_args, sentinel}
use vmopsbench.Args
use vmopsbench.Args.Objects.{created, destroyed, IsFresh}
use vmopsbench.Args.Leak.{LeavesNull, prepare_args_keeps}
use vmopsbench.Args.RoundTrip.{Returned, prepare_cleanup}
use vmopsbench.Runner.{run_benchmark}
use vmopsbench.Runner
use vmopsbench.Runner.Threads.{starts, joins, cancels, Accounted, run_benchmark_accounts}
use vmopsbench.Driver.{ThreadFn, Outcome, Machine, finish_run, run_prepared, run_parsed, run_driver}

-- For the object `y` and the thread `x`: after a success every creation is matched by a destruction
-- and every start by a join; after a failure nothing is destroyed or joined, and every start is
-- matched by a cancellation.
abbrev pub Settled :
    (x y : ℕ) (t : List Args.Event) (u : List Runner.Event)
    → Status
    → List Args.Event
    → List Runner.Event
    → Type 0
Settled x y t u success t' u' =
    (destroyed y t' + created y t ≡ destroyed y t + created y t')
    × (starts x u' + joins x u ≡ starts x u + joins x u')
    × (cancels x u' ≡ cancels x u)
Settled x y t u failure t' u' =
    (destroyed y t' ≡ destroyed y t)
    × (starts x u' + cancels x u ≡ starts x u + cancels x u')
    × (joins x u' ≡ joins x u)

module _ (machine : Machine) (choose : Cfg → ThreadFn) (shared x y : ℕ) (t : List Args.Event)
    (u : List Runner.Event) (thread : x ≢ 0) where
  abbrev Good : Outcome → Type 0
  Good o = Settled x y t u o.status o.objects o.threads

  finish_run-Good :
      (fn : ThreadFn) (args : List RunArg) (t' : List Args.Event) (r : Status × List Runner.Event)
      → Returned machine.objects t (some args, t')
      → destroyed y t' ≡ destroyed y t
      → Accounted x u r
      → Good (finish_run machine choose shared fn args t' r)
  unfolding finish_run
  finish_run-Good fn args t' (success, u') (c, d) k (a, b, e) = (d y, a, b)
  finish_run-Good fn args t' (failure, u') (c, d) k (a, b, e) = (k, a, b)

  run_prepared-Good :
      (cfg : Cfg) (r : Option (List RunArg) × List Args.Event)
      → Returned machine.objects t r
      → destroyed y r.1 ≡ destroyed y t
      → Good (run_prepared machine choose shared cfg u r)
  unfolding run_prepared
  run_prepared-Good cfg (none, t') d k = (k, refl, refl)
  run_prepared-Good cfg (some args, t') d k =
      finish_run-Good (choose cfg) args t' (run_benchmark machine.threads cfg.corelist_size args u)
        d k (run_benchmark_accounts machine.threads cfg.corelist_size args u x thread)

  run_parsed-Good :
      (r : Status × Cfg)
      → IsFresh machine.objects
      → LeavesNull machine.objects
      → y ≢ 0
      → 0 < r.1.corelist_size
      → r.1.corelist_size < sentinel
      → Good (run_parsed machine choose shared t u r)
  unfolding run_parsed
  run_parsed-Good (failure, cfg) fresh null object p h = (refl, refl, refl)
  run_parsed-Good (success, cfg) fresh null object p h =
      run_prepared-Good (disable_stats machine.vals_mem cfg)
        (prepare_args machine.objects machine.args_mem machine.vals_mem cfg shared t)
        (prepare_cleanup machine.objects machine.args_mem machine.vals_mem cfg shared t fresh p h)
        (prepare_args_keeps machine.objects machine.args_mem machine.vals_mem cfg shared t y null
          object)

-- Each of the four benchmarks, whatever its options, on a platform whose handles are fresh and that
-- leaves NULL behind a failed creation, with at least one thread and fewer than 2^32 - 1: when it
-- returns 0, every memory object that it has created is destroyed and every thread that it has
-- started is joined; when it returns -1, because of its options, its memory or its threads, every
-- thread that it has started is cancelled, but no memory object is destroyed.
pub run_driver_settles :
    (machine : Machine) (choose : Cfg → ThreadFn) (shared x y : ℕ) (opts : List ℕ) (cfg : Cfg)
    (t : List Args.Event) (u : List Runner.Event)
    → IsFresh machine.objects
    → LeavesNull machine.objects
    → x ≢ 0
    → y ≢ 0
    → 0 < cfg.corelist_size
    → cfg.corelist_size < sentinel
    → let o = run_driver machine choose shared opts cfg t u in
      Settled x y t u o.status o.objects o.threads
unfolding run_driver
run_driver_settles machine choose shared x y opts cfg t u fresh null thread object p h =
    run_parsed-Good machine choose shared x y t u thread (parse_options opts cfg) fresh null object
      (omega (arith, p, parse_options-size opts cfg))
      (omega (arith, h, parse_options-size opts cfg))
