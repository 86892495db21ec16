-- ===== src/Report/Prepared.antt =====
-- src/benchmarks/utils.c: the report on the argument blocks of vmops_utils_prepare_args.
use vmopsbench.Common.{
  ℕ, ◌*◌, ◌%◌, ◌<◌, ◌≡◌, ◌≢◌, Bool, true, false, Option, some, none, List, All, arith, length,
  if_rule,
}
use vmopsbench.Config.{Cfg}
use vmopsbench.Platform.{u32_mod, u64_mod}
use vmopsbench.Stats.Sampling.{InTime}
use vmopsbench.Args.{
  Os, Event, RunArg, first_object, create_objects, disable_stats, finish_args, prepare_args,
  prepopulate, prepopulate_mappings,
}
use vmopsbench.Args.Objects.{IsFresh}
use vmopsbench.Args.RoundTrip.{Stock, create_objects-Stock}
use vmopsbench.Report.{Floats, print_csv}
use vmopsbench.Report.Listed.{Listed, Within}
use vmopsbench.Report.Cells.{Ran, blocks, total_count, total_time, rows_of, samples_of, Complete}
use vmopsbench.Report.Printed.{print_csv-Complete}

module _ (fl : Floats) (os : Os) (own : ℕ) where
  -- If there are blocks, the report on them has a row for each thread, the samples that each has kept,
  -- and the sums of their operations and times.
  abbrev pub Reported : Cfg → List (Ran fl) → Option (List RunArg) × List Event → Type 0
  Reported cfg rs (none, t) = Unit
  Reported cfg rs (some args, t) =
      Complete fl cfg (rows_of fl cfg 0 rs) (samples_of fl cfg (os.convert_time cfg.rate) rs)
        (record { ops = total_count fl rs % u64_mod; time = total_time fl fl.nought rs })
        (print_csv fl cfg (some (blocks fl own args rs)))

  module _ (cfg : Cfg) (shared : ℕ) (rs : List (Ran fl)) where
    finish_args-Reported :
        (t : List Event) (r : Option (List ℕ) × List Event)
        → own ≢ 0
        → 0 < cfg.corelist_size
        → length rs ≡ cfg.corelist_size
        → Listed cfg
        → cfg.stats * cfg.corelist_size < u32_mod
        → All (λ r. InTime (os.convert_time cfg.rate) r.calls) rs
        → All (λ r. All (Within cfg) r.calls) rs
        → Stock t cfg.corelist_size r
        → Reported cfg rs (finish_args os cfg shared r)
    unfolding finish_args
    finish_args-Reported t (none, u) o p b l small h w s = tt
    finish_args-Reported t (some objs, u) o p b l small h w s =
        let made = prepopulate os prepopulate_mappings (first_object os objs) u in
        if_rule (Reported cfg rs) made.0
          (print_csv-Complete fl os cfg own shared objs rs o p s.size b l small h w) tt

  prepared-Reported :
      (vals_mem : Bool) (cfg : Cfg) (shared : ℕ) (t : List Event) (rs : List (Ran fl))
      → IsFresh os
      → own ≢ 0
      → 0 < cfg.corelist_size
      → length rs ≡ cfg.corelist_size
      → Listed cfg
      → cfg.stats * cfg.corelist_size < u32_mod
      → All (λ r. InTime (os.convert_time cfg.rate) r.calls) rs
      → All (λ r. All (Within cfg) r.calls) rs
      → let cfg' = disable_stats vals_mem cfg in
        Reported cfg' rs (finish_args os cfg' shared (create_objects os cfg' t))
  unfolding disable_stats
  prepared-Reported true cfg shared t rs fresh o p b l small h w =
      finish_args-Reported cfg shared rs t (create_objects os cfg t) o p b l small h w
        (create_objects-Stock os fresh cfg t p)
  prepared-Reported false cfg shared t rs fresh o p b l small h w =
      let cfg' = record cfg { stats = 0 } in
      let off : Listed cfg' = record { cells = l.cells; array = l.array; long = l.long } in
      finish_args-Reported cfg' shared rs t (create_objects os cfg' t) o p b off (omega arith) h w
        (create_objects-Stock os fresh cfg' t p)

-- The report of a benchmark whose preparation succeeds, after its threads have offered any calls to
-- the statistics, over a platform that returns no object in use: it ends neither in an exit nor in
-- a read outside of the blocks, the cells or the list of cores; it has one row for each thread, in
-- their order; the samples are those that each thread has kept, without the calls of time 0, and none
-- when there was no memory for them; the operations are the sum of the threads' ones, modulo 2^64.
-- The conditions are that the configuration is not NULL, that there is a core, that the list of cores
-- is an array of as many cells as there are cores, that each call carries the number of a thread, that
-- the number of all cells fits into 32 bits, and that no elapsed time plus the interval reaches 2^64.
pub print_csv_prepared :
    (fl : Floats) (os : Os) (args_mem vals_mem : Bool) (cfg : Cfg) (own shared : ℕ) (t : List Event)
    (rs : List (Ran fl))
    → IsFresh os
    → own ≢ 0
    → 0 < cfg.corelist_size
    → length rs ≡ cfg.corelist_size
    → Listed cfg
    → cfg.stats * cfg.corelist_size < u32_mod
    → All (λ r. InTime (os.convert_time cfg.rate) r.calls) rs
    → All (λ r. All (Within cfg) r.calls) rs
    → Reported fl os own
        (disable_stats vals_mem cfg)
        rs
        (prepare_args os args_mem vals_mem cfg shared t)
unfolding prepare_args
print_csv_prepared fl os args_mem vals_mem cfg own shared t rs fresh o p b l small h w =
    if_rule (Reported fl os own (disable_stats vals_mem cfg) rs) args_mem
      (prepared-Reported fl os own vals_mem cfg shared t rs fresh o p b l small h w) tt
