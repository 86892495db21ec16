-- ===== src/Report.antt =====
-- src/benchmarks/utils.c, vmops_utils_print_csv, with the rows that the macros of logging.h print.
pub mod Listed
pub mod Cells
pub mod Printed
pub mod Prepared
mod Tests
use vmopsbench.Common.{
  ℕ, zero, suc, ◌+◌, ◌*◌, ◌%◌, Bool, true, false, if◌then◌else◌, ◌==◌, ◌&&◌, ◌||◌, not, ltb, Option,
  some, none, List, [], ◌∷◌, ◌++◌, length, take,
}
use vmopsbench.Config.{Cfg, CoreRead}
use vmopsbench.Platform.{u32_mod, u64_mod}
use vmopsbench.Stats.{Statval, Stats}
use vmopsbench.Args.{core_at}

-- The type double with what the report computes in it, and plat_time_to_ms.
pub record Floats : Type 1 where
  pub Double : Type 0
  pub nought : Double
  pub plus : Double → Double → Double
  pub over : Double → Double → Double
  pub of_word : ℕ → Double
  pub to_ms : ℕ → Double

module _ (fl : Floats) where
  -- What the report reads of struct vmops_bench_run_arg; `cfg` is the pointer, NULL is 0.
  pub record Block : Type 0 where
    pub cfg : ℕ
    pub count : ℕ
    pub duration : fl.Double
    pub stats : Stats

  -- What a line of LOG_CSV and one of LOG_STATS say of a thread and of a call; the columns of the
  -- configuration, which are the same in every line, are left out.
  pub record Row : Type 0 where
    pub thread : ℕ
    pub core : CoreRead
    pub duration : fl.Double
    pub operations : ℕ

  pub record Sample : Type 0 where
    pub core : CoreRead
    pub tid : ℕ
    pub elapsed : fl.Double
    pub counter : ℕ
    pub latency : fl.Double

  -- LOG_RESULT
  pub record Summary : Type 0 where
    pub total_time : fl.Double
    pub total_ops : ℕ
    pub throughput : fl.Double
    pub latency : fl.Double

  -- How the function ends: without a line, in exit(EXIT_FAILURE) after some rows, in a read outside
  -- of an array, or with the rows, the samples and the summary.
  pub data Printout : Type 0 where
    silent : Printout
    aborted : List Row → Printout
    out_of_bounds : Printout
    printed_all : List Row → List Sample → Summary → Printout

  pub record Totals : Type 0 where
    pub ops : ℕ
    pub time : fl.Double

  pub data Printing : Type 0 where
    stopped : List Row → Printing
    outside : Printing
    done : List Row → Totals → Printing

  abbrev before : Row → Printing → Printing
  before r (stopped rows) = stopped (r ∷ rows)
  before r outside = outside
  before r (done rows t) = done (r ∷ rows) t

  module _ (cfg : Cfg) where
    -- Whether cfg->coreslist[i] is a cell of the array.
    abbrev pub is_listed : ℕ → Bool
    is_listed i = elim (core_at cfg i) [ none ↦ false | some c ↦ true ]

    -- LOG_CSV
    abbrev pub log_csv : ℕ → Block → Row
    log_csv i a = record {
      thread = i;
      core = core_at cfg i;
      duration = a.duration;
      operations = a.count;
    }

    abbrev pub add_totals : Totals → Block → Totals
    add_totals t a = record { ops = (t.ops + a.count) % u64_mod; time = fl.plus t.time a.duration }

    -- The loop over the `n` threads that are left, from thread `i` on.
    unfoldable pub print_rows : (own n i : ℕ) → List Block → Totals → Printing
    print_rows own zero i args t = done [] t
    print_rows own (suc n) i [] t = outside
    print_rows own (suc n) i (a ∷ args) t =
        let rest = print_rows own n (i + 1) args (add_totals t a) in
        if own == a.cfg
        then (if is_listed i then before (log_csv i a) rest else outside)
        else stopped []

    abbrev pub log_sample : Statval → Sample
    log_sample s = record {
      core = core_at cfg s.tid;
      tid = s.tid;
      elapsed = fl.to_ms s.t_elapsed;
      counter = s.counter;
      latency = fl.to_ms s.val;
    }

    -- Whether LOG_STATS prints a cell.
    abbrev pub is_shown : Statval → Bool
    is_shown s = not (s.t_elapsed == 0) && not (s.val == 0)

    -- Whether LOG_STATS stays within cfg->coreslist on all of the cells.
    unfoldable pub all_listed : List (Option Statval) → Bool
    all_listed [] = true
    all_listed (none ∷ cells) = all_listed cells
    all_listed (some s ∷ cells) = (not (is_shown s) || is_listed s.tid) && all_listed cells

    -- LOG_STATS; a cell that was never written is 0, as calloc has left it.
    abbrev pub log_stats : Option Statval → List Sample
    log_stats none = []
    log_stats (some s) = if is_shown s then log_sample s ∷ [] else []

    unfoldable pub print_samples : List (Option Statval) → List Sample
    print_samples [] = []
    print_samples (c ∷ cells) = log_stats c ++ print_samples cells

    abbrev pub latency_of : Option Statval → ℕ
    latency_of none = 0
    latency_of (some s) = s.val

    unfoldable pub add_latencies : fl.Double → List (Option Statval) → fl.Double
    add_latencies d [] = d
    add_latencies d (c ∷ cells) = add_latencies (fl.plus d (fl.to_ms (latency_of c))) cells

    -- The one array from which the threads have their cells.
    abbrev pub all_cells : List Block → List (Option Statval)
    all_cells [] = []
    all_cells (a ∷ args) = a.stats.values ++ all_cells args

    -- args[0].stats.values is NULL when there are no cells, as vmops_utils_prepare_args leaves it.
    abbrev pub is_missing : List (Option Statval) → Bool
    is_missing [] = true
    is_missing (c ∷ cells) = false

    abbrev pub summary : Totals → (latency : fl.Double) → Summary
    summary t latency = record {
      total_time = t.time;
      total_ops = t.ops;
      throughput = fl.over (fl.of_word (t.ops * 1000 % u64_mod)) t.time;
      latency = fl.over latency (fl.of_word t.ops);
    }

    -- cfg->stats * cfg->corelist_size, a product of two uint32_t
    abbrev pub cell_count : ℕ
    cell_count = cfg.stats * cfg.corelist_size % u32_mod

    -- What follows the loop over the threads; `values` is args[0].stats.values.
    unfoldable pub print_rest :
        (values : List (Option Statval)) (cells : List (Option Statval)) → Printing → Printout
    unfolding print_samples add_latencies all_listed
    print_rest values cells (stopped rows) = aborted rows
    print_rest values cells outside = out_of_bounds
    print_rest values cells (done rows t) =
        if not (cfg.stats == 0) && not (is_missing values)
        then (if ltb (length cells) cell_count || not (all_listed (take cell_count cells))
            then out_of_bounds
            else printed_all rows (print_samples (take cell_count cells))
                (summary t (add_latencies fl.nought (take cell_count cells))))
        else printed_all rows [] (summary t fl.nought)

    -- vmops_utils_print_csv, on a pointer that is NULL when it is none; `cfg` is the configuration at
    -- args->cfg.
    unfoldable pub print_csv : Option (List Block) → Printout
    unfolding print_rows print_rest
    print_csv none = silent
    print_csv (some []) = out_of_bounds
    print_csv (some (a ∷ args)) =
        if a.cfg == 0
        then silent
        else print_rest a.stats.values (all_cells (a ∷ args))
            (print_rows a.cfg cfg.corelist_size 0 (a ∷ args) (record { ops = 0; time = fl.nought }))
