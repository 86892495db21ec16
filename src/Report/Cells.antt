-- ===== src/Report/Cells.antt =====
-- src/benchmarks/utils.c, vmops_utils_print_csv: what is printed of the threads' cells.
use vmopsbench.Common.{
  ℕ, zero, suc, ◌+◌, ◌*◌, ◌%◌, ◌-◌, ◌≤◌, ◌<◌, ◌≡◌, refl, ap, sym, Bool, true, false, not, ◌&&◌,
  ◌||◌, ltb, if◌then◌else◌, ◌==◌, Option, some, none, List, [], ◌∷◌, ◌++◌, arith, length,
  length-append, length-replicate, take, drop, map, replicate, if_cases,
}
use mathlib.Core.Path.{◌∙◌}
use mathlib.Core.List.{append_assoc, append-nil}
use vmopsbench.Config.{Cfg}
use vmopsbench.Platform.{u32_mod, u64_mod}
use vmopsbench.Stats.{Statval, fresh}
use vmopsbench.Stats.Sampling.{run, pick, InTime, run-fresh}
use vmopsbench.Args.{RunArg, core_at}
use vmopsbench.Report.{
  Printout, Floats, Block, Row, Sample, printed_all, Totals, done, log_sample, is_shown,
  print_samples, add_latencies, summary, print_rest, all_listed, cell_count, is_missing,
}

module _ (fl : Floats) where
  -- What a thread leaves: the calls that it offers to the statistics, and its results.
  pub record Ran : Type 0 where
    pub calls : List Statval
    pub count : ℕ
    pub duration : fl.Double

  abbrev pub filled : (own : ℕ) → RunArg → Ran → Block fl
  filled own a r = record {
    cfg = if a.has_cfg then own else 0;
    count = r.count;
    duration = r.duration;
    stats = run a.stats r.calls;
  }

  -- The blocks of `args` with the results in them; behind the last thread they are as calloc has
  -- cleared them.
  abbrev pub blocks : (own : ℕ) → List RunArg → List Ran → List (Block fl)
  blocks own [] rs = []
  blocks own (a ∷ args) [] =
      filled own a (record { calls = []; count = 0; duration = fl.nought }) ∷ blocks own args []
  blocks own (a ∷ args) (r ∷ rs) = filled own a r ∷ blocks own args rs

  abbrev pub total_count : List Ran → ℕ
  total_count [] = 0
  total_count (r ∷ rs) = r.count + total_count rs

  abbrev pub total_time : fl.Double → List Ran → fl.Double
  total_time d [] = d
  total_time d (r ∷ rs) = total_time (fl.plus d r.duration) rs

  module _ (cfg : Cfg) where
    -- One row for each thread, in their order.
    abbrev pub rows_of : ℕ → List Ran → List (Row fl)
    rows_of i [] = []
    rows_of i (r ∷ rs) =
        record { thread = i; core = core_at cfg i; duration = r.duration; operations = r.count }
        ∷ rows_of (i + 1) rs

    abbrev pub shown : List Statval → List (Sample fl)
    shown [] = []
    shown (s ∷ ss) = if is_shown fl cfg s then log_sample fl cfg s ∷ shown ss else shown ss

    -- The calls that a thread keeps: after ten that are skipped, those an interval apart, until its
    -- cells are full.
    abbrev pub kept : (delta : ℕ) → Ran → List Statval
    kept delta r = take cfg.stats (pick delta 0 (drop 10 r.calls))

    -- Those of them that are printed, thread by thread.
    abbrev pub samples_of : (delta : ℕ) → List Ran → List (Sample fl)
    samples_of delta [] = []
    samples_of delta (r ∷ rs) = shown (kept delta r) ++ samples_of delta rs

    pub print_samples-append :
        (xs ys : List (Option Statval))
        → print_samples fl cfg (xs ++ ys) ≡ print_samples fl cfg xs ++ print_samples fl cfg ys
    unfolding print_samples
    print_samples-append [] ys = refl
    print_samples-append (x ∷ xs) ys = simp (print_samples-append xs ys, append_assoc)

    if_append :
        (b : Bool) (x : Sample fl) {l k : List (Sample fl)}
        → l ≡ k
        → (if b then x ∷ [] else []) ++ l ≡ (if b then x ∷ k else k)
    if_append true x e = ap (x ∷◌) e
    if_append false x e = e

    print_samples-map : (ss : List Statval) → print_samples fl cfg (map some ss) ≡ shown ss
    unfolding print_samples
    print_samples-map [] = refl
    print_samples-map (s ∷ ss) =
        if_append (is_shown fl cfg s) (log_sample fl cfg s) (print_samples-map ss)

    pub print_samples-replicate : (n : ℕ) → print_samples fl cfg (replicate n none) ≡ []
    unfolding print_samples
    print_samples-replicate zero = refl
    print_samples-replicate (suc n) = print_samples-replicate n

    take_size :
        (n : ℕ) (ss : List Statval)
        → (length (map {B = Option Statval} some (take n ss)) ≡ length (take n ss))
          × (length (take n ss) ≤ n)
    take_size zero ss = (refl, omega arith)
    take_size (suc n) [] = (refl, omega arith)
    take_size (suc n) (s ∷ ss) = let (e, l) = take_size n ss in (omega (arith, e), omega (arith, l))

    cells_size :
        (n : ℕ) (ss : List Statval)
        → length (map {B = Option Statval} some (take n ss))
            + length (replicate {A = Option Statval} (n - length (take n ss)) none)
          ≡ n
    cells_size n ss =
        let (e, l) = take_size n ss in
        omega (arith, e, l, length-replicate {A = Option Statval} (n - length (take n ss)) none)

    null_size :
        (values : List (Option Statval)) → is_missing fl cfg values ≡ true → length values ≡ 0
    null_size [] e = refl
    null_size (v ∷ values) e = absurd (cc)

    empty-samples :
        (cells : List (Option Statval)) → length cells ≡ 0 → print_samples fl cfg cells ≡ []
    unfolding print_samples
    empty-samples [] e = refl
    empty-samples (c ∷ cells) e = absurd (omega (arith, e))

    take_all : (n : ℕ) (cells : List (Option Statval)) → length cells ≡ n → take n cells ≡ cells
    take_all zero [] e = refl
    take_all zero (c ∷ cells) e = absurd (omega (arith, e))
    take_all (suc n) [] e = refl
    take_all (suc n) (c ∷ cells) e = ap (c ∷◌) (take_all n cells (omega (arith, e)))

    cell_count-zero : cfg.stats ≡ 0 → cell_count fl cfg ≡ 0
    cell_count-zero e = ap (λ n. n * cfg.corelist_size % u32_mod) e ∙ omega arith

    -- The report has these rows, samples and totals.
    abbrev pub Complete : List (Row fl) → List (Sample fl) → Totals fl → Printout fl → Type 0
    Complete rows samples t r =
        (latency : fl.Double) × (r ≡ printed_all rows samples (summary fl cfg t latency))

    pub print_rest-Complete :
        (values cells : List (Option Statval)) (rows : List (Row fl)) (t : Totals fl)
        → length values ≡ cfg.stats
        → length cells ≡ cell_count fl cfg
        → all_listed fl cfg cells ≡ true
        → Complete rows
            (print_samples fl cfg cells)
            t
            (print_rest fl cfg values cells (done rows t))
    unfolding print_rest
    print_rest-Complete values cells rows t v c listed =
        let C = Complete rows (print_samples fl cfg cells) t in
        if_cases C (not (cfg.stats == 0) && not (is_missing fl cfg values))
          (λ e.
            if_cases C
              (ltb (length cells) (cell_count fl cfg)
                || not (all_listed fl cfg (take (cell_count fl cfg) cells)))
              (λ g.
                let whole = ap (all_listed fl cfg) (take_all (cell_count fl cfg) cells c) in
                absurd (ground (arith, g, c, listed, whole)))
              (λ g.
                let d = add_latencies fl cfg fl.nought (take (cell_count fl cfg) cells) in
                (
                  d,
                  ap (λ l. printed_all rows (print_samples fl cfg l) (summary fl cfg t d))
                      (take_all (cell_count fl cfg) cells c),
                )))
          (λ e.
            let without : cfg.stats ≡ 0 = ground (arith, e, v, null_size values) in
            (
              fl.nought,
              ap (λ l. printed_all rows l (summary fl cfg t fl.nought))
                  (sym (empty-samples cells (c ∙ cell_count-zero without))),
            ))

    -- A thread's cells after its calls: the kept ones, then cells that were never written.
    pub values-kept :
        (delta : ℕ) (r : Ran)
        → cfg.stats < u64_mod
        → InTime delta r.calls
        → (print_samples fl cfg (run (fresh cfg.stats delta) r.calls).values ≡ shown (kept delta r))
          × (length (run (fresh cfg.stats delta) r.calls).values ≡ cfg.stats)
    values-kept delta r small fits =
        let k = kept delta r in
        let e = (run-fresh cfg.stats delta r.calls small fits).0 in
        (
          ap (print_samples fl cfg) e
              ∙ print_samples-append (map some k) (replicate (cfg.stats - length k) none)
              ∙ simp
                  (print_samples-map k, print_samples-replicate (cfg.stats - length k), append-nil),
          ap length e
              ∙ length-append (map some k) (replicate (cfg.stats - length k) none)
              ∙ cells_size cfg.stats (pick delta 0 (drop 10 r.calls)),
        )
