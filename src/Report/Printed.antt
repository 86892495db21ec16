-- ===== src/Report/Printed.antt =====
-- src/benchmarks/utils.c, vmops_utils_print_csv: the report on threads that have run.
use vmopsbench.Common.{
  ℕ, ◌≤◌, true, zero, suc, ◌+◌, ◌*◌, ◌%◌, ◌≤◌, ◌<◌, ◌≡◌, ◌≢◌, refl, ap, sym, ◌==◌, some, List, [],
  ◌∷◌, All, arith, length, length-append, if_cases, if_true, ==_refl, ==_iff,
}
use mathlib.Core.Path.{subst, ◌∙◌}
use vmopsbench.Config.{Cfg}
use vmopsbench.Platform.{u32_mod, u64_mod}
use vmopsbench.Stats.{fresh}
use vmopsbench.Stats.Sampling.{run, InTime}
use vmopsbench.Args.{Os, init_args}
use vmopsbench.Report.{
  all_listed, Floats, Block, Totals, done, print_rows, print_samples, all_cells, print_rest,
  print_csv, cell_count,
}
use vmopsbench.Report.Listed.{
  Listed, Within, is_listed-Listed, all_listed-append, all_listed-replicate, all_listed-values,
}
use vmopsbench.Report.Cells.{
  Ran, blocks, total_count, total_time, rows_of, samples_of, Complete, values-kept,
  print_samples-append, print_samples-replicate, print_rest-Complete,
}

le_mul : (a n : ℕ) → 0 < n → a ≤ a * n
le_mul a zero h = absurd (omega (arith, h))
le_mul a (suc n) h = grind arith

module _ (fl : Floats) where
  module _ (os : Os) (cfg : Cfg) (own shared : ℕ) where
    abbrev delta : ℕ
    delta = os.convert_time cfg.rate

    abbrev pub ran : ℕ → List ℕ → List (Ran fl) → List (Block fl)
    ran i objs rs = blocks fl own (init_args os cfg shared i objs) rs

    all_cells-ran :
        (i : ℕ) (objs : List ℕ) (rs : List (Ran fl))
        → length objs ≡ length rs
        → cfg.stats < u64_mod
        → All (λ r. InTime delta r.calls) rs
        → (print_samples fl cfg (all_cells fl cfg (ran i objs rs)) ≡ samples_of fl cfg delta rs)
          × (length (all_cells fl cfg (ran i objs rs)) ≡ length rs * cfg.stats)
    unfolding init_args fresh
    all_cells-ran i [] [] e small h = (print_samples-replicate fl cfg 0, omega arith)
    all_cells-ran i [] (r ∷ rs) e small h = absurd (omega (arith, e))
    all_cells-ran i (o ∷ objs) [] e small h = absurd (omega (arith, e))
    all_cells-ran i (o ∷ objs) (r ∷ rs) e small (h, hs) =
        let (p, l) = values-kept fl cfg delta r small h in
        let (q, m) = all_cells-ran (i + 1) objs rs (omega (arith, e)) small hs in
        let cells = (run (fresh cfg.stats delta) r.calls).values in
        let others = all_cells fl cfg (ran (i + 1) objs rs) in
        (
          print_samples-append fl cfg cells others ∙ simp (p, q),
          length-append cells others ∙ omega (arith, l, m),
        )

    all_listed-all_cells :
        (i : ℕ) (objs : List ℕ) (rs : List (Ran fl))
        → length objs ≡ length rs
        → Listed cfg
        → cfg.stats < u64_mod
        → All (λ r. InTime delta r.calls) rs
        → All (λ r. All (Within cfg) r.calls) rs
        → all_listed fl cfg (all_cells fl cfg (ran i objs rs)) ≡ true
    unfolding init_args fresh
    all_listed-all_cells i [] [] e l small h k = all_listed-replicate fl cfg 0
    all_listed-all_cells i [] (r ∷ rs) e l small h k = absurd (omega (arith, e))
    all_listed-all_cells i (o ∷ objs) [] e l small h k = absurd (omega (arith, e))
    all_listed-all_cells i (o ∷ objs) (r ∷ rs) e l small (h, hs) (k, ks) =
        all_listed-append fl cfg (run (fresh cfg.stats delta) r.calls).values
          (all_cells fl cfg (ran (i + 1) objs rs))
          (all_listed-values fl cfg delta r.calls l small h k)
          (all_listed-all_cells (i + 1) objs rs (omega (arith, e)) l small hs ks)

    abbrev totals_of : Totals fl → List (Ran fl) → Totals fl
    totals_of t [] = t
    totals_of t (r ∷ rs) =
        totals_of (record { ops = (t.ops + r.count) % u64_mod; time = fl.plus t.time r.duration })
          rs

    print_rows-ran :
        (i : ℕ) (objs : List ℕ) (rs : List (Ran fl)) (t : Totals fl)
        → length objs ≡ length rs
        → Listed cfg
        → i + length rs ≤ cfg.corelist_size
        → print_rows fl cfg own (length rs) i (ran i objs rs) t
          ≡ done (rows_of fl cfg i rs) (totals_of t rs)
    unfolding print_rows init_args
    print_rows-ran i [] [] t e l h = refl
    print_rows-ran i [] (r ∷ rs) t e l h = absurd (omega (arith, e))
    print_rows-ran i (o ∷ objs) [] t e l h = absurd (omega (arith, e))
    print_rows-ran i (o ∷ objs) (r ∷ rs) t e l h =
        let t' : Totals fl = record {
          ops = (t.ops + r.count) % u64_mod;
          time = fl.plus t.time r.duration;
        } in
        let rest = print_rows-ran (i + 1) objs rs t' (omega (arith, e)) l (omega (arith, h)) in
        rw
          (
            if_true _ _ (==_refl own),
            if_true _ _ (is_listed-Listed fl cfg l i (omega (arith, h))),
            rest,
          )
          refl

    totals_of-sums :
        (t : Totals fl) (rs : List (Ran fl))
        → t.ops < u64_mod
        → totals_of t rs
          ≡ record { ops = (t.ops + total_count fl rs) % u64_mod; time = total_time fl t.time rs }
    totals_of-sums t [] h = ap (λ n. record { ops = n; time = t.time }) (omega (arith, h))
    totals_of-sums t (r ∷ rs) h =
        let t' : Totals fl = record {
          ops = (t.ops + r.count) % u64_mod;
          time = fl.plus t.time r.duration;
        } in
        totals_of-sums t' rs (omega arith)
        ∙ ap (λ n. record { ops = n; time = total_time fl t'.time rs }) (omega arith)

    abbrev none_yet : Totals fl
    none_yet = record { ops = 0; time = fl.nought }

    pub print_csv-Complete :
        (objs : List ℕ) (rs : List (Ran fl))
        → own ≢ 0
        → 0 < cfg.corelist_size
        → length objs ≡ cfg.corelist_size
        → length rs ≡ cfg.corelist_size
        → Listed cfg
        → cfg.stats * cfg.corelist_size < u32_mod
        → All (λ r. InTime delta r.calls) rs
        → All (λ r. All (Within cfg) r.calls) rs
        → Complete fl cfg
            (rows_of fl cfg 0 rs)
            (samples_of fl cfg delta rs)
            (record { ops = total_count fl rs % u64_mod; time = total_time fl fl.nought rs })
            (print_csv fl cfg (some (ran 0 objs rs)))
    unfolding print_csv init_args
    print_csv-Complete [] rs o p a b l small h w = absurd (omega (arith, a, p))
    print_csv-Complete (x ∷ objs) [] o p a b l small h w = absurd (omega (arith, b, p))
    print_csv-Complete (x ∷ objs) (r ∷ rs) o p a b l small h w =
        let rs' = r ∷ rs in
        let rows = rows_of fl cfg 0 rs' in
        let t = totals_of none_yet rs' in
        let T : Totals fl = record {
          ops = total_count fl rs' % u64_mod;
          time = total_time fl fl.nought rs';
        } in
        let args = ran 0 (x ∷ objs) rs' in
        let values = (run (fresh cfg.stats delta) r.calls).values in
        let cells = all_cells fl cfg args in
        let few : cfg.stats < u64_mod =
          omega (arith, small, le_mul cfg.stats cfg.corelist_size p) in
        let (q, m) = all_cells-ran 0 (x ∷ objs) rs' (a ∙ sym b) few h in
        let (k, v) = values-kept fl cfg delta r few h.0 in
        let printed : print_rows fl cfg own cfg.corelist_size 0 args none_yet ≡ done rows t =
          subst (λ n. print_rows fl cfg own n 0 args none_yet ≡ done rows t) b
            (print_rows-ran 0 (x ∷ objs) rs' none_yet (a ∙ sym b) l (omega (arith, b))) in
        let sums : t ≡ T =
          totals_of-sums none_yet rs' (omega arith)
          ∙ ap (λ n. record { ops = n; time = total_time fl fl.nought rs' }) (omega arith) in
        let size : length cells ≡ cell_count fl cfg =
          m ∙ ap (λ n. n * cfg.stats) b ∙ omega (arith, small) in
        if_cases (Complete fl cfg rows (samples_of fl cfg delta rs') T) (own == 0)
          (λ e. absurd (o ((==_iff own 0).0 e)))
          (λ _.
            let whole =
              print_rest-Complete fl cfg values cells rows t v size
                (all_listed-all_cells 0 (x ∷ objs) rs' (a ∙ sym b) l few h w) in
            let R = print_rest fl cfg values cells in
            let S = samples_of fl cfg delta rs' in
            subst
              (λ z.
                Complete fl cfg rows S z
                  (R (print_rows fl cfg own cfg.corelist_size 0 args none_yet)))
              sums
              (subst (λ z. Complete fl cfg rows S t (R z)) (sym printed)
                (subst (λ z. Complete fl cfg rows z t (R (done rows t))) q whole)))
