-- ===== src/Main/Launch.antt =====
-- src/main.c, main: the run of the benchmark, and what main returns.
use vmopsbench.Common.{
  ℕ, ◌<◌, ◌≤◌, ◌≡◌, ◌≢◌, refl, ◌⊎◌, inl, inr, true, false, ltb, Option, some, none, List, if_rule,
  arith, Bool-cases, ltb→lt,
}
use vmopsbench.Config.{Cfg, success}
use vmopsbench.Platform.{huge_page_size}
use vmopsbench.Args.{sentinel}
use vmopsbench.Args
use vmopsbench.Args.Objects.{IsFresh}
use vmopsbench.Args.Leak.{LeavesNull}
use vmopsbench.Runner
use vmopsbench.Driver.{
  Machine, ThreadFn, run_driver, run_mapunmap, run_protect, run_protect_elevate, run_tlbshoot,
  choose_mapunmap, choose_protect, choose_elevate, choose_tlbshoot,
}
use vmopsbench.Driver
use vmopsbench.Driver.Accounts.{Settled, run_driver_settles}
use vmopsbench.Settings.{
  Env, Progress, running, exited, undefined, and_then, read_options, choose_cores, no_rate,
  default_settings, Opt,
}
use vmopsbench.Main.{
  correct, printable, Exit, returned, exit, undefined_exit, launch, run_selected, select, main,
  Benchmark, mapunmap, maponly, protect, elevate, tlbshoot,
}
use vmopsbench.Settings.Selection.{Holds}

-- The configuration that a benchmark may rely on.
abbrev pub Proper : Cfg → Type 0
Proper cfg =
    Holds cfg.corelist_size cfg.coreslist
    × (cfg.rate ≢ no_rate)
    × ((cfg.maphuge ≡ false) ⊎ (huge_page_size ≤ cfg.memsize))

-- How main ends: never outside the array of cores, with success when it returns, and then with a
-- proper configuration.
abbrev pub Ends : Exit → Type 0
Ends (returned r) = (r.code ≡ success) × Proper r.cfg
Ends (exit code) = Unit {0}
Ends undefined_exit = ⊥

module _ (P : Driver.Outcome → Type 0) where
  abbrev pub IfRun : Option Driver.Outcome → Type 0
  IfRun none = Unit {0}
  IfRun (some o) = P o

  -- What holds of the benchmark of a run of main, if it has called one on some cores, fewer than
  -- 2^32 - 1.
  abbrev pub Leaves : Exit → Type 0
  Leaves (returned r) =
      (r.cfg.corelist_size ≡ 0) ⊎ (sentinel ≤ r.cfg.corelist_size) ⊎ IfRun r.outcome
  Leaves _ = Unit {0}

-- Whatever holds of every benchmark on some cores holds of the one that main calls.
module _ (env : Env) (t : List Args.Event) (u : List Runner.Event) (P : Driver.Outcome → Type 0)
    (holds : (choose : Cfg → ThreadFn) (shared : ℕ) (opts : List ℕ) (cfg : Cfg)
      → 0 < cfg.corelist_size
      → cfg.corelist_size < sentinel
      → P (run_driver env.machine choose shared opts cfg t u)) where
  run_selected-IfRun :
      (cfg : Cfg) (b : Option (Benchmark × List ℕ))
      → 0 < cfg.corelist_size
      → cfg.corelist_size < sentinel
      → IfRun P (run_selected env t u cfg b).1
  unfolding run_selected run_mapunmap run_protect run_protect_elevate run_tlbshoot
  run_selected-IfRun cfg none p q = tt
  run_selected-IfRun cfg (some (mapunmap, opts)) p q = holds choose_mapunmap 0 opts cfg p q
  run_selected-IfRun cfg (some (maponly, opts)) p q =
      holds choose_mapunmap 0 opts (record cfg { nounmap = true }) p q
  run_selected-IfRun cfg (some (protect, opts)) p q = holds choose_protect 0 opts cfg p q
  run_selected-IfRun cfg (some (elevate, opts)) p q = holds choose_elevate 0 opts cfg p q
  run_selected-IfRun cfg (some (tlbshoot, opts)) p q = holds choose_tlbshoot env.done opts cfg p q

  run_selected-size :
      (cfg : Cfg) (b : Option (Benchmark × List ℕ))
      → (run_selected env t u cfg b).0.corelist_size ≡ cfg.corelist_size
  unfolding run_selected
  run_selected-size cfg none = refl
  run_selected-size cfg (some (mapunmap, opts)) = refl
  run_selected-size cfg (some (maponly, opts)) = refl
  run_selected-size cfg (some (protect, opts)) = refl
  run_selected-size cfg (some (elevate, opts)) = refl
  run_selected-size cfg (some (tlbshoot, opts)) = refl

  selected-IfRun :
      (cfg : Cfg) (b : Option (Benchmark × List ℕ))
      → let (cfg', o) = run_selected env t u cfg b in
        (cfg'.corelist_size ≡ 0) ⊎ (sentinel ≤ cfg'.corelist_size) ⊎ IfRun P o
  selected-IfRun cfg b =
      let same = run_selected-size cfg b in
      elim (Bool-cases (ltb cfg.corelist_size sentinel)) [
        | inr e ↦ inr (inl (ground arith))
        | inl e ↦ elim (Bool-cases (ltb 0 cfg.corelist_size)) [
          | inr f ↦ inl (ground arith)
          | inl f ↦ inr (inr (run_selected-IfRun cfg b (ltb→lt _ _ f) (ltb→lt _ _ e)))
        ]
      ]

  launch-Leaves : (r : Progress) → Leaves P (launch env t u r)
  unfolding launch
  launch-Leaves (exited code) = tt
  launch-Leaves undefined = tt
  launch-Leaves (running s) =
      if_rule (Leaves P) (printable (correct s.cfg))
        (selected-IfRun (correct s.cfg) (select (correct s.cfg).benchmark)) tt

  pub main-Leaves : (opts : List Opt) → Leaves P (main env t u opts)
  unfolding main
  main-Leaves opts =
      launch-Leaves (
        and_then (read_options env opts default_settings) (λ s. choose_cores env s.cfg.coreslist s))

-- For any command line, on a platform whose handles are fresh and that leaves NULL behind a failed
-- creation: a run of main that returns, and that has called a benchmark on one core or more, fewer
-- than 2^32 - 1, has either succeeded in it, destroyed every memory object that it has created and
-- joined every thread that it has started, or failed in it, cancelled every thread that it has
-- started and destroyed no memory object.
pub main_settles :
    (env : Env) (x y : ℕ) (t : List Args.Event) (u : List Runner.Event) (opts : List Opt)
    → IsFresh env.machine.objects
    → LeavesNull env.machine.objects
    → x ≢ 0
    → y ≢ 0
    → Leaves
        (λ (o : Driver.Outcome). Settled x y t u o.status o.objects o.threads)
        (main env t u opts)
main_settles env x y t u opts fresh null thread object =
    main-Leaves env t u (λ (o : Driver.Outcome). Settled x y t u o.status o.objects o.threads)
      (λ choose shared o cfg p q.
        run_driver_settles env.machine choose shared x y o cfg t u fresh null thread object p q)
      opts
