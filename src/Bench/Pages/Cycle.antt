-- ===== src/Bench/Pages/Cycle.antt =====
-- The protection threads on pages.
use vmopsbench.Common.{
  ℕ, ◌<◌, ◌≡◌, ◌⊎◌, inl, inr, Bool, Option, some, none, List, length, All, arith,
}
use vmopsbench.Config.{Cfg}
use vmopsbench.Platform.{time_max}
use vmopsbench.Bench.World.{Plat, Worker, try, clock, now, try_rule, nops_of}
use vmopsbench.Bench.Pages.{nmaps_of, Local, reprotect, run_reprotect_fn}
use vmopsbench.Bench.Pages.Cells.{NonNull}
use vmopsbench.Bench.Pages.Moved.{Moved}
use vmopsbench.Bench.Pages.SetUp.{MapsNonNull}
use vmopsbench.Bench.Pages.Measure.{Round, Ending, run_pages-Ending}

module _ (plat : Plat) (cfg : Cfg) (memobj tid : ℕ) where
  abbrev Keeps : Worker → Option (ℕ × Local) × Worker → Type 0
  Keeps w (some (t, (page, addrs)), w') = Moved w w' 0 0 2 0 0 0 0
  Keeps w (none, w') = Moved w w' 0 0 0 0 1 0 0 ⊎ Moved w w' 0 0 1 0 1 0 0

  reprotect-Keeps :
      (t_start c t page : ℕ) (addrs : List ℕ) (w : Worker)
      → Keeps w (reprotect plat cfg memobj tid t_start c t (page, addrs) w)
  unfolding reprotect try clock now
  reprotect-Keeps t_start c t page addrs w = ground arith

  abbrev Full : Option (ℕ × Local) × Worker → Type 0
  Full (some (t, (page, addrs)), w') = (length addrs ≡ nmaps_of cfg) × All NonNull addrs
  Full (none, w') = Unit

  Keeps-Round :
      (w : Worker) (r : Option (ℕ × Local) × Worker)
      → Full r
      → Keeps w r
      → Round (nmaps_of cfg) 0 0 2 w r
  Keeps-Round w (some (t, (page, addrs)), w') (l, a) m = (l, a, m)
  Keeps-Round w (none, w') f (inl m) = (0, 1, omega arith, (omega arith, omega arith), m)
  Keeps-Round w (none, w') f (inr m) = (1, 1, omega arith, (omega arith, omega arith), m)

  reprotect-Full :
      (t_start c t page : ℕ) (addrs : List ℕ) (w : Worker)
      → length addrs ≡ nmaps_of cfg
      → All NonNull addrs
      → Full (reprotect plat cfg memobj tid t_start c t (page, addrs) w)
  unfolding reprotect clock now
  reprotect-Full t_start c t page addrs w l a =
      try_rule plat Full _ _ w (λ e. try_rule plat Full _ _ _ (λ e'. (l, a)) (λ e'. tt)) (λ e. tt)

-- A thread of the protection benchmark on 4 KiB pages, isolated or not, with a number below 2^24
-- and less than 2^62 bytes, on a platform that never maps at NULL: it always ends, unless it has no
-- page, and then it may divide by zero. With memory for the array, there are three ends. No mapping
-- and no change has failed: it has changed a protection twice for each operation that it reports, at
-- most the configured number, has mapped each page once and tried to unmap as often, and has called
-- the barrier three times. Every page is mapped, and then exactly one call that maps or changes a
-- protection has failed, in a round below the configured number: the count is untouched, and the
-- barrier is called three times. Exactly one such call has failed before every page was mapped: the
-- barrier is called only twice. In both cases it tries to unmap as often as it has mapped, and of
-- these attempts any may fail. Without memory for the array, and only then, nothing is called.
pub run_reprotect_fn_ends :
    (plat : Plat) (cfg : Cfg) (memobj tid : ℕ) (memory : Bool) (v : Worker)
    → MapsNonNull plat
    → tid < 16777216
    → cfg.memsize < 4611686018427387904
    → Ending v memory
        (nmaps_of cfg)
        (nops_of time_max cfg.nops)
        0
        0
        2
        (run_reprotect_fn plat cfg memobj tid memory v)
unfolding run_reprotect_fn
run_reprotect_fn_ends plat cfg memobj tid memory v non_null ht hs =
    run_pages-Ending plat cfg memobj tid 0 0 2 (reprotect plat cfg memobj tid)
      (λ t_start c t page addrs w l a h.
        Keeps-Round plat cfg memobj tid w _
          (reprotect-Full plat cfg memobj tid t_start c t page addrs w l a)
          (reprotect-Keeps plat cfg memobj tid t_start c t page addrs w))
      memory v non_null ht hs
