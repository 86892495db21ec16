-- ===== src/Bench/Pages/Balance.antt =====
-- The map/unmap threads on pages: every mapping is given back.
use vmopsbench.Common.{
  ℕ, ◌<◌, ◌≡◌, ◌∙◌, ◌⊎◌, inl, inr, Bool, Option, some, none, List, length, length-set, All, arith,
  if_rule,
}
use vmopsbench.Config.{Cfg}
use vmopsbench.Platform.{time_max}
use vmopsbench.Bench.World.{try_rule, Plat, Worker, Cmd, try, clock, now, nops_of}
use vmopsbench.Bench.Pages.{nmaps_of, Local, remap_fixed, remap_any, remap, run_remap_fn}
use vmopsbench.Bench.Pages.Cells.{NonNull, set-All}
use vmopsbench.Bench.Pages.Moved.{Moved}
use vmopsbench.Bench.Pages.SetUp.{MapsNonNull}
use vmopsbench.Bench.Pages.Measure.{Round, Ending, run_pages-Ending}

module _ (plat : Plat) (cfg : Cfg) (memobj tid : ℕ) where
  abbrev nmaps : ℕ
  nmaps = nmaps_of cfg

  abbrev Keeps : Worker → Option (ℕ × Local) × Worker → Type 0
  Keeps w (some (t, (page, addrs)), w') = Moved w w' 1 1 0 0 0 0 0
  Keeps w (none, w') = Moved w w' 0 1 0 0 0 1 1 ⊎ Moved w w' 0 1 0 0 1 0 0

  remap_fixed-Keeps :
      (t_start c t page : ℕ) (addrs : List ℕ) (w : Worker)
      → Keeps w (remap_fixed plat cfg memobj tid t_start c t (page, addrs) w)
  unfolding remap_fixed try clock now
  remap_fixed-Keeps t_start c t page addrs w = ground arith

  remap_any-Keeps :
      (t_start c t page : ℕ) (addrs : List ℕ) (w : Worker)
      → Keeps w (remap_any plat cfg memobj tid t_start c t (page, addrs) w)
  unfolding remap_any try clock now
  remap_any-Keeps t_start c t page addrs w = ground arith

  -- The array after a round that has succeeded is filled.
  abbrev Full : Option (ℕ × Local) × Worker → Type 0
  Full (some (t, (page, addrs)), w') = (length addrs ≡ nmaps) × All NonNull addrs
  Full (none, w') = Unit

  Keeps-Round :
      (w : Worker) (r : Option (ℕ × Local) × Worker) → Full r → Keeps w r → Round nmaps 1 1 0 w r
  Keeps-Round w (some (t, (page, addrs)), w') (l, a) m = (l, a, m)
  Keeps-Round w (none, w') f (inl m) = (0, 0, omega arith, (omega arith, omega arith), m)
  Keeps-Round w (none, w') f (inr m) = (0, 1, omega arith, (omega arith, omega arith), m)

  module _ (t_start c t page : ℕ) (addrs : List ℕ) (w : Worker) (l : length addrs ≡ nmaps)
      (a : All NonNull addrs) where
    remap_fixed-Full : Full (remap_fixed plat cfg memobj tid t_start c t (page, addrs) w)
    unfolding remap_fixed clock now
    remap_fixed-Full =
        try_rule plat Full _ _ w (λ e. try_rule plat Full _ _ _ (λ e'. (l, a)) (λ e'. tt)) (λ e. tt)

    remap_any-Full :
        MapsNonNull plat → Full (remap_any plat cfg memobj tid t_start c t (page, addrs) w)
    unfolding remap_any clock now
    remap_any-Full non_null =
        try_rule plat Full _ _ w
          (λ e.
            try_rule plat Full _ _ _
              (λ e'. (length-set addrs _ _ ∙ l, set-All addrs _ _ a (non_null _ _ _ _ _ e')))
              (λ e'. tt))
          (λ e. tt)

    remap-Round :
        MapsNonNull plat
        → Round nmaps 1 1 0 w (remap plat cfg memobj tid t_start c t (page, addrs) w)
    unfolding remap
    remap-Round non_null =
        if_rule {A = ℕ → ℕ → ℕ → Local → Cmd (ℕ × Local)}
          (λ f. Round nmaps 1 1 0 w (f t_start c t (page, addrs) w)) cfg.isolated
          (Keeps-Round w _ remap_fixed-Full (remap_fixed-Keeps t_start c t page addrs w))
          (Keeps-Round w _ (remap_any-Full non_null) (remap_any-Keeps t_start c t page addrs w))

-- A thread of the map/unmap benchmark on 4 KiB pages, isolated or not, with a number below 2^24 and
-- less than 2^62 bytes, on a platform that never maps at NULL: it always ends, unless it has no page,
-- and then it may divide by zero. With memory for the array, there are three ends. No mapping has
-- failed, and no more attempts to unmap than there are pages: it has mapped each page once and then
-- once for each operation that it reports, at most the configured number, has tried to unmap as often
-- as it has mapped, and has called the barrier three times. A call of a round below the configured number has failed:
-- exactly one mapping, or, with no mapping that failed, at least one attempt to unmap; the count is
-- untouched, the barrier is called three times, and there is one attempt to unmap more than mappings.
-- Exactly one mapping of the set-up has failed: the barrier is called only twice, and there are as many
-- attempts to unmap as mappings. Of the attempts to unmap of the clean-up any may fail.
-- Without memory for the array, and only then, nothing is called.
pub run_remap_fn_ends :
    (plat : Plat) (cfg : Cfg) (memobj tid : ℕ) (memory : Bool) (v : Worker)
    → MapsNonNull plat
    → tid < 16777216
    → cfg.memsize < 4611686018427387904
    → Ending v memory
        (nmaps_of cfg)
        (nops_of time_max cfg.nops)
        1
        1
        0
        (run_remap_fn plat cfg memobj tid memory v)
unfolding run_remap_fn
run_remap_fn_ends plat cfg memobj tid memory v non_null ht hs =
    run_pages-Ending plat cfg memobj tid 1 1 0 (remap plat cfg memobj tid)
      (λ t_start c t page addrs w l a h.
        remap-Round plat cfg memobj tid t_start c t page addrs w l a non_null)
      memory v non_null ht hs
