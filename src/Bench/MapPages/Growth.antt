-- ===== src/Bench/MapPages/Growth.antt =====
-- The map-only threads on pages: as many mappings more as operations are reported.
use vmopsbench.Common.{
  ℕ, suc, ◌+◌, ◌≤◌, ◌<◌, ◌≡◌, ◌≢◌, refl, ◌∙◌, ◌⊎◌, inl, inr, ◌==◌, ==_iff, arith, if_cases, Option,
  some, none,
}
use vmopsbench.Config.{Cfg}
use vmopsbench.Platform.{time_max}
use vmopsbench.Bench.World.{
  Plat, Worker, tell, now, clock, try, barrier, nops_of, delta_of, end_of, map_address,
}
use vmopsbench.Bench.Loop.{
  Ended, finished, aborted, out_of_fuel, timed_loop, timed_loop-Ends, Inv, Fail, After, Ends,
}
use vmopsbench.Bench.Thread.{started}
use vmopsbench.Bench.Pages.{nmaps_of, Result, done, trapped, no_fuel}
use vmopsbench.Bench.Pages.Moved.{Moved, now-Moved, started-Moved}
use vmopsbench.Bench.MapPages.{Place, add_fixed, add_any, add_page, conclude, run_add_fn}

-- How a thread ends.
abbrev pub Ending : (v : Worker) (nmaps nops : ℕ) → Result → Type 0
Ending v nmaps nops (done w) =
    (Moved v (record w { count = v.count }) w.count 0 0 2 0 0 0 × (w.count ≤ nops))
    ⊎ ((c : ℕ) × (c < nops) × Moved v w c 0 0 2 1 0 0)
Ending v nmaps nops trapped = nmaps ≡ 0
Ending v nmaps nops no_fuel = ⊥

module _ (plat : Plat) (cfg : Cfg) (memobj tid : ℕ) where
  abbrev nops : ℕ
  nops = nops_of time_max cfg.nops

  abbrev Good : Worker → Inv Place
  Good v c t s w = Moved v w c 0 0 0 0 0 0

  abbrev Bad : Worker → Fail Place
  Bad v c s w = nmaps_of cfg ≢ 0 → Moved v w c 0 0 0 1 0 0

  -- A round where there are pages.
  abbrev Kept : (v : Worker) (c : ℕ) → Option (ℕ × Place) × Worker → Type 0
  Kept v c (some (t, s), w) = Moved v w (c + 1) 0 0 0 0 0 0
  Kept v c (none, w) = Moved v w c 0 0 0 1 0 0

  Kept-After :
      (v : Worker) (c : ℕ) (s : Place) (r : Option (ℕ × Place) × Worker)
      → Kept v c r
      → After (Good v) (Bad v) c s r
  Kept-After v c s (some (t, s'), w) m = m
  Kept-After v c s (none, w) m = λ z. m

  add_page-After :
      (v : Worker) (t_start c t : ℕ) (s : Place) (w : Worker)
      → Good v c t s w
      → After (Good v) (Bad v) c s (add_page plat cfg memobj tid t_start c t s w)
  unfolding add_page add_fixed add_any try clock now
  add_page-After v t_start c t (page, addr) w m =
      if_cases (After (Good v) (Bad v) c (page, addr)) (nmaps_of cfg == 0)
        (λ e z. absurd (z ((==_iff (nmaps_of cfg) 0).0 e)))
        (λ e.
          if_cases (After (Good v) (Bad v) c (page, addr)) cfg.isolated
            (λ k.
              Kept-After v c (page, addr) (add_fixed plat cfg memobj tid t_start c t (page, addr) w)
                (ground arith))
            (λ k.
              Kept-After v c (page, addr) (add_any plat cfg memobj tid t_start c t (page, addr) w)
                (ground arith)))

  barrier-Moved : (w : Worker) → Moved w (tell plat barrier w) 0 0 0 1 0 0 0
  unfolding tell
  barrier-Moved w = record {
    maps = ground arith;
    unmaps = omega arith;
    protects = ground arith;
    bars = omega arith;
    errors = ground arith;
    least = ground arith;
    most = ground arith;
    count = refl;
  }

  result-Ending :
      (v : Worker) (first : ℕ) (r : Ended Place × Worker)
      → Ends
          (Good (started plat v).1)
          (Bad (started plat v).1)
          (end_of (delta_of plat cfg.time_ms) first)
          nops
          r
      → Ending v (nmaps_of cfg) nops (conclude plat cfg memobj tid first r)
  unfolding conclude tell
  result-Ending v first (finished c t s, w) (m, h, stop) =
      let b = started-Moved plat v in
      let n = now-Moved plat w in
      inl (
        record {
          maps = ground (arith, b.maps, m.maps, n.maps);
          unmaps = omega (arith, b.unmaps, m.unmaps, n.unmaps);
          protects = ground (arith, b.protects, m.protects, n.protects);
          bars = omega (arith, b.bars, m.bars, n.bars);
          errors = ground (arith, b.errors, m.errors, n.errors);
          least = ground (arith, b.least, m.least, n.least);
          most = ground (arith, b.most, m.most, n.most);
          count = refl;
        },
        h,
      )
  result-Ending v first (aborted c s, w) (failed_round, h) =
      if_cases (Ending v (nmaps_of cfg) nops) (nmaps_of cfg == 0)
        (λ e. (==_iff (nmaps_of cfg) 0).0 e)
        (λ e.
          let b = started-Moved plat v in
          let k = barrier-Moved w in
          let m = failed_round (λ z. ground (arith, e, z)) in
          inr (
            c,
            h,
            record {
              maps = omega (arith, b.maps, m.maps, k.maps);
              unmaps = omega (arith, b.unmaps, m.unmaps, k.unmaps);
              protects = omega (arith, b.protects, m.protects, k.protects);
              bars = omega (arith, b.bars, m.bars, k.bars);
              errors = omega (arith, b.errors, m.errors, k.errors);
              least = omega (arith, b.least, m.least, k.least);
              most = omega (arith, b.most, m.most, k.most);
              count = k.count ∙ m.count ∙ b.count;
            },
          ))
  result-Ending v first (out_of_fuel, w) e = absurd e

-- A thread of the map-only benchmark on 4 KiB pages, isolated or not, on any platform, always ends,
-- unless it has no page, and then it may divide by zero: either none of its calls that map or
-- change a protection has failed, and it has made as many more mappings as the count that it reports,
-- at most the configured number; or exactly one has failed, and its count is untouched and fewer
-- mappings are made than configured. In both cases it changes no protection, never tries to unmap, and
-- calls the barrier twice.
pub run_add_fn_ends :
    (plat : Plat) (cfg : Cfg) (memobj tid : ℕ) (v : Worker)
    → Ending v (nmaps_of cfg) (nops_of time_max cfg.nops) (run_add_fn plat cfg memobj tid v)
unfolding run_add_fn started
run_add_fn_ends plat cfg memobj tid v =
    let first = (started plat v).0 in
    let w = (started plat v).1 in
    let n = nops_of time_max cfg.nops in
    let t_end = end_of (delta_of plat cfg.time_ms) first in
    result-Ending plat cfg memobj tid v first
      (timed_loop (add_page plat cfg memobj tid first) t_end n (suc n) 0 first
        (tid, map_address tid) w)
      (timed_loop-Ends (add_page plat cfg memobj tid first) t_end n (Good plat cfg memobj tid w)
        (Bad plat cfg memobj tid w)
        (λ c t s w' g b k. add_page-After plat cfg memobj tid w first c t s w' g) (suc n) 0 first
        (tid, map_address tid) w (omega arith) (omega arith)
        (record {
          maps = omega arith;
          unmaps = omega arith;
          protects = omega arith;
          bars = omega arith;
          errors = ground arith;
          least = ground arith;
          most = ground arith;
          count = refl;
        }))
