-- ===== src/Bench/MapUnmap/Balance.antt =====
-- The map/unmap threads leave no mapping behind, enter the barrier twice, and report as many
-- operations as they did; after a failed call they enter it once.
use vmopsbench.Common.{
  ℕ, ◌+◌, ◌≤◌, ◌≡◌, refl, ◌∙◌, ◌⊎◌, inl, inr, true, Option, ◌∷◌, arith, if_rule,
}
use vmopsbench.Config.{Cfg}
use vmopsbench.Platform.{time_max}
use vmopsbench.Bench.World.{
  Plat, Worker, Cmd, try, clock, now, sample, vm_map, nops_of, delta_of, map_address,
}
use vmopsbench.Bench.Trace.{live, entered, succeeded, is_map, is_unmap, remove-head, last_failed}
use vmopsbench.Bench.Loop.{finished, Inv, Fail, After}
use vmopsbench.Bench.Thread.{no_hooks, started, conclude, measure_rule}
use vmopsbench.Bench.Quiet.{Quiet-refl, started-Quiet, conclude-Quiet}
use vmopsbench.Bench.MapUnmap.{round_fixed, round_any, run_body, run_fn}

-- From `v` to `w` the thread has mapped and unmapped `c` times, with nothing left over.
record Paired (v w : Worker) (c : ℕ) : Type 0 where
  maps : succeeded is_map w.trace ≡ succeeded is_map v.trace + c
  unmaps : succeeded is_unmap w.trace ≡ succeeded is_unmap v.trace + c
  bars : entered w.trace ≡ entered v.trace
  live : live w.trace ≡ live v.trace
  count : w.count ≡ v.count

-- A round has failed: the mapping that it made may be left.
record Broken (v w : Worker) (size c : ℕ) : Type 0 where
  unmaps : succeeded is_unmap w.trace ≡ succeeded is_unmap v.trace + c
  bars : entered w.trace ≡ entered v.trace
  live : (live w.trace ≡ live v.trace) ⊎ ((addr : ℕ) × (live w.trace ≡ (addr, size) ∷ live v.trace))
  count : w.count ≡ v.count
  cause : last_failed w.trace ≡ true

abbrev Pairs : Worker → Inv (Unit {0})
Pairs v c t s w = Paired v w c

abbrev Breaks : Worker → (size : ℕ) → Fail (Unit {0})
Breaks v size c s w = Broken v w size c

-- What a round of either loop must leave.
abbrev Leaves : Worker → (size c : ℕ) → Option (ℕ × Unit {0}) × Worker → Type 0
Leaves v size c = After (Pairs v) (Breaks v size) c tt

module _ (plat : Plat) (cfg : Cfg) (memobj tid : ℕ) (v : Worker) where
  round_fixed-Leaves :
      (addr t_start c t : ℕ) (w : Worker)
      → Paired v w c
      → Leaves v cfg.memsize c (round_fixed plat cfg memobj tid addr t_start c t tt w)
  unfolding round_fixed try clock now sample
  round_fixed-Leaves addr t_start c t w p =
      ground (arith, remove-head addr cfg.memsize (live v.trace))

  round_any-Leaves :
      (t_start c t : ℕ) (w : Worker)
      → Paired v w c
      → Leaves v cfg.memsize c (round_any plat cfg memobj tid t_start c t tt w)
  unfolding round_any try clock now sample
  round_any-Leaves t_start c t w p = ground (
    arith,
    remove-head (plat.reply w.trace (vm_map cfg.memsize memobj 0 cfg.maphuge)).value cfg.memsize
        (live v.trace),
  )

  run_body-Leaves :
      (t_start c t : ℕ) (s : Unit {0}) (w : Worker)
      → Paired v w c
      → Leaves v cfg.memsize c (run_body plat cfg memobj tid t_start c t s w)
  unfolding run_body
  run_body-Leaves t_start c t s w p =
      if_rule {A = ℕ → ℕ → Unit {0} → Cmd (ℕ × Unit {0})} (λ f. Leaves v cfg.memsize c (f c t s w))
        cfg.isolated (round_fixed-Leaves (map_address tid) t_start c t w p)
        (round_any-Leaves t_start c t w p)

-- The measurement ran to its end.
pub record Completed (v w : Worker) (nops : ℕ) : Type 0 where
  pub maps : succeeded is_map w.trace ≡ succeeded is_map v.trace + w.count
  pub unmaps : succeeded is_unmap w.trace ≡ succeeded is_unmap v.trace + w.count
  pub limit : w.count ≤ nops
  pub live : live w.trace ≡ live v.trace
  pub bars : entered w.trace ≡ entered v.trace + 2

-- A platform call failed, and the thread returned.
pub record Failed (v w : Worker) (size : ℕ) : Type 0 where
  pub cause : last_failed w.trace ≡ true
  pub count : w.count ≡ v.count
  pub live :
      (live w.trace ≡ live v.trace) ⊎ ((addr : ℕ) × (live w.trace ≡ (addr, size) ∷ live v.trace))
  pub bars : entered w.trace ≡ entered v.trace + 1

Paired-Completed :
    (plat : Plat) (v : Worker) (c t nops : ℕ) (w : Worker)
    → Paired (started plat v).1 w c
    → c ≤ nops
    → Completed v (conclude plat no_hooks (started plat v).0 (finished c t tt, w)) nops
Paired-Completed plat v c t nops w p h =
    let a = started-Quiet plat v in
    let (z, e) =
      conclude-Quiet plat no_hooks (started plat v).0 c t tt w (Quiet-refl (now plat w).1) in
    record {
      maps = omega (arith, z.maps, p.maps, a.maps, e);
      unmaps = omega (arith, z.unmaps, p.unmaps, a.unmaps, e);
      limit = omega (arith, e);
      live = z.live ∙ p.live ∙ a.live;
      bars = omega (arith, z.bars, p.bars, a.bars);
    }

Broken-Failed :
    (plat : Plat) (v : Worker) (size c : ℕ) (w : Worker)
    → Broken (started plat v).1 w size c
    → Failed v w size
Broken-Failed plat v size c w q =
    let a = started-Quiet plat v in
    record {
      cause = q.cause;
      count = q.count ∙ a.count;
      live = rw (← a.live) q.live;
      bars = omega (arith, q.bars, a.bars);
    }

-- A thread of the map/unmap benchmark, isolated or not, on any platform: it ends either with every
-- mapping that it made undone, as many successful maps and unmaps as the count that it reports,
-- at most the configured number of operations, and two calls of the barrier; or after a call that
-- failed, with its count untouched, at most one mapping left, and only one call of the barrier.
pub run_fn_balance :
    (plat : Plat) (cfg : Cfg) (memobj tid : ℕ) (v : Worker)
    → Completed v (run_fn plat cfg memobj tid v) (nops_of time_max cfg.nops)
      ⊎ Failed v (run_fn plat cfg memobj tid v) cfg.memsize
unfolding run_fn
run_fn_balance plat cfg memobj tid v =
    let nops = nops_of time_max cfg.nops in
    let v' = (started plat v).1 in
    measure_rule plat no_hooks (run_body plat cfg memobj tid) (delta_of plat cfg.time_ms) nops tt v
      (Pairs v') (Breaks v' cfg.memsize) (λ w. Completed v w nops ⊎ Failed v w cfg.memsize)
      (λ c t s w p h. run_body-Leaves plat cfg memobj tid v' (started plat v).0 c t s w p)
      (record { maps = omega arith; unmaps = omega arith; bars = refl; live = refl; count = refl })
      (λ c t s w p h stop. inl (Paired-Completed plat v c t nops w p h))
      (λ c s w q h. inr (Broken-Failed plat v cfg.memsize c w q))
