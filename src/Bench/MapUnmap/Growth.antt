-- ===== src/Bench/MapUnmap/Growth.antt =====
-- The map-only threads: as many mappings more as operations are reported.
use vmopsbench.Common.{
  ℕ, ◌+◌, ◌≤◌, ◌<◌, ◌≡◌, refl, ◌∙◌, ◌⊎◌, inl, inr, true, arith, if_rule, length,
}
use vmopsbench.Config.{Cfg}
use vmopsbench.Platform.{time_max}
use vmopsbench.Bench.World.{
  Plat, Worker, Cmd, try, clock, now, sample, nops_of, delta_of, map_address,
}
use vmopsbench.Bench.Trace.{live, entered, succeeded, is_map, is_unmap, last_failed}
use vmopsbench.Bench.Loop.{Inv, Fail, After}
use vmopsbench.Bench.Thread.{no_hooks, started, measure_rule}
use vmopsbench.Bench.Quiet.{Quiet-refl, started-Quiet, conclude-Quiet}
use vmopsbench.Bench.MapUnmap.{grow_fixed, grow_any, grow_body, run_nounmap_fn}

-- From `v` to `w` the thread has mapped `c` times and unmapped nothing.
record Grown (v w : Worker) (c : ℕ) : Type 0 where
  maps : succeeded is_map w.trace ≡ succeeded is_map v.trace + c
  unmaps : succeeded is_unmap w.trace ≡ succeeded is_unmap v.trace
  bars : entered w.trace ≡ entered v.trace
  regions : length (live w.trace) ≡ length (live v.trace) + c
  count : w.count ≡ v.count

abbrev Grows : Worker → Inv ℕ
Grows v c t a w = Grown v w c

abbrev Halts : Worker → Fail ℕ
Halts v c a w = Grown v w c × (last_failed w.trace ≡ true)

module _ (plat : Plat) (cfg : Cfg) (memobj tid : ℕ) (v : Worker) where
  grow_body-After :
      (t_start c t a : ℕ) (w : Worker)
      → Grown v w c
      → After (Grows v) (Halts v) c a (grow_body plat cfg memobj tid t_start c t a w)
  unfolding grow_body grow_fixed grow_any try clock now sample
  grow_body-After t_start c t a w p =
      if_rule {A = ℕ → ℕ → ℕ → ℕ → Cmd (ℕ × ℕ)}
        (λ f. After (Grows v) (Halts v) c a (f t_start c t a w)) cfg.isolated (ground arith)
        (ground arith)

-- The measurement ran to its end.
pub record Completed (v w : Worker) (nops : ℕ) : Type 0 where
  pub maps : succeeded is_map w.trace ≡ succeeded is_map v.trace + w.count
  pub unmaps : succeeded is_unmap w.trace ≡ succeeded is_unmap v.trace
  pub regions : length (live w.trace) ≡ length (live v.trace) + w.count
  pub limit : w.count ≤ nops
  pub bars : entered w.trace ≡ entered v.trace + 2

-- A platform call failed, and the thread returned.
pub record Failed (v w : Worker) (nops : ℕ) : Type 0 where
  pub cause : last_failed w.trace ≡ true
  pub count : w.count ≡ v.count
  pub unmaps : succeeded is_unmap w.trace ≡ succeeded is_unmap v.trace
  pub few : succeeded is_map w.trace < succeeded is_map v.trace + nops
  pub bars : entered w.trace ≡ entered v.trace + 1

-- A thread of the map-only benchmark, isolated or not, on any platform: it ends either with as many
-- more mappings standing as the count that it reports, at most the configured number, nothing
-- unmapped, and two calls of the barrier; or after a call that failed, with its count untouched,
-- fewer mappings made than configured, none of them unmapped, and only one call of the barrier.
pub run_nounmap_fn_growth :
    (plat : Plat) (cfg : Cfg) (memobj tid : ℕ) (v : Worker)
    → let w = run_nounmap_fn plat cfg memobj tid v in
      let nops = nops_of time_max cfg.nops in Completed v w nops ⊎ Failed v w nops
unfolding run_nounmap_fn
run_nounmap_fn_growth plat cfg memobj tid v =
    let nops = nops_of time_max cfg.nops in
    let (t, v') = started plat v in
    let a = started-Quiet plat v in
    measure_rule plat no_hooks (grow_body plat cfg memobj tid) (delta_of plat cfg.time_ms) nops
      (map_address tid) v (Grows v') (Halts v') (λ w. Completed v w nops ⊎ Failed v w nops)
      (λ c t s w p h. grow_body-After plat cfg memobj tid v' (started plat v).0 c t s w p)
      (record {
        maps = omega arith;
        unmaps = refl;
        bars = refl;
        regions = omega arith;
        count = refl;
      })
      (λ c t s w p h stop.
        let (z, e) =
          conclude-Quiet plat no_hooks (started plat v).0 c t s w (Quiet-refl (now plat w).1) in
        inl (record {
          maps = omega (arith, z.maps, p.maps, a.maps, e);
          unmaps = z.unmaps ∙ p.unmaps ∙ a.unmaps;
          regions = rw (e, z.live, p.regions, a.live) refl;
          limit = omega (arith, e);
          bars = omega (arith, z.bars, p.bars, a.bars);
        }))
      (λ c s w q h. inr (record {
        cause = q.1;
        count = q.0.count ∙ a.count;
        unmaps = q.0.unmaps ∙ a.unmaps;
        few = omega (arith, q.0.maps, a.maps);
        bars = omega (arith, q.0.bars, a.bars);
      }))
