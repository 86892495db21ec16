-- ===== src/Bench/TlbShoot/Announce.antt =====
-- Thread 0 of the TLB shootdown: it tells the helpers that it is done if, and only if, all of its
-- calls succeed.
use vmopsbench.Common.{
  ℕ, ◌+◌, ◌≤◌, ◌≡◌, refl, ap, ◌∙◌, ◌⊎◌, inl, inr, Bool, true, List, [], ◌∷◌, arith, if_rule,
  if_cases, not,
}
use vmopsbench.Config.{Cfg}
use vmopsbench.Platform.{time_max}
use vmopsbench.Bench.World.{
  Plat, Worker, Cmd, Call, Event, write_done, ask, try, tell, clock, now, sample, vm_map, nops_of,
  delta_of, is_ok,
}
use vmopsbench.Bench.Trace.{entered, succeeded, is_map, is_unmap, last_failed}
use vmopsbench.Bench.Loop.{finished, Inv, Fail, After}
use vmopsbench.Bench.Thread.{started, conclude, measure_rule}
use vmopsbench.Bench.MapUnmap.{round_fixed, round_any, run_body}
use vmopsbench.Bench.TlbShoot.{announce, shooter, run_fn}

abbrev is_write : Call → ℕ
is_write write_done = 1
is_write _ = 0

-- How often the thread has written *done.
abbrev pub announced : List Event → ℕ
announced [] = 0
announced (e ∷ h) = is_write e.call + announced h

-- From `v` to `w` the thread has mapped `m` times and unmapped `c` times.
record Shot (v w : Worker) (m c b a : ℕ) : Type 0 where
  maps : succeeded is_map w.trace ≡ succeeded is_map v.trace + m
  unmaps : succeeded is_unmap w.trace ≡ succeeded is_unmap v.trace + c
  bars : entered w.trace ≡ entered v.trace + b
  announced : announced w.trace ≡ announced v.trace + a
  count : w.count ≡ v.count

abbrev Shoots : Worker → Inv (Unit {0})
Shoots v c t s w = Shot v w c c 0 0

abbrev Misses : Worker → Fail (Unit {0})
Misses v c s w = (Shot v w c c 0 0 ⊎ Shot v w (c + 1) c 0 0) × (last_failed w.trace ≡ true)

module _ (plat : Plat) (cfg : Cfg) (memobj tid : ℕ) where
  run_body-After :
      (v : Worker) (t_start c t : ℕ) (w : Worker)
      → Shot v w c c 0 0
      → After (Shoots v) (Misses v) c tt (run_body plat cfg memobj tid t_start c t tt w)
  unfolding run_body round_fixed round_any try clock now sample
  run_body-After v t_start c t w p =
      if_rule {A = ℕ → ℕ → Unit {0} → Cmd (ℕ × Unit {0})}
        (λ f. After (Shoots v) (Misses v) c tt (f c t tt w)) cfg.isolated (ground arith)
        (ground arith)

  started-Shot : (w : Worker) → Shot w (started plat w).1 0 0 1 0
  unfolding started tell now
  started-Shot w = record {
    maps = ground arith;
    unmaps = ground arith;
    bars = omega arith;
    announced = omega arith;
    count = refl;
  }

  conclude-Shot :
      (t_start c t : ℕ) (w : Worker)
      → let w' = conclude plat (announce plat cfg memobj tid) t_start (finished c t tt, w) in
        Shot w (record w' { count = w.count }) 0 0 1 1 × (w'.count ≡ c)
  unfolding conclude announce tell now
  conclude-Shot t_start c t w = (
    record {
      maps = ground arith;
      unmaps = ground arith;
      bars = omega arith;
      announced = omega arith;
      count = refl;
    },
    refl,
  )

-- The measurement ran to its end.
pub record Completed (v w : Worker) (nops : ℕ) : Type 0 where
  pub maps : succeeded is_map w.trace ≡ succeeded is_map v.trace + 1 + w.count
  pub unmaps : succeeded is_unmap w.trace ≡ succeeded is_unmap v.trace + w.count
  pub limit : w.count ≤ nops
  pub bars : entered w.trace ≡ entered v.trace + 2
  pub announced : announced w.trace ≡ announced v.trace + 1

-- A call failed, with `b` calls of the barrier so far.
pub record Failed (v w : Worker) (b : ℕ) : Type 0 where
  pub cause : last_failed w.trace ≡ true
  pub bars : entered w.trace ≡ entered v.trace + b
  pub announced : announced w.trace ≡ announced v.trace
  pub count : w.count ≡ v.count

-- After the first mapping, which takes `v` to `u`.
shooter-Completed :
    (plat : Plat) (cfg : Cfg) (memobj tid : ℕ) (v u : Worker)
    → Shot v u 1 0 0 0
    → let w = shooter plat cfg memobj tid u in
      Completed v w (nops_of time_max cfg.nops) ⊎ Failed v w 1
unfolding shooter announce
shooter-Completed plat cfg memobj tid v u x =
    let hooks = announce plat cfg memobj tid in
    let nops = nops_of time_max cfg.nops in
    let u' = (started plat u).1 in
    let first = (started plat u).0 in
    let a = started-Shot plat cfg memobj tid u in
    measure_rule plat hooks (run_body plat cfg memobj tid) (delta_of plat cfg.time_ms) nops tt u
      (Shoots u') (Misses u') (λ w. Completed v w nops ⊎ Failed v w 1)
      (λ c t s w p h. run_body-After plat cfg memobj tid u' first c t w p)
      (record {
        maps = omega arith;
        unmaps = omega arith;
        bars = omega arith;
        announced = omega arith;
        count = refl;
      })
      (λ c t s w p h stop.
        let (z, e) = conclude-Shot plat cfg memobj tid first c t w in
        inl (record {
          maps = omega (arith, z.maps, p.maps, a.maps, x.maps, e);
          unmaps = omega (arith, z.unmaps, p.unmaps, a.unmaps, x.unmaps, e);
          limit = omega (arith, e);
          bars = omega (arith, z.bars, p.bars, a.bars, x.bars);
          announced = omega (arith, z.announced, p.announced, a.announced, x.announced);
        }))
      (λ c s w q h. inr (missed w c q))
  where
    failed_with :
        (w : Worker) (m c : ℕ)
        → Shot (started plat u).1 w m c 0 0
        → last_failed w.trace ≡ true
        → Failed v w 1
    failed_with w m c p e =
        let a = started-Shot plat cfg memobj tid u in
        record {
          cause = e;
          bars = omega (arith, p.bars, a.bars, x.bars);
          announced = omega (arith, p.announced, a.announced, x.announced);
          count = p.count ∙ a.count ∙ x.count;
        }

    missed : (w : Worker) (c : ℕ) → Misses (started plat u).1 c tt w → Failed v w 1
    missed w c (inl p, e) = failed_with w c c p e
    missed w c (inr p, e) = failed_with w (c + 1) c p e

-- Thread 0 of the TLB shootdown, isolated or not, on any platform, never spins, and ends in one of
-- two ways: all of its calls succeed, and it has written the done flag once, entered the barrier
-- twice, and unmapped as often as the count that it reports, at most the configured number, and
-- mapped once more; or a call has failed, and it has not written the flag, for which the other
-- threads wait, entered the barrier at most once, and left its count untouched.
pub thread_0_announces :
    (plat : Plat) (cfg : Cfg) (memobj fuel : ℕ) (v : Worker)
    → let (left, w) = run_fn plat cfg memobj 0 fuel v in
      (left ≡ true)
      × (Completed v w (nops_of time_max cfg.nops) ⊎ ((b : ℕ) × (b ≤ 1) × Failed v w b))
unfolding run_fn
thread_0_announces plat cfg memobj fuel v =
    let c = vm_map cfg.memsize memobj 0 cfg.maphuge in
    let u = (ask plat c v).1 in
    let nops = nops_of time_max cfg.nops in
    if_cases
      (λ (r : Bool × Worker).
        (r.0 ≡ true) × (Completed v r.1 nops ⊎ ((b : ℕ) × (b ≤ 1) × Failed v r.1 b)))
      (is_ok (ask plat c v).0.err)
      (λ e. (
        refl,
        elim (shooter-Completed plat cfg memobj 0 v u (record {
          maps = rw e (omega arith);
          unmaps = ground arith;
          bars = omega arith;
          announced = omega arith;
          count = refl;
        })) [ inl z ↦ inl z | inr z ↦ inr (1, omega arith, z) ],
      ))
      (λ e. (
        refl,
        inr (
          0,
          omega arith,
          record { cause = ap not e; bars = omega arith; announced = omega arith; count = refl },
        ),
      ))
