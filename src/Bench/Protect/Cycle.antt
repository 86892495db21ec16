-- ===== src/Bench/Protect/Cycle.antt =====
-- The protection threads: two changes for each operation reported, and what becomes of the mapping.
use vmopsbench.Common.{
  ℕ, ◌+◌, ◌*◌, ◌≤◌, ◌<◌, ◌≡◌, refl, ◌∙◌, ◌⊎◌, inl, inr, true, Option, some, none, ◌∷◌, arith,
  if_rule,
}
use vmopsbench.Config.{Cfg}
use vmopsbench.Platform.{time_max}
use vmopsbench.Bench.World.{Plat, Worker, Cmd, try, tell, clock, now, vm_unmap, nops_of, delta_of}
use vmopsbench.Bench.Trace.{live, entered, succeeded, failed, is_protect, last_failed, remove-head}
use vmopsbench.Bench.Loop.{Inv, Fail, After}
use vmopsbench.Bench.Thread.{started, measure_rule}
use vmopsbench.Bench.Quiet.{Quiet-refl, started-Quiet, conclude-Quiet}
use vmopsbench.Bench.Protect.{prepare, cycle, on_error, begin, run_fn}

-- From `v` to `w` the protection of the region was lowered and raised `c` times.
record Cycled (v w : Worker) (c : ℕ) : Type 0 where
  protects : succeeded is_protect w.trace ≡ succeeded is_protect v.trace + 2 * c
  refused : failed is_protect w.trace ≡ failed is_protect v.trace
  bars : entered w.trace ≡ entered v.trace
  live : live w.trace ≡ live v.trace
  count : w.count ≡ v.count

-- After `c` rounds a change was refused, the first or the second one of its round.
record Stopped (v w : Worker) (c : ℕ) : Type 0 where
  cause : failed is_protect w.trace ≡ failed is_protect v.trace + 1
  least : succeeded is_protect v.trace + 2 * c ≤ succeeded is_protect w.trace
  most : succeeded is_protect w.trace ≤ succeeded is_protect v.trace + 2 * c + 1
  bars : entered w.trace ≡ entered v.trace
  live : live w.trace ≡ live v.trace
  count : w.count ≡ v.count

abbrev Cycles : (addr : ℕ) → Worker → Inv ℕ
Cycles addr v c t a w = (a ≡ addr) × Cycled v w c

abbrev Stops : (addr : ℕ) → Worker → Fail ℕ
Stops addr v c a w = (a ≡ addr) × Stopped v w c

cycle-After :
    (plat : Plat) (cfg : Cfg) (memobj tid addr : ℕ) (v : Worker) (t_start c t a : ℕ) (w : Worker)
    → Cycles addr v c t a w
    → After (Cycles addr v) (Stops addr v) c a (cycle plat cfg memobj tid t_start c t a w)
unfolding cycle try clock now
cycle-After plat cfg memobj tid addr v t_start c t a w p = ground arith

-- What the preparation leaves: the region mapped, or a failed call and nothing.
abbrev Ready : Worker → (size : ℕ) → Option ℕ × Worker → Type 0
Ready v size (some addr, w) =
    (live w.trace ≡ (addr, size) ∷ live v.trace)
    × (entered w.trace ≡ entered v.trace)
    × (succeeded is_protect w.trace ≡ succeeded is_protect v.trace)
    × (failed is_protect w.trace ≡ failed is_protect v.trace)
    × (w.count ≡ v.count)
Ready v size (none, w) =
    (live w.trace ≡ live v.trace)
    × (entered w.trace ≡ entered v.trace)
    × (w.count ≡ v.count)
    × (last_failed w.trace ≡ true)

prepare-Ready :
    (plat : Plat) (cfg : Cfg) (memobj tid : ℕ) (v : Worker)
    → Ready v cfg.memsize (prepare plat cfg memobj tid v)
unfolding prepare try
prepare-Ready plat cfg memobj tid v =
    if_rule {A = Cmd ℕ} (λ f. Ready v cfg.memsize (f v)) cfg.isolated (ground arith) (ground arith)

-- The region could not be mapped, and the thread returned without entering the barrier.
pub record Unmapped (v w : Worker) : Type 0 where
  pub cause : last_failed w.trace ≡ true
  pub live : live w.trace ≡ live v.trace
  pub bars : entered w.trace ≡ entered v.trace
  pub count : w.count ≡ v.count

-- The measurement ran to its end.
pub record Completed (v w : Worker) (addr size nops : ℕ) : Type 0 where
  pub protects : succeeded is_protect w.trace ≡ succeeded is_protect v.trace + 2 * w.count
  pub refused : failed is_protect w.trace ≡ failed is_protect v.trace
  pub limit : w.count ≤ nops
  pub live : live w.trace ≡ (addr, size) ∷ live v.trace
  pub bars : entered w.trace ≡ entered v.trace + 2

-- A change of the protection failed after `c` rounds, in the first or the second half of a round; the
-- region is unmapped again, unless that fails too.
pub record Failed (v w : Worker) (addr size c : ℕ) : Type 0 where
  pub cause : failed is_protect w.trace ≡ failed is_protect v.trace + 1
  pub least : succeeded is_protect v.trace + 2 * c ≤ succeeded is_protect w.trace
  pub most : succeeded is_protect w.trace ≤ succeeded is_protect v.trace + 2 * c + 1
  pub live :
      (live w.trace ≡ live v.trace)
      ⊎ ((live w.trace ≡ (addr, size) ∷ live v.trace) × (last_failed w.trace ≡ true))
  pub bars : entered w.trace ≡ entered v.trace + 1
  pub count : w.count ≡ v.count

abbrev pub Outcome : (v w : Worker) (size nops : ℕ) → Type 0
Outcome v w size nops =
    Unmapped v w
    ⊎ ((addr : ℕ) × (Completed v w addr size nops
          ⊎ ((c : ℕ) × (c < nops) × Failed v w addr size c)))

recover-live :
    (plat : Plat) (v w : Worker) (addr size : ℕ)
    → live w.trace ≡ (addr, size) ∷ live v.trace
    → let w' = tell plat (vm_unmap addr size) w in
      ((live w'.trace ≡ live v.trace)
        ⊎ ((live w'.trace ≡ (addr, size) ∷ live v.trace) × (last_failed w'.trace ≡ true)))
      × (entered w'.trace ≡ entered w.trace)
      × (succeeded is_protect w'.trace ≡ succeeded is_protect w.trace)
      × (failed is_protect w'.trace ≡ failed is_protect w.trace)
      × (w'.count ≡ w.count)
unfolding tell
recover-live plat v w addr size h = ground (arith, remove-head addr size (live v.trace))

begin-Outcome :
    (plat : Plat) (cfg : Cfg) (memobj tid : ℕ) (v : Worker) (r : Option ℕ × Worker)
    → Ready v cfg.memsize r
    → Outcome v (begin plat cfg memobj tid r) cfg.memsize (nops_of time_max cfg.nops)
unfolding begin on_error
begin-Outcome plat cfg memobj tid v (none, w) (l, b, c, e) =
    inl (record { cause = e; live = l; bars = b; count = c })
begin-Outcome plat cfg memobj tid v (some addr, u) (l, b, pr, f, n) =
    let hooks = on_error plat cfg memobj tid in
    let nops = nops_of time_max cfg.nops in
    let v' = (started plat u).1 in
    let first = (started plat u).0 in
    let a = started-Quiet plat u in
    inr (
      addr,
      measure_rule plat hooks (cycle plat cfg memobj tid) (delta_of plat cfg.time_ms) nops addr u
          (Cycles addr v') (Stops addr v')
          (λ w.
            Completed v w addr cfg.memsize nops
            ⊎ ((c : ℕ) × (c < nops) × Failed v w addr cfg.memsize c))
          (λ c t s w p h. cycle-After plat cfg memobj tid addr v' first c t s w p)
          (
            refl,
            record {
              protects = omega arith;
              refused = refl;
              bars = refl;
              live = refl;
              count = refl;
            },
          )
          (λ c t s w p h stop.
            let (z, e) = conclude-Quiet plat hooks first c t s w (Quiet-refl (now plat w).1) in
            inl (record {
              protects = omega (arith, z.protects, p.1.protects, a.protects, pr, e);
              refused = z.refused ∙ p.1.refused ∙ a.refused ∙ f;
              limit = omega (arith, e);
              live = z.live ∙ p.1.live ∙ a.live ∙ l;
              bars = omega (arith, z.bars, p.1.bars, a.bars, b);
            }))
          (λ c s w q h.
            let (x, y, sp, fp, k) =
              recover-live plat v w addr cfg.memsize (q.1.live ∙ a.live ∙ l) in
            inr (
              c,
              h,
              rw q.0 (record {
                cause = omega (arith, fp, q.1.cause, a.refused, f);
                least = omega (arith, sp, q.1.least, a.protects, pr);
                most = omega (arith, sp, q.1.most, a.protects, pr);
                live = x;
                bars = omega (arith, y, q.1.bars, a.bars, b);
                count = k ∙ q.1.count ∙ a.count ∙ n;
              }),
            )),
    )

-- A thread of the protection benchmark on one large region, on any platform, ends in one of three
-- ways. The region cannot be mapped: nothing is left, and the barrier is not entered. The
-- measurement runs to its end: no change was refused, the protection was changed twice for each
-- operation reported, at most the configured number, the region is the one mapping left, and the
-- barrier was entered twice. One change is refused, the first or the second one of a round below
-- the configured number, with two changes made in each round before: the count is untouched, the
-- region is unmapped again unless that call fails too, and the barrier was entered once.
pub run_fn_outcome :
    (plat : Plat) (cfg : Cfg) (memobj tid : ℕ) (v : Worker)
    → Outcome v (run_fn plat cfg memobj tid v) cfg.memsize (nops_of time_max cfg.nops)
unfolding run_fn
run_fn_outcome plat cfg memobj tid v =
    begin-Outcome plat cfg memobj tid v (prepare plat cfg memobj tid v)
      (prepare-Ready plat cfg memobj tid v)
