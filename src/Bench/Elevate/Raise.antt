-- ===== src/Bench/Elevate/Raise.antt =====
-- The measurement of the elevation benchmark: one raised page for each operation reported.
use vmopsbench.Common.{
  ℕ, zero, suc, ◌+◌, ◌*◌, ◌%◌, ◌≤◌, ◌<◌, ◌≡◌, refl, ◌∙◌, ◌⊎◌, inl, inr, if◌then◌else◌, List, [],
  ◌∷◌, arith,
}
use vmopsbench.Config.{Cfg}
use vmopsbench.Platform.{Perm, read_write, base_page_size, u64_mod}
use vmopsbench.Bench.World.{
  Call, Event, is_ok, Plat, Worker, try, tell, clock, now, sample, vm_unmap, vm_protect, nops_of,
  delta_of,
}
use vmopsbench.Bench.Trace.{remove, live, entered}
use vmopsbench.Bench.Loop.{finished, Inv, Fail, After}
use vmopsbench.Bench.Thread.{started, conclude, measure_rule}
use vmopsbench.Bench.Quiet.{Quiet-refl, started-Quiet, conclude-Quiet}
use vmopsbench.Bench.Elevate.{default_nops, prepared, raise, on_error, begin}

-- A change of the protection: its address, its size and the new protection.
abbrev pub Change : Type 0
Change = ℕ × ℕ × Perm

abbrev with_change : Call → List Change → List Change
with_change (vm_protect a size perm) l = (a, size, perm) ∷ l
with_change _ l = l

-- The changes that were made, and those that were refused, the latest first.
abbrev pub changed : List Event → List Change
changed [] = []
changed (e ∷ h) = if is_ok e.reply.err then with_change e.call (changed h) else changed h

abbrev pub refused : List Event → List Change
refused [] = []
refused (e ∷ h) = if is_ok e.reply.err then refused h else with_change e.call (refused h)

-- Page `c` from `addr` on is made writable.
abbrev pub page : (addr c : ℕ) → Change
page addr c = ((addr + c * base_page_size) % u64_mod, base_page_size, read_write)

-- The first `c` pages from `addr` on, the last one first, before `rest`.
abbrev pub pages : (addr c : ℕ) → List Change → List Change
pages addr zero rest = rest
pages addr (suc c) rest = page addr c ∷ pages addr c rest

-- From `v` to `w`, `c` pages were raised, the first one at `addr`.
record Raised (v w : Worker) (addr c : ℕ) : Type 0 where
  raised : changed w.trace ≡ pages addr c (changed v.trace)
  refusals : refused w.trace ≡ refused v.trace
  bars : entered w.trace ≡ entered v.trace
  live : live w.trace ≡ live v.trace
  count : w.count ≡ v.count

abbrev Raises : (addr : ℕ) → Worker → Inv ℕ
Raises addr v c t a w = Raised v w addr c × (a ≡ (addr + c * base_page_size) % u64_mod)

-- After `c` pages the next one was refused.
record Stopped (v w : Worker) (addr c : ℕ) : Type 0 where
  raised : changed w.trace ≡ pages addr c (changed v.trace)
  cause : refused w.trace ≡ page addr c ∷ refused v.trace
  bars : entered w.trace ≡ entered v.trace
  live : live w.trace ≡ live v.trace
  count : w.count ≡ v.count

abbrev Stops : (addr : ℕ) → Worker → Fail ℕ
Stops addr v c a w = Stopped v w addr c × (a ≡ (addr + c * base_page_size) % u64_mod)

next_page :
    (addr c : ℕ)
    → ((addr + c * base_page_size) % u64_mod + base_page_size) % u64_mod
      ≡ (addr + (c + 1) * base_page_size) % u64_mod
next_page addr c = omega arith

raise-After :
    (plat : Plat) (cfg : Cfg) (memobj tid addr : ℕ) (v : Worker) (t_start c t a : ℕ) (w : Worker)
    → Raises addr v c t a w
    → After (Raises addr v) (Stops addr v) c a (raise plat cfg memobj tid t_start c t a w)
unfolding raise try clock now sample
raise-After plat cfg memobj tid addr v t_start c t a w p = ground (arith, next_page addr c)

-- The measurement ran to its end.
pub record Completed (v w : Worker) (addr nops : ℕ) : Type 0 where
  pub raised : changed w.trace ≡ pages addr w.count (changed v.trace)
  pub refusals : refused w.trace ≡ refused v.trace
  pub limit : w.count ≤ nops
  pub live : live w.trace ≡ live v.trace
  pub bars : entered w.trace ≡ entered v.trace + 2

-- Page `c` was refused, after the `c` pages before it were raised.
pub record Failed (v w : Worker) (addr size c : ℕ) : Type 0 where
  pub raised : changed w.trace ≡ pages addr c (changed v.trace)
  pub cause : refused w.trace ≡ page addr c ∷ refused v.trace
  pub live :
      (live w.trace ≡ live v.trace)
      ⊎ (live w.trace ≡ remove ((addr + c * base_page_size) % u64_mod) size (live v.trace))
  pub bars : entered w.trace ≡ entered v.trace + 1
  pub count : w.count ≡ v.count

module _ (plat : Plat) where
  started-changed : (v : Worker) → changed (started plat v).1.trace ≡ changed v.trace
  unfolding started tell now
  started-changed v = ground arith

  started-refused : (v : Worker) → refused (started plat v).1.trace ≡ refused v.trace
  unfolding started tell now
  started-refused v = ground arith

  conclude-refused :
      (cfg : Cfg) (memobj tid t_start c t a : ℕ) (w : Worker)
      → refused (conclude plat (on_error plat cfg memobj tid) t_start (finished c t a, w)).trace
        ≡ refused w.trace
  unfolding conclude on_error tell now
  conclude-refused cfg memobj tid t_start c t a w = ground arith

  conclude-changed :
      (cfg : Cfg) (memobj tid t_start c t a : ℕ) (w : Worker)
      → changed (conclude plat (on_error plat cfg memobj tid) t_start (finished c t a, w)).trace
        ≡ changed w.trace
  unfolding conclude on_error tell now
  conclude-changed cfg memobj tid t_start c t a w = ground arith

  recover-Failed :
      (v w : Worker) (addr size c : ℕ)
      → Stopped (started plat v).1 w addr c
      → Failed v (tell plat (vm_unmap ((addr + c * base_page_size) % u64_mod) size) w) addr size c
  unfolding tell
  recover-Failed v w addr size c q =
      let a = started-Quiet plat v in
      let b = started-changed v in
      record {
        raised = ground (arith, q.raised, b);
        cause = ground (arith, q.cause, started-refused v);
        live = ground (arith, q.live, a.live);
        bars = ground (arith, q.bars, a.bars);
        count = q.count ∙ a.count;
      }

-- The measurement of the elevation benchmark, on any platform, when the preparation has left `addr`:
-- either it runs to its end, and the protection was raised once for each operation reported, at
-- most the configured number, to writable, on consecutive pages of 4 KiB from `addr` on, no change
-- was refused, no mapping was touched, and the barrier was entered twice; or the change of a page
-- below the configured number is refused, the pages before it are raised, and no change follows: the
-- count is untouched, the barrier was entered once, and the only mapping that may be removed is one
-- that starts at that page.
pub begin_raises :
    (plat : Plat) (cfg : Cfg) (memobj tid addr : ℕ) (v : Worker)
    → addr < u64_mod
    → let w = begin plat cfg memobj tid (prepared addr, v) in
      Completed v w addr (nops_of default_nops cfg.nops)
      ⊎ ((c : ℕ) × (c < nops_of default_nops cfg.nops) × Failed v w addr cfg.memsize c)
unfolding begin on_error
begin_raises plat cfg memobj tid addr v small =
    let hooks = on_error plat cfg memobj tid in
    let nops = nops_of default_nops cfg.nops in
    let v' = (started plat v).1 in
    let first = (started plat v).0 in
    let a = started-Quiet plat v in
    measure_rule plat hooks (raise plat cfg memobj tid) (delta_of plat cfg.time_ms) nops addr v
      (Raises addr v') (Stops addr v')
      (λ w.
        Completed v w addr nops
        ⊎ ((c : ℕ) × (c < nops_of default_nops cfg.nops) × Failed v w addr cfg.memsize c))
      (λ c t s w p h. raise-After plat cfg memobj tid addr v' first c t s w p)
      (
        record { raised = refl; refusals = refl; bars = refl; live = refl; count = refl },
        omega (arith, small),
      )
      (λ c t s w p h stop.
        let (z, e) = conclude-Quiet plat hooks first c t s w (Quiet-refl (now plat w).1) in
        inl (record {
          raised =
              rw
                (
                  e,
                  conclude-changed plat cfg memobj tid first c t s w,
                  p.0.raised,
                  started-changed plat v,
                )
                refl;
          refusals =
              conclude-refused plat cfg memobj tid first c t s w
              ∙ p.0.refusals
              ∙ started-refused plat v;
          limit = omega (arith, e);
          live = z.live ∙ p.0.live ∙ a.live;
          bars = omega (arith, z.bars, p.0.bars, a.bars);
        }))
      (λ c s w q h. inr (c, h, rw q.1 (recover-Failed plat v w addr cfg.memsize c q.0)))
