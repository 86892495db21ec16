-- ===== src/Bench/Quiet.antt =====
-- Reading the time and entering the barrier touch no mapping.
use vmopsbench.Common.{ℕ, ◌+◌, ◌≡◌, refl, ◌∙◌, arith}
use vmopsbench.Bench.World.{Plat, Worker, tell, now, barrier}
use vmopsbench.Bench.Trace.{live, entered, succeeded, failed, is_map, is_unmap, is_protect}
use vmopsbench.Bench.Thread.{Hooks, started, conclude}
use vmopsbench.Bench.Loop.{finished}

-- From `v` to `w` only the time was read and the barrier entered, this `k` times.
pub record Quiet (v w : Worker) (k : ℕ) : Type 0 where
  pub maps : succeeded is_map w.trace ≡ succeeded is_map v.trace
  pub unmaps : succeeded is_unmap w.trace ≡ succeeded is_unmap v.trace
  pub protects : succeeded is_protect w.trace ≡ succeeded is_protect v.trace
  pub refused : failed is_protect w.trace ≡ failed is_protect v.trace
  pub live : live w.trace ≡ live v.trace
  pub bars : entered w.trace ≡ entered v.trace + k
  pub count : w.count ≡ v.count

pub Quiet-trans : {u v w : Worker} {j k : ℕ} → Quiet u v j → Quiet v w k → Quiet u w (j + k)
Quiet-trans p q = record {
  maps = q.maps ∙ p.maps;
  unmaps = q.unmaps ∙ p.unmaps;
  protects = q.protects ∙ p.protects;
  refused = q.refused ∙ p.refused;
  live = q.live ∙ p.live;
  bars = omega (arith, p.bars, q.bars);
  count = q.count ∙ p.count;
}

module _ (plat : Plat) (w : Worker) where
  pub now-Quiet : Quiet w (now plat w).1 0
  unfolding now
  now-Quiet = ground arith

  pub barrier-Quiet : Quiet w (tell plat barrier w) 1
  unfolding tell
  barrier-Quiet = ground arith

pub started-Quiet : (plat : Plat) (w : Worker) → Quiet w (started plat w).1 1
unfolding started
started-Quiet plat w = Quiet-trans (barrier-Quiet plat w) (now-Quiet plat (tell plat barrier w))

-- The end of a loop that was not left early, where nothing is published: one more barrier, and the
-- count as reported.
pub conclude-Quiet :
    {S : Type 0} (plat : Plat) (hooks : Hooks S) (t_start c t : ℕ) (s : S) (w : Worker)
    → Quiet (now plat w).1 (hooks.publish (now plat w).1) 0
    → let w' = conclude plat hooks t_start (finished c t s, w) in
      Quiet w (record w' { count = w.count }) 1 × (w'.count ≡ c)
unfolding conclude
conclude-Quiet plat hooks t_start c t s w h =
    let q =
      Quiet-trans (now-Quiet plat w)
        (Quiet-trans h (barrier-Quiet plat (hooks.publish (now plat w).1))) in
    (
      record {
        maps = q.maps;
        unmaps = q.unmaps;
        protects = q.protects;
        refused = q.refused;
        live = q.live;
        bars = q.bars;
        count = refl;
      },
      refl,
    )

pub Quiet-refl : (w : Worker) → Quiet w w 0
Quiet-refl w = record {
  maps = refl;
  unmaps = refl;
  protects = refl;
  refused = refl;
  live = refl;
  bars = omega arith;
  count = refl;
}
