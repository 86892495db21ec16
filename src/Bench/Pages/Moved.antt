-- ===== src/Bench/Pages/Moved.antt =====
-- What a thread on pages has done from one moment to another, in numbers.
use vmopsbench.Common.{ℕ, ◌+◌, ◌≤◌, ◌≡◌, refl, ◌∙◌, List, [], ◌∷◌, arith}
use vmopsbench.Bench.World.{Plat, Call, Event, Worker, tell, now}
use vmopsbench.Bench.Trace.{entered, succeeded, failed, is_map, is_unmap, is_protect, is_change}
use vmopsbench.Bench.Thread.{started}

-- Calls of one kind, whatever came of them.
abbrev pub asked : (Call → ℕ) → List Event → ℕ
asked kind [] = 0
asked kind (e ∷ h) = kind e.call + asked kind h

-- From `v` to `w`, `m` successful mappings, `u` attempts to unmap, `p` changes of a protection and
-- `b` calls of the barrier; `e` mappings or changes failed, and from `f` to `g` attempts to unmap did;
-- the count is untouched.
pub record Moved (v w : Worker) (m u p b e f g : ℕ) : Type 0 where
  pub maps : succeeded is_map w.trace ≡ m + succeeded is_map v.trace
  pub unmaps : asked is_unmap w.trace ≡ u + asked is_unmap v.trace
  pub protects : succeeded is_protect w.trace ≡ p + succeeded is_protect v.trace
  pub bars : entered w.trace ≡ b + entered v.trace
  pub errors : failed is_change w.trace ≡ e + failed is_change v.trace
  pub least : f + failed is_unmap v.trace ≤ failed is_unmap w.trace
  pub most : failed is_unmap w.trace ≤ g + failed is_unmap v.trace
  pub count : w.count ≡ v.count

pub Moved-refl : (w : Worker) → Moved w w 0 0 0 0 0 0 0
Moved-refl w = record {
  maps = omega arith;
  unmaps = omega arith;
  protects = omega arith;
  bars = omega arith;
  errors = ground arith;
  least = ground arith;
  most = ground arith;
  count = refl;
}

pub Moved-trans :
    {u v w : Worker} {m n a b p q c d e f g h i j : ℕ}
    → Moved u v m a p c e f g
    → Moved v w n b q d h i j
    → Moved u w (m + n) (a + b) (p + q) (c + d) (e + h) (f + i) (g + j)
Moved-trans x y = record {
  maps = omega (arith, x.maps, y.maps);
  unmaps = omega (arith, x.unmaps, y.unmaps);
  protects = omega (arith, x.protects, y.protects);
  bars = omega (arith, x.bars, y.bars);
  errors = omega (arith, x.errors, y.errors);
  least = omega (arith, x.least, y.least);
  most = omega (arith, x.most, y.most);
  count = y.count ∙ x.count;
}

pub now-Moved : (plat : Plat) (w : Worker) → Moved w (now plat w).1 0 0 0 0 0 0 0
unfolding now
now-Moved plat w = record {
  maps = ground arith;
  unmaps = omega arith;
  protects = ground arith;
  bars = omega arith;
  errors = ground arith;
  least = ground arith;
  most = ground arith;
  count = refl;
}

pub started-Moved : (plat : Plat) (w : Worker) → Moved w (started plat w).1 0 0 0 1 0 0 0
unfolding started tell now
started-Moved plat w = record {
  maps = ground arith;
  unmaps = omega arith;
  protects = ground arith;
  bars = omega arith;
  errors = ground arith;
  least = ground arith;
  most = ground arith;
  count = refl;
}
