-- ===== src/Bench/Pages/CleanUp.antt =====
-- The clean-up of the array of mappings.
use vmopsbench.Common.{ℕ, ◌+◌, refl, Bool, true, false, if◌then◌else◌, ◌==◌, List, [], ◌∷◌, arith}
use vmopsbench.Config.{Cfg}
use vmopsbench.Platform.{base_page_size}
use vmopsbench.Bench.World.{Plat, Worker, tell, vm_unmap, barrier}
use vmopsbench.Bench.Pages.{unmap_pages, clean_up}
use vmopsbench.Bench.Pages.Cells.{one_unless, in_use}
use vmopsbench.Bench.Pages.Moved.{Moved, Moved-refl, Moved-trans}

module _ (plat : Plat) (cfg : Cfg) (memobj tid : ℕ) where
  unmap_pages-Moved :
      (l : List ℕ) (w : Worker)
      → Moved w (unmap_pages plat cfg memobj tid l w) 0 (in_use l) 0 0 0 0 (in_use l)
  unfolding unmap_pages tell
  unmap_pages-Moved [] w = Moved-refl w
  unmap_pages-Moved (a ∷ l) w =
      by_cell (a == 0) (unmap_pages-Moved l w)
        (unmap_pages-Moved l (tell plat (vm_unmap a base_page_size) w))
    where
      by_cell :
          (b : Bool)
          → Moved w (unmap_pages plat cfg memobj tid l w) 0 (in_use l) 0 0 0 0 (in_use l)
          → Moved
              (tell plat (vm_unmap a base_page_size) w)
              (unmap_pages plat cfg memobj tid l (tell plat (vm_unmap a base_page_size) w))
              0
              (in_use l)
              0
              0
              0
              0
              (in_use l)
          → Moved w
              (unmap_pages plat cfg memobj tid l
                (if b then w else tell plat (vm_unmap a base_page_size) w))
              0
              (one_unless b + in_use l)
              0
              0
              0
              0
              (one_unless b + in_use l)
      by_cell true m n = record {
        maps = m.maps;
        unmaps = omega (arith, m.unmaps);
        protects = m.protects;
        bars = m.bars;
        errors = m.errors;
        least = omega (arith, m.least);
        most = omega (arith, m.most);
        count = m.count;
      }
      by_cell false m n = record {
        maps = ground (arith, n.maps);
        unmaps = omega (arith, n.unmaps);
        protects = ground (arith, n.protects);
        bars = omega (arith, n.bars);
        errors = ground (arith, n.errors);
        least = ground (arith, n.least);
        most = ground (arith, n.most);
        count = n.count;
      }

  barrier-Moved : (w : Worker) → Moved w (tell plat barrier w) 0 0 0 1 0 0 0
  unfolding tell
  barrier-Moved w = record {
    maps = ground arith;
    unmaps = omega arith;
    protects = ground arith;
    bars = omega arith;
    errors = ground arith;
    least = ground arith;
    most = ground arith;
    count = refl;
  }

  pub clean_up-Moved :
      (l : List ℕ) (w : Worker)
      → Moved w (clean_up plat cfg memobj tid l w) 0 (in_use l) 0 2 0 0 (in_use l)
  unfolding clean_up
  clean_up-Moved l w =
      let m = Moved-trans (barrier-Moved w) (
        Moved-trans (unmap_pages-Moved l (tell plat barrier w))
          (barrier-Moved (unmap_pages plat cfg memobj tid l (tell plat barrier w)))) in
      record {
        maps = m.maps;
        unmaps = omega (arith, m.unmaps);
        protects = m.protects;
        bars = m.bars;
        errors = m.errors;
        least = omega (arith, m.least);
        most = omega (arith, m.most);
        count = m.count;
      }
