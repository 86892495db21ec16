-- ===== src/Barrelfish/Regions/Tests.antt =====
-- Cores that take turns, and the theorem at them.
use vmopsbench.Common.{ℕ, ◌+◌, ◌<◌, ◌≡◌, refl, Option, some, List, [], ◌∷◌, arith, All}
use vmopsbench.Barrelfish.Regions.{Region, alloc_all, no_regions, num_vregion_buf}
use vmopsbench.Barrelfish.Regions.Ordered.{Distinct, FreshBlocks}
use vmopsbench.Barrelfish.Regions.Apart.{alloc_all-Distinct}

abbrev malloc : ℕ → Option ℕ
malloc i = some (i + 7)

malloc-FreshBlocks : FreshBlocks malloc
malloc-FreshBlocks i j b e k = ground arith

abbrev turns : List ℕ
turns = 0 ∷ 1 ∷ 0 ∷ 2 ∷ 1 ∷ []

turns_regions :
    (alloc_all malloc turns no_regions []).0
    ≡ record { block = 8; index = 1 }
      ∷ record { block = 9; index = 0 }
      ∷ record { block = 7; index = 1 }
      ∷ record { block = 8; index = 0 }
      ∷ record { block = 7; index = 0 }
      ∷ []
unfolding alloc_all
turns_regions = refl

alloc_all-Distinct_example :
    let h = (alloc_all malloc turns no_regions []).0 in
    Distinct h
    × All (λ (r : Region). (r.index < num_vregion_buf) × ((i : ℕ) × (malloc i ≡ some r.block))) h
alloc_all-Distinct_example = alloc_all-Distinct malloc turns malloc-FreshBlocks
