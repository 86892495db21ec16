-- ===== src/Bench/Isolation.antt =====
-- src/benchmarks/utils.h, utils_vmops_get_map_address: where isolated threads map.
use vmopsbench.Common.{ℕ, ◌+◌, ◌≤◌, ◌<◌, ◌≢◌, ◌⊎◌, arith}
use vmopsbench.Platform.{u64_mod}
use vmopsbench.Bench.World.{map_address}

-- The regions of up to 512 GiB of two isolated threads, whose numbers are below 2^25 - 2, do not
-- overlap, and start within the address space, above the first TiB.
pub map_address_apart :
    (a b size : ℕ)
    → a ≢ b
    → a < 33554430
    → b < 33554430
    → size ≤ 549755813888
    → ((map_address a + size ≤ map_address b) ⊎ (map_address b + size ≤ map_address a))
      × (1099511627776 < map_address a)
      × (map_address a < u64_mod)
unfolding map_address
map_address_apart a b size d ha hb h = ground (arith, d)
