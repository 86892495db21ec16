-- ===== src/Barrelfish/Topology/Tests.antt =====
-- Two nodes of three CPUs each, and the theorems at them.
use vmopsbench.Common.{◌≡◌, refl, true, some, none, [], ◌∷◌, ltb, ◌==◌, if◌then◌else◌}
use vmopsbench.Platform.{numa_interleave}
use vmopsbench.Topology.{Numa}
use vmopsbench.Barrelfish.Topology.{Skb, cores, undefined, no_numa, get_topology}

abbrev skb : Skb
skb = record { queried = true; read = true; ncid = 4; mem = true }

abbrev numa : Numa
numa = record {
  available = true;
  nprocs = 6;
  nproc = 6;
  nnodes = 2;
  is_set = λ node cpu. if ltb cpu 3 then node == 0 else node == 1;
  mask_allocated = λ node. true;
  cpus_read = λ node. true;
  nodes_mem = true;
  cids_mem = true;
}

-- No core at all: the write of CPU 0 is outside of the array.
no_numa_empty : no_numa (record skb { ncid = 0 }) ≡ undefined
unfolding no_numa
no_numa_empty = refl

-- Under the interleave policy CPU 0 takes the place of CPU 4, and the last cell but one is not written.
interleave_overwrites :
    get_topology numa skb numa_interleave
    ≡ cores (some 1 ∷ some 3 ∷ some 2 ∷ some 0 ∷ none ∷ some 5 ∷ []) 6
unfolding get_topology vmopsbench.Topology.interleave_node vmopsbench.Topology.read_masks
interleave_overwrites = refl
