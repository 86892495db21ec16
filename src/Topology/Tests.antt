-- ===== src/Topology/Tests.antt =====
-- Two nodes of two CPUs each, and the theorem at them.
use vmopsbench.Common.{
  zero, suc, ◌<◌, ◌≤◌, length, ltb, ◌&&◌, ℕ, ◌%◌, ◌≡◌, refl, true, ◌==◌, some, [], ◌∷◌, arith,
}
use vmopsbench.Platform.{numa_interleave}
use vmopsbench.Topology.Interleave.{FullArray, get_topology_interleave}
use vmopsbench.Topology.{undefined, Numa, cores, get_topology}
use vmopsbench.Topology.Fill.{node_cpus}

-- The even CPUs are on node 0.
abbrev numa : Numa
numa = record {
  available = true;
  nprocs = 4;
  nproc = 4;
  nnodes = 2;
  is_set = λ node cpu. cpu % 2 == node;
  mask_allocated = λ node. true;
  cpus_read = λ node. true;
  nodes_mem = true;
  cids_mem = true;
}

interleave_at_2 :
    get_topology numa numa_interleave ≡ cores (some 0 ∷ some 1 ∷ some 2 ∷ some 3 ∷ []) 4
unfolding get_topology
interleave_at_2 = refl

get_topology_interleave_example : FullArray 4 (get_topology numa numa_interleave)
unfolding vmopsbench.Topology.read_masks
get_topology_interleave_example =
    get_topology_interleave numa 2 refl refl refl refl (omega arith) fair
  where
    fair : (m : ℕ) → m < 2 → length (node_cpus numa m 4 0) ≤ 2
    fair zero h = omega arith
    fair (suc zero) h = omega arith
    fair (suc (suc m)) h = absurd (omega (arith, h))

-- Three CPUs on the first of two nodes: the third one is written behind the array.
interleave_unbalanced :
    get_topology (record numa { is_set = λ node cpu. ltb cpu 3 && (node == 0) }) numa_interleave
    ≡ undefined
unfolding get_topology
interleave_unbalanced = refl
