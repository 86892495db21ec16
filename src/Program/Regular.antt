-- ===== src/Program/Regular.antt =====
-- src/platform/linux.c, plat_get_topology: when its array has the length that it reports.
use vmopsbench.Common.{
  ℕ, zero, suc, ◌+◌, ◌-◌, ◌*◌, ◌≤◌, ◌<◌, ◌≡◌, sym, ◌∙◌, ◌⊎◌, inl, inr, true, false, if_true,
  if_false, lt→ltb, Option, some, none, map, length, length-append, length-replicate, length-set,
  replicate, set, arith, if_rule,
}
use mathlib.Core.Path.{subst}
use vmopsbench.Platform.{NumaPolicy, numa_fill, numa_interleave}
use vmopsbench.Topology.{
  Numa, Cells, Topology, cores, refused, undefined, number_cells, to_topology, no_numa, all_masks,
  read_masks, get_topology,
}
use vmopsbench.Topology.Fill.{node_cpus, all_cpus, map-length, get_topology_fill}
use vmopsbench.Topology.Interleave.{FullArray, get_topology_interleave}
use vmopsbench.Settings.Selection.{IsSized}

-- What libnuma reports of the machine: no NUMA and some processors; or nodes that can be read, with
-- memory for the result, no more CPUs in all than processors, and a share of them that no node
-- exceeds.
abbrev pub IsRegular : Numa → Type 0
IsRegular numa =
    ((numa.available ≡ false) × (0 < numa.nprocs))
    ⊎ ((numa.available ≡ true)
        × (numa.nodes_mem ≡ true)
        × (numa.cids_mem ≡ true)
        × (read_masks numa numa.nnodes 0 ≡ all_masks)
        × (0 < numa.nproc)
        × (length (all_cpus numa numa.nnodes 0) ≤ numa.nproc)
        × ((share : ℕ) × (share * numa.nnodes ≤ numa.nproc)
            × ((m : ℕ) → m < numa.nnodes → length (node_cpus numa m numa.nproc 0) ≤ share)))

abbrev Numbered : (cap : ℕ) → Option Cells → Type 0
Numbered cap none = ⊥
Numbered cap (some cids) = length cids ≡ cap

number_cells-Numbered :
    (cap n i : ℕ) (cids : Cells)
    → length cids ≡ cap
    → i + n ≤ cap
    → Numbered cap (number_cells n i cids)
unfolding number_cells
number_cells-Numbered cap zero i cids e h = e
number_cells-Numbered cap (suc n) i cids e h =
    subst
      (λ (o : Option Cells).
        Numbered cap (elim o [ none ↦ none | some cids' ↦ number_cells n (i + 1) cids' ]))
      (sym (if_true _ _ (lt→ltb i (length cids) (omega (arith, h, e)))))
      (number_cells-Numbered cap n (i + 1) (set cids i (some i)) (length-set cids i (some i) ∙ e)
        (omega (arith, h)))

to_topology-IsSized : (n : ℕ) (o : Option Cells) → 0 < n → Numbered n o → IsSized (to_topology n o)
to_topology-IsSized n none p h = h
to_topology-IsSized n (some cids) p h = (p, h)

no_numa-IsSized : (numa : Numa) → 0 < numa.nprocs → IsSized (no_numa numa)
unfolding no_numa
no_numa-IsSized numa p =
    if_rule IsSized numa.cids_mem
      (to_topology-IsSized numa.nprocs (number_cells numa.nprocs 0 (replicate numa.nprocs none)) p (
        number_cells-Numbered numa.nprocs numa.nprocs 0 (replicate numa.nprocs none)
          (length-replicate {A = Option ℕ} numa.nprocs none) (omega arith)))
      tt

FullArray-IsSized : (n : ℕ) (r : Topology) → 0 < n → FullArray n r → IsSized r
FullArray-IsSized n (cores cids m) p (e, z) = (omega (arith, p, z), omega (arith, e, z))
FullArray-IsSized n (refused e) p h = tt
FullArray-IsSized n undefined p h = h

-- On a regular machine the array has the reported length under both policies.
pub get_topology-IsSized :
    (numa : Numa) → IsRegular numa → (policy : NumaPolicy) → IsSized (get_topology numa policy)
unfolding get_topology
get_topology-IsSized numa (inl (e, p)) policy =
    subst IsSized (sym (if_false _ _ e)) (no_numa-IsSized numa p)
get_topology-IsSized numa (inr (a, n, c, m, p, few, _)) numa_fill =
    let cpus = all_cpus numa numa.nnodes 0 in
    subst IsSized (sym (get_topology_fill numa a n c m few)) (
      p,
      length-append (map some cpus) (replicate (numa.nproc - length cpus) none)
          ∙ omega (
            arith,
            few,
            map-length cpus,
            length-replicate {A = Option ℕ} (numa.nproc - length cpus) none,
          ),
    )
get_topology-IsSized numa (inr (a, n, c, m, p, few, (share, room, fair))) numa_interleave =
    FullArray-IsSized numa.nproc (get_topology numa numa_interleave) p
      (get_topology_interleave numa share a n c m room fair)
