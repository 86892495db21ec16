-- ===== src/Topology.antt =====
-- src/platform/linux.c: plat_get_topology, the order in which the CPUs of the NUMA nodes are used.
pub mod Fill
pub mod Interleave
mod Tests
use vmopsbench.Common.{
  ℕ, zero, suc, ◌+◌, ◌*◌, Bool, true, false, ◌&&◌, not, if◌then◌else◌, ltb, Option, some, none,
  List, [], ◌∷◌, length, replicate, set,
}
use vmopsbench.Platform.{PlatError, err_no_mem, NumaPolicy, numa_fill, numa_interleave}

-- An array from malloc: a cell that was never written is `none`.
abbrev pub Cells : Type 0
Cells = List (Option ℕ)

-- libnuma, the number of processors, and which allocations succeed.
pub record Numa : Type 0 where
  pub available : Bool
  pub nprocs : ℕ
  pub nproc : ℕ
  pub nnodes : ℕ
  pub is_set : (node cpu : ℕ) → Bool
  pub mask_allocated : (node : ℕ) → Bool
  pub cpus_read : (node : ℕ) → Bool
  pub nodes_mem : Bool
  pub cids_mem : Bool

-- The array and its length, an error, or undefined behaviour.
pub data Topology : Type 0 where
  cores : (cids : Cells) (ncoreids : ℕ) → Topology
  refused : PlatError → Topology
  undefined : Topology

-- cids[i] = c; `none` is a write out of bounds.
abbrev pub write : Cells → (i c : ℕ) → Option Cells
write cids i c = if ltb i (length cids) then some (set cids i (some c)) else none

-- if (bit) { cids[i] = c; cidx++; }, on cidx and the array
abbrev pub put_if : (bit : Bool) (i c : ℕ) → ℕ × Cells → Option (ℕ × Cells)
put_if bit i c (k, cids) =
    if bit
    then (elim (write cids i c) [ none ↦ none | some cids' ↦ some (k + 1, cids') ])
    else some (k, cids)

-- for (i = 0; i < ncid; i++) cids[i] = i, with `n` rounds left
unfoldable pub number_cells : (n i : ℕ) → Cells → Option Cells
number_cells zero i cids = some cids
number_cells (suc n) i cids = elim (write cids i i) [
  | none ↦ none
  | some cids' ↦ number_cells n (i + 1) cids'
]

abbrev pub to_topology : (n : ℕ) → Option Cells → Topology
to_topology n none = undefined
to_topology n (some cids) = cores cids n

-- get_topolocy_no_numa
unfoldable pub no_numa : Numa → Topology
unfolding number_cells
no_numa numa =
    if numa.cids_mem
    then to_topology numa.nprocs (number_cells numa.nprocs 0 (replicate numa.nprocs none))
    else refused err_no_mem

-- What the loop over the nodes finds: all masks, no memory, or a node that cannot be read.
pub data Masks : Type 0 where
  all_masks : Masks
  no_masks : Masks
  unreadable : (node : ℕ) → Masks

unfoldable pub read_masks : Numa → (n i : ℕ) → Masks
read_masks numa zero i = all_masks
read_masks numa (suc n) i =
    let rest = read_masks numa n (i + 1) in
    if not (numa.mask_allocated i)
    then no_masks
    else if numa.cpus_read i
    then rest
    else unreadable i

module _ (numa : Numa) where
  -- The CPUs of one node under the fill policy, `n` rounds left from CPU `c` on.
  unfoldable pub fill_node : (node n c : ℕ) → ℕ × Cells → Option (ℕ × Cells)
  fill_node node zero c s = some s
  fill_node node (suc n) c (k, cids) = elim (put_if (numa.is_set node c) k c (k, cids)) [
    | none ↦ none
    | some s' ↦ fill_node node n (c + 1) s'
  ]

  unfoldable pub fill_nodes : (n node : ℕ) → ℕ × Cells → Option (ℕ × Cells)
  unfolding fill_node
  fill_nodes zero node s = some s
  fill_nodes (suc n) node s = elim (fill_node node numa.nproc 0 s) [
    | none ↦ none
    | some s' ↦ fill_nodes n (node + 1) s'
  ]

  -- The CPUs of one node under the interleave policy: cids[n + cidx * nnodes].
  unfoldable pub interleave_node : (node n c : ℕ) → ℕ × Cells → Option (ℕ × Cells)
  interleave_node node zero c s = some s
  interleave_node node (suc n) c (k, cids) =
      elim (put_if (numa.is_set node c) (node + k * numa.nnodes) c (k, cids)) [
        | none ↦ none
        | some s' ↦ interleave_node node n (c + 1) s'
      ]

  unfoldable pub interleave_nodes : (n node : ℕ) → Cells → Option Cells
  unfolding interleave_node
  interleave_nodes zero node cids = some cids
  interleave_nodes (suc n) node cids = elim (interleave_node node numa.nproc 0 (0, cids)) [
    | none ↦ none
    | some (k, cids') ↦ interleave_nodes n (node + 1) cids'
  ]

  abbrev pub cells_of : Option (ℕ × Cells) → Option Cells
  cells_of none = none
  cells_of (some (k, cids)) = some cids

  unfoldable pub order_cores : NumaPolicy → Cells → Option Cells
  unfolding fill_nodes interleave_nodes
  order_cores numa_fill cids = cells_of (fill_nodes numa.nnodes 0 (0, cids))
  order_cores numa_interleave cids = interleave_nodes numa.nnodes 0 cids

  -- err_out_1 frees a mask for every node, also those that were not allocated yet.
  unfoldable pub with_masks : NumaPolicy → Masks → Topology
  unfolding order_cores no_numa
  with_masks policy all_masks =
      to_topology numa.nproc
        (order_cores policy (replicate (if numa.cids_mem then numa.nproc else 0) none))
  with_masks policy no_masks = refused err_no_mem
  with_masks policy (unreadable i) = if ltb (i + 1) numa.nnodes then undefined else no_numa numa

  -- plat_get_topology, on pointers that are not NULL; an array that could not be allocated has no cell.
  unfoldable pub get_topology : NumaPolicy → Topology
  unfolding with_masks read_masks
  get_topology policy =
      if numa.available
      then (if numa.nodes_mem
          then with_masks policy (read_masks numa numa.nnodes 0)
          else refused err_no_mem)
      else no_numa numa
