-- ===== src/Barrelfish/Topology.antt =====
-- src/platform/barrelfish.c: plat_get_topology, which puts CPU 0 behind the other CPUs.
pub mod Order
mod Tests
use vmopsbench.Common.{
  ℕ, zero, suc, ◌+◌, ◌-◌, ◌%◌, Bool, true, false, not, if◌then◌else◌, ltb, Option, some, none, List,
  replicate,
}
use vmopsbench.Platform.{
  PlatError, err_no_mem, err_init_failed, NumaPolicy, numa_fill, numa_interleave, u32_mod,
}
use vmopsbench.Topology.{
  Numa, Cells, write, Masks, all_masks, no_masks, unreadable, read_masks, fill_node,
  interleave_node,
}

-- What the system knowledge base answers, and whether there is memory for its cores.
pub record Skb : Type 0 where
  pub queried : Bool
  pub read : Bool
  pub ncid : ℕ
  pub mem : Bool

-- The array and its length, an error of the platform, an error of the system that is returned as it
-- is, or undefined behaviour.
pub data CoreList : Type 0 where
  cores : (cids : Cells) (ncoreids : ℕ) → CoreList
  refused : PlatError → CoreList
  system_error : CoreList
  undefined : CoreList

-- for (i = 0; i < ncid; i++) cids[i] = i + 1, with `n` rounds left
unfoldable pub number_up : (n i : ℕ) → Cells → Option Cells
number_up zero i cids = some cids
number_up (suc n) i cids = elim (write cids i (i + 1)) [
  | none ↦ none
  | some cids' ↦ number_up n (i + 1) cids'
]

-- The write of CPU 0 to a cell, and the return.
abbrev pub place_zero : (n k : ℕ) → Cells → CoreList
place_zero n k cids = elim (write cids k 0) [ none ↦ undefined | some cids' ↦ cores cids' n ]

abbrev pub place_last : (n : ℕ) → Option Cells → CoreList
place_last n none = undefined
place_last n (some cids) = place_zero n ((n + u32_mod - 1) % u32_mod) cids

-- get_topolocy_no_numa
unfoldable pub no_numa : Skb → CoreList
unfolding number_up
no_numa skb =
    if not skb.queried
    then refused err_init_failed
    else if not skb.read
    then system_error
    else if not skb.mem
    then refused err_no_mem
    else place_last skb.ncid (number_up skb.ncid 0 (replicate skb.ncid none))

module _ (numa : Numa) where
  -- for (c = 1; c < nproc; c++) for each of `n` nodes from `node` on, under the fill policy
  unfoldable pub fill_others : (n node : ℕ) → ℕ × Cells → Option (ℕ × Cells)
  unfolding fill_node
  fill_others zero node s = some s
  fill_others (suc n) node s = elim (fill_node numa node (numa.nproc - 1) 1 s) [
    | none ↦ none
    | some s' ↦ fill_others n (node + 1) s'
  ]

  -- The same under the interleave policy, where cidx begins at 0 for each node.
  unfoldable pub interleave_others : (n node : ℕ) → ℕ × Cells → Option (ℕ × Cells)
  unfolding interleave_node
  interleave_others zero node s = some s
  interleave_others (suc n) node (k, cids) =
      elim (interleave_node numa node (numa.nproc - 1) 1 (0, cids)) [
        | none ↦ none
        | some s' ↦ interleave_others n (node + 1) s'
      ]

  unfoldable pub order_others : NumaPolicy → Cells → Option (ℕ × Cells)
  unfolding fill_others interleave_others
  order_others numa_fill cids = fill_others numa.nnodes 0 (0, cids)
  order_others numa_interleave cids = interleave_others numa.nnodes 0 (0, cids)

  -- cids[cidx++] = 0, at the cidx that the loops have left
  abbrev pub zero_behind : Option (ℕ × Cells) → CoreList
  zero_behind none = undefined
  zero_behind (some (k, cids)) = place_zero numa.nproc k cids

  -- err_out_1 frees a mask for every node, also those that were not allocated yet.
  unfoldable pub with_masks : Skb → NumaPolicy → Masks → CoreList
  unfolding order_others no_numa
  with_masks skb policy all_masks =
      zero_behind (order_others policy (replicate (if numa.cids_mem then numa.nproc else 0) none))
  with_masks skb policy no_masks = refused err_no_mem
  with_masks skb policy (unreadable i) = if ltb (i + 1) numa.nnodes then undefined else no_numa skb

  -- plat_get_topology, on pointers that are not NULL
  unfoldable pub get_topology : Skb → NumaPolicy → CoreList
  unfolding with_masks read_masks no_numa
  get_topology skb policy =
      if numa.available
      then (if numa.nodes_mem
          then with_masks skb policy (read_masks numa numa.nnodes 0)
          else refused err_no_mem)
      else no_numa skb
