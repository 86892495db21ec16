-- ===== src/Topology/Interleave.antt =====
-- The interleave policy stays within its array when no node has more than its share of the CPUs.
use vmopsbench.Common.{
  ℕ, zero, suc, ◌+◌, ◌*◌, ◌≤◌, ◌<◌, ◌≡◌, refl, sym, ap, ◌∙◌, Bool, true, false, if◌then◌else◌,
  lt→ltb, Option, some, none, List, ◌∷◌, length, length-replicate, length-set, replicate, set,
  arith, if_true,
}
use mathlib.Core.Path.{subst}
use vmopsbench.Platform.{numa_interleave}
use vmopsbench.Topology.{
  Numa, Cells, put_if, interleave_node, interleave_nodes, order_cores, to_topology, with_masks,
  all_masks, cores, get_topology, read_masks, Topology,
}
use vmopsbench.Topology.Fill.{node_cpus}

mul_le : (a b n : ℕ) → a ≤ b → a * n ≤ b * n
mul_le a b n h = grind (arith, h)

-- An array of `cap` cells.
abbrev Whole : (cap : ℕ) → Option Cells → Type 0
Whole cap none = ⊥
Whole cap (some cids) = length cids ≡ cap

abbrev Within : (cap : ℕ) → Option (ℕ × Cells) → Type 0
Within cap none = ⊥
Within cap (some (k, cids)) = length cids ≡ cap

module _ (numa : Numa) (cap share : ℕ) (room : share * numa.nnodes ≤ cap) where
  interleave_node-Within :
      (node n c k : ℕ) (cids : Cells)
      → node < numa.nnodes
      → length cids ≡ cap
      → k + length (node_cpus numa node n c) ≤ share
      → Within cap (interleave_node numa node n c (k, cids))
  unfolding interleave_node
  interleave_node-Within node zero c k cids hn e h = e
  interleave_node-Within node (suc n) c k cids hn e h =
      by_bit (numa.is_set node c)
        (λ k' cids' e' h'. interleave_node-Within node n (c + 1) k' cids' hn e' h') h
    where
      rest : List ℕ
      rest = node_cpus numa node n (c + 1)

      go : Option (ℕ × Cells) → Option (ℕ × Cells)
      go o = elim o [ none ↦ none | some s' ↦ interleave_node numa node n (c + 1) s' ]

      i : ℕ
      i = node + k * numa.nnodes

      by_bit :
          (b : Bool)
          → ((k' : ℕ) (cids' : Cells)
              → length cids' ≡ cap
              → k' + length rest ≤ share
              → Within cap (interleave_node numa node n (c + 1) (k', cids')))
          → k + length (if b then c ∷ rest else rest) ≤ share
          → Within cap (go (put_if b i c (k, cids)))
      by_bit false ih h' = ih k cids e h'
      by_bit true ih h' =
          subst
            (λ (o : Option Cells).
              Within cap (go (elim o [ none ↦ none | some cids' ↦ some (k + 1, cids') ])))
            (sym (
              if_true _ _ (
                lt→ltb i (length cids) (
                  omega
                    (arith, hn, e, room, mul_le (k + 1) share numa.nnodes (omega (arith, h')))))))
            (ih (k + 1) (set cids i (some c)) (length-set cids i (some c) ∙ e) (omega (arith, h')))

  interleave_nodes-Whole :
      (n node : ℕ) (cids : Cells)
      → node + n ≡ numa.nnodes
      → length cids ≡ cap
      → ((m : ℕ) → m < numa.nnodes → length (node_cpus numa m numa.nproc 0) ≤ share)
      → Whole cap (interleave_nodes numa n node cids)
  unfolding interleave_nodes
  interleave_nodes-Whole zero node cids hn e fair = e
  interleave_nodes-Whole (suc n) node cids hn e fair =
      by_node (interleave_node numa node numa.nproc 0 (0, cids))
        (λ cids' e'. interleave_nodes-Whole n (node + 1) cids' (omega (arith, hn)) e' fair)
        (interleave_node-Within node numa.nproc 0 0 cids (omega (arith, hn)) e
          (omega (arith, fair node (omega (arith, hn)))))
    where
      by_node :
          (o : Option (ℕ × Cells))
          → ((cids' : Cells)
              → length cids' ≡ cap
              → Whole cap (interleave_nodes numa n (node + 1) cids'))
          → Within cap o
          → Whole cap
              (elim o [ none ↦ none | some (k, cids') ↦ interleave_nodes numa n (node + 1) cids' ])
      by_node none ih w = absurd w
      by_node (some (k, cids')) ih w = ih cids' w

-- An array of cores with a cell for each processor that is reported.
abbrev pub FullArray : (n : ℕ) → Topology → Type 0
FullArray n (cores cids m) = (length cids ≡ n) × (m ≡ n)
FullArray n _ = ⊥

to_topology-FullArray : (n : ℕ) (o : Option Cells) → Whole n o → FullArray n (to_topology n o)
to_topology-FullArray n none w = w
to_topology-FullArray n (some cids) w = (w, refl)

-- With NUMA, memory, and masks that can be read: if every node has at most `share` CPUs, and the
-- processors that libnuma reports suffice for that share of every node, the interleave policy never
-- writes out of the bounds of its array, and returns it with a cell for each processor.
pub get_topology_interleave :
    (numa : Numa) (share : ℕ)
    → numa.available ≡ true
    → numa.nodes_mem ≡ true
    → numa.cids_mem ≡ true
    → read_masks numa numa.nnodes 0 ≡ all_masks
    → share * numa.nnodes ≤ numa.nproc
    → ((m : ℕ) → m < numa.nnodes → length (node_cpus numa m numa.nproc 0) ≤ share)
    → FullArray numa.nproc (get_topology numa numa_interleave)
unfolding get_topology with_masks order_cores
get_topology_interleave numa share available nodes cids masks room fair =
    subst (FullArray numa.nproc) (sym steps) (
      to_topology-FullArray numa.nproc
        (interleave_nodes numa numa.nnodes 0 (replicate numa.nproc none))
        (interleave_nodes-Whole numa numa.nproc share room numa.nnodes 0 (replicate numa.nproc none)
          (omega arith) (length-replicate {A = Option ℕ} numa.nproc none) fair))
  where
    with_array : Cells → Topology
    with_array a = to_topology numa.nproc (interleave_nodes numa numa.nnodes 0 a)

    steps : get_topology numa numa_interleave ≡ with_array (replicate numa.nproc none)
    steps =
        if_true _ _ available
        ∙ if_true _ _ nodes
        ∙ ap (with_masks numa numa_interleave) masks
        ∙ ap (λ n. with_array (replicate n none)) (if_true _ _ cids)
