-- ===== src/Topology/Fill.antt =====
-- The fill policy: the CPUs of the nodes, one node after the other.
use vmopsbench.Common.{
  ℕ, zero, suc, ◌+◌, ◌-◌, ◌≤◌, ◌<◌, ◌≡◌, refl, sym, ap, ◌∙◌, Bool, true, false, if◌then◌else◌,
  lt→ltb, Option, some, none, List, [], ◌∷◌, ◌++◌, map, length, length-append, length-replicate,
  replicate, set, set-append, arith, if_true,
}
use vmopsbench.Platform.{numa_fill}
use vmopsbench.Topology.{
  Numa, Cells, write, put_if, fill_node, fill_nodes, order_cores, cells_of, to_topology, with_masks,
  all_masks, cores, get_topology, read_masks, Topology,
}

-- The CPUs of a node from CPU `c` on, in their order.
abbrev pub node_cpus : Numa → (node n c : ℕ) → List ℕ
node_cpus numa node zero c = []
node_cpus numa node (suc n) c =
    let rest = node_cpus numa node n (c + 1) in if numa.is_set node c then c ∷ rest else rest

-- The CPUs of `n` nodes, from `node` on.
abbrev pub all_cpus : Numa → (n node : ℕ) → List ℕ
all_cpus numa zero node = []
all_cpus numa (suc n) node = node_cpus numa node numa.nproc 0 ++ all_cpus numa n (node + 1)

pub map-length : (l : List ℕ) → length (map some l) ≡ length l
map-length [] = refl
map-length (x ∷ l) = ap suc (map-length l)

pub map-append : (k l : List ℕ) → map some (k ++ l) ≡ map some k ++ map some l
map-append [] l = refl
map-append (x ∷ k) l = ap (λ t. some x ∷ t) (map-append k l)

pub append_assoc {ℓ} : {A : Type ℓ} (j k l : List A) → (j ++ k) ++ l ≡ j ++ (k ++ l)
append_assoc [] k l = refl
append_assoc (x ∷ j) k l = ap (λ t. x ∷ t) (append_assoc j k l)

pub append_nil {ℓ} : {A : Type ℓ} (l : List A) → l ++ [] ≡ l
append_nil [] = refl
append_nil (x ∷ l) = ap (λ t. x ∷ t) (append_nil l)

-- An array of `cap` cells, of which those of `d` are written.
abbrev pub layout : (cap : ℕ) → List ℕ → Cells
layout cap d = map some d ++ replicate (cap - length d) none

pub layout-write :
    (cap c : ℕ) (d : List ℕ)
    → length d < cap
    → write (layout cap d) (length d) c ≡ some (layout cap (d ++ (c ∷ [])))
layout-write cap c d h =
    if_true _ _ (lt→ltb (length d) (length (layout cap d)) (omega (arith, h, size)))
    ∙ ap some stored
  where
    room : cap - length d ≡ suc (cap - length (d ++ (c ∷ [])))
    room = omega (arith, h, length-append d (c ∷ []))

    size : length (layout cap d) ≡ length d + (cap - length d)
    size =
        length-append (map some d) (replicate (cap - length d) none)
        ∙ omega (arith, map-length d, length-replicate {A = Option ℕ} (cap - length d) none)

    rest : Cells
    rest = replicate (cap - length (d ++ (c ∷ []))) none

    stored : set (layout cap d) (length d) (some c) ≡ layout cap (d ++ (c ∷ []))
    stored =
        ap (λ n. set (map some d ++ replicate n none) (length d) (some c)) room
        ∙ ap (λ i. set (map some d ++ (none ∷ rest)) i (some c)) (sym (map-length d))
        ∙ set-append (map some d) rest none (some c)
        ∙ sym (
            ap (λ t. t ++ rest) (map-append d (c ∷ []))
            ∙ append_assoc (map some d) (some c ∷ []) rest)

-- cidx and the array after the CPUs `d`.
abbrev pub state : (cap : ℕ) → List ℕ → ℕ × Cells
state cap d = (length d, layout cap d)

abbrev pub next_node : (ℕ × Cells → Option (ℕ × Cells)) → Option (ℕ × Cells) → Option (ℕ × Cells)
next_node f none = none
next_node f (some s) = f s

module _ (numa : Numa) (cap : ℕ) where
  put_if-state :
      (c : ℕ) (d : List ℕ)
      → length d < cap
      → put_if true (length d) c (state cap d) ≡ some (state cap (d ++ (c ∷ [])))
  put_if-state c d h =
      ap (λ (o : Option Cells). elim o [ none ↦ none | some cids' ↦ some (length d + 1, cids') ])
        (layout-write cap c d h)
      ∙ ap (λ k. some (k, layout cap (d ++ (c ∷ [])))) (omega (arith, length-append d (c ∷ [])))

  pub fill_node-state :
      (node n c : ℕ) (d : List ℕ)
      → length d + length (node_cpus numa node n c) ≤ cap
      → fill_node numa node n c (state cap d) ≡ some (state cap (d ++ node_cpus numa node n c))
  unfolding fill_node
  fill_node-state node zero c d h = ap (λ l. some (state cap l)) (sym (append_nil d))
  fill_node-state node (suc n) c d h =
      by_bit (numa.is_set node c) (fill_node-state node n (c + 1)) h
    where
      rest : List ℕ
      rest = node_cpus numa node n (c + 1)

      go : Option (ℕ × Cells) → Option (ℕ × Cells)
      go o = elim o [ none ↦ none | some s' ↦ fill_node numa node n (c + 1) s' ]

      by_bit :
          (b : Bool)
          → ((d' : List ℕ)
              → length d' + length rest ≤ cap
              → fill_node numa node n (c + 1) (state cap d') ≡ some (state cap (d' ++ rest)))
          → length d + length (if b then c ∷ rest else rest) ≤ cap
          → go (put_if b (length d) c (state cap d))
            ≡ some (state cap (d ++ (if b then c ∷ rest else rest)))
      by_bit false ih k = ih d k
      by_bit true ih k =
          ap go (put_if-state c d (omega (arith, k)))
          ∙ ih (d ++ (c ∷ [])) (omega (arith, k, length-append d (c ∷ [])))
          ∙ ap (λ l. some (state cap l)) (append_assoc d (c ∷ []) rest)

  fill_nodes-state :
      (n node : ℕ) (d : List ℕ)
      → length d + length (all_cpus numa n node) ≤ cap
      → fill_nodes numa n node (state cap d) ≡ some (state cap (d ++ all_cpus numa n node))
  unfolding fill_nodes
  fill_nodes-state zero node d h = ap (λ l. some (state cap l)) (sym (append_nil d))
  fill_nodes-state (suc n) node d h =
      let l = node_cpus numa node numa.nproc 0 in
      let m = all_cpus numa n (node + 1) in
      let e = length-append l m in
      ap
        (λ (o : Option (ℕ × Cells)). elim o [
          | none ↦ none
          | some s' ↦ fill_nodes numa n (node + 1) s'
        ])
        (fill_node-state node numa.nproc 0 d (omega (arith, h, e)))
      ∙ fill_nodes-state n (node + 1) (d ++ l) (omega (arith, h, e, length-append d l))
      ∙ ap (λ k. some (state cap k)) (append_assoc d l m)

pub get_topology_fill :
    (numa : Numa)
    → numa.available ≡ true
    → numa.nodes_mem ≡ true
    → numa.cids_mem ≡ true
    → read_masks numa numa.nnodes 0 ≡ all_masks
    → length (all_cpus numa numa.nnodes 0) ≤ numa.nproc
    → let cpus = all_cpus numa numa.nnodes 0 in
      get_topology numa numa_fill
      ≡ cores (map some cpus ++ replicate (numa.nproc - length cpus) none) numa.nproc
unfolding get_topology with_masks order_cores
get_topology_fill numa available nodes cids masks few =
    if_true _ _ available
    ∙ if_true _ _ nodes
    ∙ ap (with_masks numa numa_fill) masks
    ∙ ap (λ n. with_array (replicate n none)) (if_true _ _ cids)
    ∙ ap (λ n. with_array (replicate n none)) whole
    ∙ ap (λ (o : Option (ℕ × Cells)). to_topology numa.nproc (cells_of numa o))
        (fill_nodes-state numa numa.nproc numa.nnodes 0 [] (omega (arith, few)))
  where
    whole : numa.nproc ≡ numa.nproc - 0
    whole = omega arith

    with_array : Cells → Topology
    with_array a = to_topology numa.nproc (cells_of numa (fill_nodes numa numa.nnodes 0 (0, a)))
