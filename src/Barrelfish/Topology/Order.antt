-- ===== src/Barrelfish/Topology/Order.antt =====
-- src/platform/barrelfish.c, plat_get_topology: the order of the CPUs.
use vmopsbench.Common.{
  ℕ, zero, suc, ◌+◌, ◌-◌, ◌%◌, ◌≤◌, ◌<◌, ◌≡◌, refl, sym, ap, ◌∙◌, true, not, Option, some, none,
  List, [], ◌∷◌, ◌++◌, map, length, length-append, replicate, set, set-append, arith, if_true,
  if_false, lt→ltb,
}
use vmopsbench.Platform.{u32_mod}
use vmopsbench.Topology.{Numa, Cells}
use vmopsbench.Topology.Fill.{
  node_cpus, map-length, map-append, append_assoc, append_nil, layout, layout-write,
}
use vmopsbench.Barrelfish.Topology.{
  Skb, CoreList, cores, number_up, place_zero, place_last, no_numa, undefined,
}

-- `n` numbers from `i` on
abbrev pub count_up : (n i : ℕ) → List ℕ
count_up zero i = []
count_up (suc n) i = i ∷ count_up n (i + 1)

length-count_up : (n i : ℕ) → length (count_up n i) ≡ n
length-count_up zero i = refl
length-count_up (suc n) i = ap suc (length-count_up n (i + 1))

number_up-layout :
    (cap n : ℕ) (d : List ℕ)
    → length d + n ≤ cap
    → number_up n (length d) (layout cap d) ≡ some (layout cap (d ++ count_up n (length d + 1)))
unfolding number_up
number_up-layout cap zero d h = ap (λ l. some (layout cap l)) (sym (append_nil d))
number_up-layout cap (suc n) d h =
    let c = length d + 1 in
    let next : length (d ++ (c ∷ [])) ≡ length d + 1 = omega (arith, length-append d (c ∷ [])) in
    ap
      (λ (o : Option Cells). elim o [ none ↦ none | some cids' ↦ number_up n (length d + 1) cids' ])
      (layout-write cap c d (omega (arith, h)))
    ∙ ap (λ i. number_up n i (layout cap (d ++ (c ∷ [])))) (sym next)
    ∙ number_up-layout cap n (d ++ (c ∷ [])) (omega (arith, h, next))
    ∙ ap (λ i. some (layout cap ((d ++ (c ∷ [])) ++ count_up n (i + 1)))) next
    ∙ ap (λ l. some (layout cap l)) (append_assoc d (c ∷ []) (count_up n (length d + 1 + 1)))

-- The last of the numbers.
count_up-last : (n i : ℕ) → count_up (suc n) i ≡ count_up n i ++ ((i + n) ∷ [])
count_up-last zero i = ap (λ k. k ∷ []) (omega arith)
count_up-last (suc n) i =
    ap (λ l. i ∷ l)
      (count_up-last n (i + 1) ∙ ap (λ k. count_up n (i + 1) ++ (k ∷ [])) (omega arith))

-- An array that is full.
full-layout : (n : ℕ) (d : List ℕ) → length d ≡ n → layout n d ≡ map some d
full-layout n d e = ap (λ k. map some d ++ replicate k none) none_left ∙ append_nil (map some d)
  where
    none_left : n - length d ≡ 0
    none_left = omega (arith, e)

-- The last cell of a full array is overwritten.
place_last-full :
    (m : ℕ) (d : List ℕ) (x : ℕ)
    → length d ≡ m
    → suc m < u32_mod
    → place_last (suc m) (some (map some (d ++ (x ∷ []))))
      ≡ cores (map some (d ++ (0 ∷ []))) (suc m)
place_last-full m d x e h =
    ap (λ k. place_zero (suc m) k (map some (d ++ (x ∷ [])))) index
    ∙ ap stored
        (if_true _ _ (lt→ltb (length d) (length (map some (d ++ (x ∷ [])))) (omega (arith, size))))
    ∙ ap (λ l. cores l (suc m)) rewritten
  where
    stored : Option Cells → CoreList
    stored o = elim o [ none ↦ undefined | some cids' ↦ cores cids' (suc m) ]

    index : (suc m + u32_mod - 1) % u32_mod ≡ length d
    index = omega (arith, e, h)

    size : length (map some (d ++ (x ∷ []))) ≡ length d + 1
    size = map-length (d ++ (x ∷ [])) ∙ length-append d (x ∷ []) ∙ omega arith

    rewritten : set (map some (d ++ (x ∷ []))) (length d) (some 0) ≡ map some (d ++ (0 ∷ []))
    rewritten =
        ap (λ l. set l (length d) (some 0)) (map-append d (x ∷ []))
        ∙ ap (λ i. set (map some d ++ (some x ∷ [])) i (some 0)) (sym (map-length d))
        ∙ set-append (map some d) [] (some x) (some 0)
        ∙ sym (map-append d (0 ∷ []))

fallback_order :
    (m : ℕ)
    → suc m < u32_mod
    → place_last (suc m) (number_up (suc m) 0 (replicate (suc m) none))
      ≡ cores (map some (count_up m 1 ++ (0 ∷ []))) (suc m)
fallback_order m h =
    ap (λ k. place_last (suc m) (number_up (suc m) 0 (replicate k none))) whole
    ∙ ap (λ o. place_last (suc m) o) (number_up-layout (suc m) (suc m) [] (omega arith))
    ∙ ap (λ l. place_last (suc m) (some l))
        (full-layout (suc m) (count_up (suc m) 1) (length-count_up (suc m) 1)
          ∙ ap (map some) (count_up-last m 1))
    ∙ place_last-full m (count_up m 1) (1 + m) (length-count_up m 1) h
  where
    whole : suc m ≡ suc m - 0
    whole = omega arith

-- Without NUMA, when the knowledge base answers with one core or more, fewer than 2^32, and there is
-- memory: the cores are 1, 2 and so on, and core 0 last, each once, and as many as the answer says.
pub no_numa_order :
    (skb : Skb) (m : ℕ)
    → skb.queried ≡ true
    → skb.read ≡ true
    → skb.mem ≡ true
    → skb.ncid ≡ suc m
    → suc m < u32_mod
    → no_numa skb ≡ cores (map some (count_up m 1 ++ (0 ∷ []))) (suc m)
unfolding no_numa
no_numa_order skb m queried read mem n h =
    if_false _ _ (ap not queried)
    ∙ if_false _ _ (ap not read)
    ∙ if_false _ _ (ap not mem)
    ∙ ap (λ k. place_last k (number_up k 0 (replicate k none))) n
    ∙ fallback_order m h

-- The CPUs of `n` nodes from `node` on, without CPU 0.
abbrev pub other_cpus : Numa → (n node : ℕ) → List ℕ
other_cpus numa zero node = []
other_cpus numa (suc n) node =
    node_cpus numa node (numa.nproc - 1) 1 ++ other_cpus numa n (node + 1)
