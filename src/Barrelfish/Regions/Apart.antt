-- ===== src/Barrelfish/Regions/Apart.antt =====
-- src/platform/barrelfish.c, alloc_vregion: no region is handed out twice.
use vmopsbench.Common.{
  ℕ, ◌+◌, ◌<◌, ◌≡◌, refl, ap, ◌∙◌, inl, inr, Option, some, none, List, [], ◌∷◌, arith, All,
}
use vmopsbench.Barrelfish.Regions.{
  Region, Pools, with_block, from_buf, from_list, alloc_vregion, no_regions, push, alloc_all,
  num_vregion_buf,
}
use vmopsbench.Barrelfish.Regions.Ordered.{
  In, Distinct, FreshBlocks, Given, Ordered, Free, ask-Ordered, take_first-Ordered,
}

module _ (malloc : ℕ → Option ℕ) where
  abbrev pub After : List Region → Option Region × Pools → Type 0
  After h (r, s) = Ordered malloc s (push r h)

  module _ (fresh : FreshBlocks malloc) (h : List Region) (cid : ℕ) where
    -- A region of a block that was just given.
    new-Free :
        (s : Pools) (b : ℕ)
        → Ordered malloc s h
        → malloc s.asked ≡ some b
        → Free malloc (record s { asked = s.asked + 1 }) h cid (record { block = b; index = 0 })
    new-Free s b o e = record {
      free_given = (s.asked, omega arith, e);
      free_bounded = omega arith;
      behind = λ x i z. absurd (not_given x.block (o.given x i) z);
      sole = λ c q _ k z. not_given q.block (o.ahead_given c q k) z;
    }
      where
        not_given : (b' : ℕ) → Given malloc s.asked b' → b' ≡ b → ⊥
        not_given b' (i, l, g) z =
            omega (arith, l, fresh i s.asked b (g ∙ ap (λ (k : ℕ). some k) z) e)

    with_block-After :
        (s : Pools) (m : Option ℕ)
        → malloc s.asked ≡ m
        → Ordered malloc s h
        → After h (with_block cid m (record s { asked = s.asked + 1 }))
    with_block-After s none e o = ask-Ordered malloc s h o
    with_block-After s (some b) e o =
        take_first-Ordered malloc (record s { asked = s.asked + 1 }) h cid
          (record { block = b; index = 0 }) (ask-Ordered malloc s h o) (new-Free s b o e)

    from_buf-After :
        (s : Pools) (b : Option Region)
        → (s.pool cid).buf ≡ b
        → Ordered malloc s h
        → After h (from_buf malloc cid b s)
    from_buf-After s none e o = with_block-After s (malloc s.asked) refl o
    from_buf-After s (some r) e o = take_first-Ordered malloc s h cid r o (record {
      free_given = o.ahead_given cid r e;
      free_bounded = o.ahead_bounded cid r e;
      behind = o.ahead cid r e;
      sole = λ c q n k z. n (o.own c cid q r k e z);
    })

    from_list-After :
        (s : Pools) (l : List Region)
        → (s.pool cid).free_list ≡ l
        → Ordered malloc s h
        → After h (from_list malloc cid (s.pool cid) l s)
    from_list-After s [] e o = from_buf-After s (s.pool cid).buf refl o
    from_list-After s (r ∷ rest) e o = absurd (cc (o.empty cid))

    pub alloc_vregion-After :
        (s : Pools) → Ordered malloc s h → After h (alloc_vregion malloc cid s)
    unfolding alloc_vregion
    alloc_vregion-After s o = from_list-After s (s.pool cid).free_list refl o

  alloc_all-Ordered :
      (cids : List ℕ) (s : Pools) (h : List Region)
      → FreshBlocks malloc
      → Ordered malloc s h
      → let (h', s') = alloc_all malloc cids s h in Ordered malloc s' h'
  unfolding alloc_all
  alloc_all-Ordered [] s h fresh o = o
  alloc_all-Ordered (cid ∷ cids) s h fresh o =
      let (r, s') = alloc_vregion malloc cid s in
      alloc_all-Ordered cids s' (push r h) fresh (alloc_vregion-After fresh h cid s o)

pub no_regions-Ordered : (malloc : ℕ → Option ℕ) → Ordered malloc no_regions []
no_regions-Ordered malloc = record {
  given = λ r i. absurd i;
  bounded = λ r i. absurd i;
  empty = λ c. refl;
  ahead_given = λ c q e. absurd (cc);
  ahead_bounded = λ c q e. absurd (cc);
  ahead = λ c q e. absurd (cc);
  own = λ c d q q' e e'. absurd (cc);
  distinct = tt;
}

In-All : (P : Region → Type 0) (h : List Region) → ((r : Region) → In r h → P r) → All P h
In-All P [] f = tt
In-All P (x ∷ h) f = (f x (inl refl), In-All P h (λ r i. f r (inr i)))

-- However the cores take turns, when malloc gives no block twice: the regions that alloc_vregion hands
-- out are all different, on all cores together, and each lies within a block that malloc has given.
pub alloc_all-Distinct :
    (malloc : ℕ → Option ℕ) (cids : List ℕ)
    → FreshBlocks malloc
    → let h = (alloc_all malloc cids no_regions []).0 in
      Distinct h
      × All (λ (r : Region). (r.index < num_vregion_buf) × ((i : ℕ) × (malloc i ≡ some r.block))) h
alloc_all-Distinct malloc cids fresh =
    let (h, s) = alloc_all malloc cids no_regions [] in
    let o = alloc_all-Ordered malloc cids no_regions [] fresh (no_regions-Ordered malloc) in
    (
      o.distinct,
      In-All (λ (r : Region). (r.index < num_vregion_buf) × ((i : ℕ) × (malloc i ≡ some r.block))) h
          (λ r i. let (k, _, e) = o.given r i in (o.bounded r i, (k, e))),
    )
