-- ===== src/Barrelfish/Regions/Ordered.antt =====
-- src/platform/barrelfish.c, alloc_vregion: what holds of the pools and the regions handed out.
use vmopsbench.Common.{
  ℕ, ◌+◌, ◌<◌, ◌≡◌, ◌≢◌, refl, sym, ap, ◌∙◌, ◌⊎◌, inl, inr, ◌==◌, ==_iff, Option, some, List, [],
  ◌∷◌, arith, Bool-cases, if_cases,
}
use mathlib.Core.Path.{subst}
use vmopsbench.Barrelfish.Regions.{Region, Pool, Pools, put, advance, take_first, num_vregion_buf}

abbrev pub In : Region → List Region → Type 0
In r [] = ⊥
In r (x ∷ h) = (r ≡ x) ⊎ In r h

abbrev pub Distinct : List Region → Type 0
Distinct [] = Unit
Distinct (x ∷ h) = (¬ In x h) × Distinct h

-- malloc gives no block twice.
abbrev pub FreshBlocks : (ℕ → Option ℕ) → Type 0
FreshBlocks malloc = (i j b : ℕ) → malloc i ≡ some b → malloc j ≡ some b → i ≡ j

module _ (malloc : ℕ → Option ℕ) where
  -- The block was given by one of the first `n` requests.
  abbrev pub Given : (n b : ℕ) → Type 0
  Given n b = (i : ℕ) × (i < n) × (malloc i ≡ some b)

  -- What the regions `h` that were handed out and the pools have to do with one another.
  pub record Ordered (s : Pools) (h : List Region) : Type 0 where
    pub given : (r : Region) → In r h → Given s.asked r.block
    pub bounded : (r : Region) → In r h → r.index < num_vregion_buf
    pub empty : (c : ℕ) → (s.pool c).free_list ≡ []
    pub ahead_given : (c : ℕ) (q : Region) → (s.pool c).buf ≡ some q → Given s.asked q.block
    pub ahead_bounded : (c : ℕ) (q : Region) → (s.pool c).buf ≡ some q → q.index < num_vregion_buf
    pub ahead :
        (c : ℕ) (q : Region)
        → (s.pool c).buf ≡ some q
        → (r : Region) → In r h
        → r.block ≡ q.block
        → r.index < q.index
    pub own :
        (c d : ℕ) (q q' : Region)
        → (s.pool c).buf ≡ some q
        → (s.pool d).buf ≡ some q'
        → q.block ≡ q'.block
        → c ≡ d
    pub distinct : Distinct h

advance_place :
    (r q : Region)
    → r.index < num_vregion_buf
    → advance r ≡ some q
    → (q.block ≡ r.block) × (q.index ≡ r.index + 1) × (q.index < num_vregion_buf)
advance_place r q h e = ground arith

-- A buffer after the pool of `cid` was replaced.
put_buf :
    (cid c : ℕ) (p : Pool) (pool : ℕ → Pool) (q : Region)
    → (put cid p pool c).buf ≡ some q
    → ((c ≡ cid) × (p.buf ≡ some q)) ⊎ ((c ≢ cid) × ((pool c).buf ≡ some q))
put_buf cid c p pool q e = elim (Bool-cases (cid == c)) [
  | inl same ↦ inl (sym ((==_iff cid c).0 same), cc)
  | inr other ↦ inr (λ k. cc ((==_iff cid c).1 (sym k)), cc)
]

module _ (malloc : ℕ → Option ℕ) where
  Given-suc : (n b : ℕ) → Given malloc n b → Given malloc (n + 1) b
  Given-suc n b (i, h, e) = (i, omega (arith, h), e)

  pub ask-Ordered :
      (s : Pools) (h : List Region)
      → Ordered malloc s h
      → Ordered malloc (record s { asked = s.asked + 1 }) h
  ask-Ordered s h o = record {
    given = λ r i. Given-suc s.asked r.block (o.given r i);
    bounded = o.bounded;
    empty = o.empty;
    ahead_given = λ c q e. Given-suc s.asked q.block (o.ahead_given c q e);
    ahead_bounded = o.ahead_bounded;
    ahead = o.ahead;
    own = o.own;
    distinct = o.distinct;
  }

  -- A place that was not handed out, in a block that no other core has.
  pub record Free (s : Pools) (h : List Region) (cid : ℕ) (r : Region) : Type 0 where
    pub free_given : Given malloc s.asked r.block
    pub free_bounded : r.index < num_vregion_buf
    pub behind : (x : Region) → In x h → x.block ≡ r.block → x.index < r.index
    pub sole : (c : ℕ) (q : Region) → c ≢ cid → (s.pool c).buf ≡ some q → q.block ≢ r.block

  module _ (s : Pools) (h : List Region) (cid : ℕ) (r : Region) (o : Ordered malloc s h)
      (f : Free s h cid r) where
    abbrev pub s' : Pools
    s' = (take_first cid r s).1

    -- Where a buffer now stands: behind the region, or where it stood, in another block.
    abbrev Stands : (c : ℕ) (q : Region) → Type 0
    Stands c q =
        ((c ≡ cid) × (q.block ≡ r.block) × (q.index ≡ r.index + 1) × (q.index < num_vregion_buf))
        ⊎ ((c ≢ cid) × ((s.pool c).buf ≡ some q) × (q.block ≢ r.block))

    stands : (c : ℕ) (q : Region) → (s'.pool c).buf ≡ some q → Stands c q
    stands c q e = elim (put_buf cid c (record { free_list = []; buf = advance r }) s.pool q e) [
      | inl (k, b) ↦ let a = advance_place r q f.free_bounded b in inl (k, a.0, a.1, a.2)
      | inr (k, b) ↦ inr (k, b, f.sole c q k b)
    ]

    take_given : (x : Region) → In x (r ∷ h) → Given malloc s.asked x.block
    take_given x (inl e) = subst (λ (y : Region). Given malloc s.asked y.block) (sym e) f.free_given
    take_given x (inr i) = o.given x i

    take_bounded : (x : Region) → In x (r ∷ h) → x.index < num_vregion_buf
    take_bounded x (inl e) = omega (arith, f.free_bounded, ap (λ (y : Region). y.index) e)
    take_bounded x (inr i) = o.bounded x i

    take_empty : (c : ℕ) → (s'.pool c).free_list ≡ []
    take_empty c = if_cases (λ (p : Pool). p.free_list ≡ []) (cid == c) (λ _. refl) (λ _. o.empty c)

    place_given : (c : ℕ) (q : Region) → Stands c q → Given malloc s.asked q.block
    place_given c q (inl (k, b, i, l)) = subst (Given malloc s.asked) (sym b) f.free_given
    place_given c q (inr (k, b, n)) = o.ahead_given c q b

    place_bounded : (c : ℕ) (q : Region) → Stands c q → q.index < num_vregion_buf
    place_bounded c q (inl (k, b, i, l)) = l
    place_bounded c q (inr (k, b, n)) = o.ahead_bounded c q b

    place_ahead :
        (c : ℕ) (q : Region)
        → Stands c q
        → (x : Region) → In x (r ∷ h)
        → x.block ≡ q.block
        → x.index < q.index
    place_ahead c q (inl (k, b, i, l)) x (inl e) z =
        omega (arith, i, ap (λ (y : Region). y.index) e)
    place_ahead c q (inl (k, b, i, l)) x (inr m) z = omega (arith, i, f.behind x m (z ∙ b))
    place_ahead c q (inr (k, b, n)) x (inl e) z =
        absurd (n (sym z ∙ ap (λ (y : Region). y.block) e))
    place_ahead c q (inr (k, b, n)) x (inr m) z = o.ahead c q b x m z

    place_own : (c d : ℕ) (q q' : Region) → Stands c q → Stands d q' → q.block ≡ q'.block → c ≡ d
    place_own c d q q' (inl (k, b, _, _)) (inl (k', b', _, _)) z = k ∙ sym k'
    place_own c d q q' (inl (k, b, _, _)) (inr (k', b', n)) z = absurd (n (sym z ∙ b))
    place_own c d q q' (inr (k, b, n)) (inl (k', b', _, _)) z = absurd (n (z ∙ b'))
    place_own c d q q' (inr (k, b, n)) (inr (k', b', n')) z = o.own c d q q' b b' z

    pub take_first-Ordered : Ordered malloc s' (r ∷ h)
    take_first-Ordered = record {
      given = take_given;
      bounded = take_bounded;
      empty = take_empty;
      ahead_given = λ c q e. place_given c q (stands c q e);
      ahead_bounded = λ c q e. place_bounded c q (stands c q e);
      ahead = λ c q e. place_ahead c q (stands c q e);
      own = λ c d q q' e e'. place_own c d q q' (stands c q e) (stands d q' e');
      distinct = (λ i. absurd (omega (arith, f.behind r i refl)), o.distinct);
    }
