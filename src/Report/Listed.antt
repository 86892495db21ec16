-- ===== src/Report/Listed.antt =====
-- src/logging.h: the reads of cfg->coreslist by LOG_CSV and LOG_STATS stay within the array.
use vmopsbench.Common.{
  ℕ, zero, suc, ◌+◌, ◌-◌, ◌≤◌, ◌<◌, ◌≡◌, refl, ap, ◌∙◌, Bool, true, false, not, ◌&&◌, ◌||◌, ltb,
  Option, some, none, List, [], ◌∷◌, ◌++◌, All, arith, length, take, drop, map, replicate,
  get_elem?,
}
use vmopsbench.Platform.{u64_mod}
use vmopsbench.Config.{Cfg, CoreRead}
use vmopsbench.Args.{core_at}
use vmopsbench.Stats.{Statval, fresh}
use vmopsbench.Stats.Sampling.{run, pick, InTime, run-fresh}
use vmopsbench.Report.{Floats, is_shown, is_listed, all_listed}

module _ {A : Type 0} (P : A → Type 0) where
  take-All : (n : ℕ) (xs : List A) → All P xs → All P (take n xs)
  take-All zero xs h = tt
  take-All (suc n) [] h = tt
  take-All (suc n) (x ∷ xs) (h, hs) = (h, take-All n xs hs)

  drop-All : (n : ℕ) (xs : List A) → All P xs → All P (drop n xs)
  drop-All zero xs h = h
  drop-All (suc n) [] h = tt
  drop-All (suc n) (x ∷ xs) (h, hs) = drop-All n xs hs

pick-All :
    (P : Statval → Type 0) (delta next : ℕ) (cs : List Statval)
    → All P cs
    → All P (pick delta next cs)
unfolding pick
pick-All P delta next [] h = tt
pick-All P delta next (c ∷ cs) (h, hs) =
    by_test (ltb c.t_elapsed next) (pick-All P delta next cs hs)
      (pick-All P delta (c.t_elapsed + delta) cs hs)
  where
    by_test :
        (b : Bool)
        → All P (pick delta next cs)
        → All P (pick delta (c.t_elapsed + delta) cs)
        → All P
            (elim b [ true ↦ pick delta next cs | false ↦ c ∷ pick delta (c.t_elapsed + delta) cs ])
    by_test true k l = k
    by_test false k l = (h, l)

-- What a thread offers that knows its own number.
abbrev pub Within : Cfg → Statval → Type 0
Within cfg c = c.tid < cfg.corelist_size

pub kept-All :
    (cfg : Cfg) (n delta skip : ℕ) (cs : List Statval)
    → All (Within cfg) cs
    → All (Within cfg) (take n (pick delta 0 (drop skip cs)))
kept-All cfg n delta skip cs h =
    take-All (Within cfg) n (pick delta 0 (drop skip cs))
      (pick-All (Within cfg) delta 0 (drop skip cs) (drop-All (Within cfg) skip cs h))

-- The list of cores is an array of as many cells as there are threads.
pub record Listed (cfg : Cfg) : Type 0 where
  pub cells : List (Option ℕ)
  pub array : cfg.coreslist ≡ some cells
  pub long : cfg.corelist_size ≤ length cells

module _ (fl : Floats) (cfg : Cfg) where
  in_range :
      (l : List (Option ℕ)) (i : ℕ) → i < length l → (c : Option ℕ) × (get_elem? l i ≡ some c)
  in_range [] i h = absurd (omega (arith, h))
  in_range (x ∷ l) zero h = (x, refl)
  in_range (x ∷ l) (suc i) h = in_range l i (omega (arith, h))

  pub is_listed-Listed : Listed cfg → (i : ℕ) → i < cfg.corelist_size → is_listed fl cfg i ≡ true
  is_listed-Listed l i h =
      let (c, e) = in_range l.cells i (omega (arith, h, l.long)) in
      let cell : core_at cfg i ≡ some c =
        ap (λ (q : Option (List (Option ℕ))). elim q [ none ↦ none | some k ↦ get_elem? k i ])
          l.array
        ∙ e in
      ap (λ (q : CoreRead). elim q [ none ↦ false | some x ↦ true ]) cell

  pub all_listed-append :
      (xs ys : List (Option Statval))
      → all_listed fl cfg xs ≡ true
      → all_listed fl cfg ys ≡ true
      → all_listed fl cfg (xs ++ ys) ≡ true
  unfolding all_listed
  all_listed-append [] ys h k = k
  all_listed-append (none ∷ xs) ys h k = all_listed-append xs ys h k
  all_listed-append (some s ∷ xs) ys h k = ground (arith, h, all_listed-append xs ys, k)

  pub all_listed-replicate : (n : ℕ) → all_listed fl cfg (replicate n none) ≡ true
  unfolding all_listed
  all_listed-replicate zero = refl
  all_listed-replicate (suc n) = all_listed-replicate n

  pub all_listed-map :
      Listed cfg
      → (ss : List Statval) → All (Within cfg) ss
      → all_listed fl cfg (map some ss) ≡ true
  unfolding all_listed
  all_listed-map l [] h = refl
  all_listed-map l (s ∷ ss) (h, hs) =
      rw (is_listed-Listed l s.tid h, all_listed-map l ss hs) (or_true (not (is_shown fl cfg s)))
    where
      or_true : (b : Bool) → ((b || true) && true) ≡ true
      or_true true = refl
      or_true false = refl

  -- The cells of a thread after its calls.
  pub all_listed-values :
      (delta : ℕ) (calls : List Statval)
      → Listed cfg
      → cfg.stats < u64_mod
      → InTime delta calls
      → All (Within cfg) calls
      → all_listed fl cfg (run (fresh cfg.stats delta) calls).values ≡ true
  all_listed-values delta calls l small fits own =
      let k = take cfg.stats (pick delta 0 (drop 10 calls)) in
      let left = cfg.stats - length k in
      ap (all_listed fl cfg) (run-fresh cfg.stats delta calls small fits).0
      ∙ all_listed-append (map some k) (replicate left none)
          (all_listed-map l k (kept-All cfg cfg.stats delta 10 calls own))
          (all_listed-replicate left)
