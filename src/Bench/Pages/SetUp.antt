-- ===== src/Bench/Pages/SetUp.antt =====
-- The set-up of the array of mappings.
use vmopsbench.Common.{
  ℕ, zero, suc, ◌+◌, ◌*◌, ◌%◌, ◌<◌, ◌≡◌, ◌≢◌, refl, sym, ap, ◌∙◌, Bool, true, false, if◌then◌else◌,
  List, [], ◌∷◌, ◌++◌, set, replicate, length, length-append, set-append, All, arith, if_cases,
}
use mathlib.Core.Path.{subst}
use vmopsbench.Config.{Cfg}
use vmopsbench.Platform.{base_page_size, u64_mod}
use vmopsbench.Bench.World.{Plat, Event, Worker, ask, vm_map, vm_map_fixed, is_ok, map_address}
use vmopsbench.Bench.Pages.{nmaps_of, set_up_fixed, set_up_any, set_up}
use vmopsbench.Bench.Pages.Cells.{
  NonNull, in_use, in_use-append, in_use-replicate, All-in_use, append-All, snoc-append,
}
use vmopsbench.Bench.Pages.Moved.{Moved, Moved-refl, Moved-trans}

-- The array holds a mapping in each cell; or the set-up has failed at cell `i`.
abbrev pub Ready : (v : Worker) (nmaps : ℕ) → Bool × List ℕ × Worker → Type 0
Ready v nmaps (true, addrs, w) =
    (length addrs ≡ nmaps) × All NonNull addrs × Moved v w nmaps 0 0 0 0 0 0
Ready v nmaps (false, addrs, w) =
    (i : ℕ) × (i < nmaps) × (in_use addrs ≡ i) × Moved v w i 0 0 0 1 0 0

-- The cells that are filled, before `n` that are not.
record Filled (v w : Worker) (k : List ℕ) (i n nmaps : ℕ) : Type 0 where
  size : length k ≡ i
  rest : i + n ≡ nmaps
  mapped : All NonNull k
  moved : Moved v w i 0 0 0 0 0 0

module _ (v : Worker) (nmaps : ℕ) where
  complete-Ready :
      (w : Worker) (k : List ℕ) (i : ℕ)
      → Filled v w k i 0 nmaps
      → Ready v nmaps (true, k ++ replicate 0 0, w)
  complete-Ready w k i f = (
    omega (arith, length-append k [], f.size, f.rest),
    append-All k [] f.mapped tt,
    subst (λ m. Moved v w m 0 0 0 0 0 0) (omega (arith, f.rest)) f.moved,
  )

  failed-Ready :
      (u w : Worker) (k : List ℕ) (i n : ℕ)
      → Filled v u k i (suc n) nmaps
      → Moved u w 0 0 0 0 1 0 0
      → Ready v nmaps (false, k ++ replicate (suc n) 0, w)
  failed-Ready u w k i n f m = (
    i,
    omega (arith, f.rest),
    omega (
      arith,
      in_use-append k (replicate (suc n) 0),
      in_use-replicate (suc n),
      All-in_use k f.mapped,
      f.size,
    ),
    subst (λ j. Moved v w j 0 0 0 1 0 0) (omega arith) (Moved-trans f.moved m),
  )

  next-Filled :
      (u w : Worker) (k : List ℕ) (i n a : ℕ)
      → Filled v u k i (suc n) nmaps
      → a ≢ 0
      → Moved u w 1 0 0 0 0 0 0
      → Filled v w (k ++ (a ∷ [])) (i + 1) n nmaps
  next-Filled u w k i n a f h m = record {
    size = omega (arith, length-append k (a ∷ []), f.size);
    rest = omega (arith, f.rest);
    mapped = append-All k (a ∷ []) f.mapped (h, tt);
    moved = Moved-trans f.moved m;
  }

  next-array :
      (k : List ℕ) (i n a : ℕ)
      → length k ≡ i
      → (k ++ (a ∷ [])) ++ replicate n 0 ≡ set (k ++ replicate (suc n) 0) i a
  next-array k i n a e =
      sym (snoc-append k (replicate n 0) a)
      ∙ sym (set-append k (replicate n 0) 0 a)
      ∙ ap (λ j. set (k ++ replicate (suc n) 0) j a) e

-- plat_vm_map never returns NULL with success.
abbrev pub MapsNonNull : Plat → Type 0
MapsNonNull plat =
    (t : List Event) (size memobj offset : ℕ) (huge : Bool)
    → let r = plat.reply t (vm_map size memobj offset huge) in is_ok r.err ≡ true → r.value ≢ 0

module _ (plat : Plat) (cfg : Cfg) (memobj tid : ℕ) (v : Worker) (nmaps : ℕ) where
  map-Moved :
      (size i : ℕ) (huge : Bool) (w : Worker) (b : Bool)
      → is_ok (ask plat (vm_map size memobj i huge) w).0.err ≡ b
      → Moved w
          (ask plat (vm_map size memobj i huge) w).1
          (if b then 1 else 0)
          0
          0
          0
          (if b then 0 else 1)
          0
          0
  map-Moved size i huge w b e = record {
    maps = rw e (omega arith);
    unmaps = omega arith;
    protects = ground arith;
    bars = omega arith;
    errors = rw e (omega arith);
    least = ground arith;
    most = ground arith;
    count = refl;
  }

  map_fixed-Moved :
      (addr size i : ℕ) (huge : Bool) (w : Worker) (b : Bool)
      → is_ok (ask plat (vm_map_fixed addr size memobj i huge) w).0.err ≡ b
      → Moved w
          (ask plat (vm_map_fixed addr size memobj i huge) w).1
          (if b then 1 else 0)
          0
          0
          0
          (if b then 0 else 1)
          0
          0
  map_fixed-Moved addr size i huge w b e = record {
    maps = rw e (omega arith);
    unmaps = omega arith;
    protects = ground arith;
    bars = omega arith;
    errors = rw e (omega arith);
    least = ground arith;
    most = ground arith;
    count = refl;
  }

  set_up_fixed-Ready :
      (n i addr : ℕ) (k : List ℕ) (w : Worker)
      → 0 < addr
      → addr + n * base_page_size < u64_mod
      → Filled v w k i n nmaps
      → Ready v nmaps (set_up_fixed plat cfg memobj tid n i addr (k ++ replicate n 0) w)
  unfolding set_up_fixed
  set_up_fixed-Ready zero i addr k w p h f = complete-Ready v nmaps w k i f
  set_up_fixed-Ready (suc n) i addr k w p h f =
      let (r, w') =
        ask plat (vm_map_fixed addr base_page_size memobj (i * base_page_size) cfg.maphuge) w in
      if_cases (Ready v nmaps) (is_ok r.err)
        (λ e.
          subst
            (λ a. Ready v nmaps (
              set_up_fixed plat cfg memobj tid n (i + 1) a (set (k ++ replicate (suc n) 0) i addr)
                w'))
            (sym no_wrap)
            (subst
              (λ l.
                Ready v nmaps
                  (set_up_fixed plat cfg memobj tid n (i + 1) (addr + base_page_size) l w'))
              (next-array v nmaps k i n addr f.size)
              (set_up_fixed-Ready n (i + 1) (addr + base_page_size) (k ++ (addr ∷ [])) w'
                (omega (arith, p)) (omega (arith, h))
                (next-Filled v nmaps w w' k i n addr f (λ z. omega (arith, p, z))
                  (map_fixed-Moved addr base_page_size (i * base_page_size) cfg.maphuge w true
                    e)))))
        (λ e.
          failed-Ready v nmaps w w' k i n f
            (map_fixed-Moved addr base_page_size (i * base_page_size) cfg.maphuge w false e))
    where
      no_wrap : (addr + base_page_size) % u64_mod ≡ addr + base_page_size
      no_wrap = omega (arith, h)

  set_up_any-Ready :
      MapsNonNull plat
      → (n i : ℕ) (k : List ℕ) (w : Worker) → Filled v w k i n nmaps
      → Ready v nmaps (set_up_any plat cfg memobj tid n i (k ++ replicate n 0) w)
  unfolding set_up_any
  set_up_any-Ready non_null zero i k w f = complete-Ready v nmaps w k i f
  set_up_any-Ready non_null (suc n) i k w f =
      let (r, w') = ask plat (vm_map base_page_size memobj (i * base_page_size) cfg.maphuge) w in
      if_cases (Ready v nmaps) (is_ok r.err)
        (λ e.
          subst (λ l. Ready v nmaps (set_up_any plat cfg memobj tid n (i + 1) l w'))
            (next-array v nmaps k i n r.value f.size)
            (set_up_any-Ready non_null n (i + 1) (k ++ (r.value ∷ [])) w' (
              next-Filled v nmaps w w' k i n r.value f (non_null _ _ _ _ _ e)
                (map-Moved base_page_size (i * base_page_size) cfg.maphuge w true e))))
        (λ e.
          failed-Ready v nmaps w w' k i n f
            (map-Moved base_page_size (i * base_page_size) cfg.maphuge w false e))

-- The set-up of a thread below 2^24 whose memory is smaller than 2^62.
pub set_up-Ready :
    (plat : Plat) (cfg : Cfg) (memobj tid : ℕ) (v : Worker)
    → MapsNonNull plat
    → tid < 16777216
    → cfg.memsize < 4611686018427387904
    → Ready v (nmaps_of cfg) (set_up plat cfg memobj tid v)
unfolding set_up map_address
set_up-Ready plat cfg memobj tid v non_null ht hs =
    let n = nmaps_of cfg in
    let f : Filled v v [] 0 n n = record {
      size = refl;
      rest = omega arith;
      mapped = tt;
      moved = Moved-refl v;
    } in
    if_cases (Ready v n) cfg.isolated
      (λ e.
        set_up_fixed-Ready plat cfg memobj tid v n n 0 (map_address tid) [] v (omega (arith, ht))
          (omega (arith, ht, hs)) f)
      (λ e. set_up_any-Ready plat cfg memobj tid v n non_null n 0 [] v f)
