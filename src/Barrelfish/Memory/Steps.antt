-- ===== src/Barrelfish/Memory/Steps.antt =====
-- src/platform/barrelfish.c: what each operation does to memory, frames and regions.
use vmopsbench.Common.{
  ℕ, ◌+◌, ◌≡◌, refl, sym, Bool, ◌&&◌, not, ◌==◌, Option, some, none, List, [], ◌∷◌, if_cases,
  if_rule, arith, find, remove, held, held-remove, state_of, IfAny, one_if,
}
use mathlib.Core.Path.{subst}
use vmopsbench.Platform.{err_ok, Perm}
use vmopsbench.Barrelfish.Regions.{Region, Pools, alloc_vregion}
use vmopsbench.Barrelfish.Regions.Ordered.{FreshBlocks, Ordered}
use vmopsbench.Barrelfish.Regions.Apart.{After, alloc_vregion-After}
use vmopsbench.Barrelfish.Memory.{
  Call, malloc, free, frame_alloc, frame_identify, destroy_frame, map_attr, map_fixed, change_flags,
  vspace_unmap, Reply, Event, System, Memobj, Sys, Result, result, ask, tell, refuses,
  plat_vm_create, drop_slot, plat_vm_destroy, map_object, plat_vm_map, map_with, map_object_fixed,
  plat_vm_map_fixed, writable, plat_vm_protect, plat_vm_unmap,
}

abbrev is_malloc : (x : ℕ) → Call → Reply → ℕ
is_malloc x malloc r = one_if (r.ok && (r.value == x))
is_malloc x _ r = 0

abbrev is_free : (x : ℕ) → Call → ℕ
is_free x (free p) = one_if (p == x)
is_free x _ = 0

abbrev is_alloc : (x : ℕ) → Call → Reply → ℕ
is_alloc x (frame_alloc size) r = one_if (r.ok && (r.value == x))
is_alloc x _ r = 0

abbrev is_drop : (x : ℕ) → Call → ℕ
is_drop x (destroy_frame f) = one_if (f == x)
is_drop x _ = 0

-- How often malloc has returned the pointer `x`, and how often it was freed.
abbrev pub mallocs : (x : ℕ) → List Event → ℕ
mallocs x [] = 0
mallocs x (e ∷ t) = is_malloc x e.call e.reply + mallocs x t

abbrev pub frees : (x : ℕ) → List Event → ℕ
frees x [] = 0
frees x (e ∷ t) = is_free x e.call + frees x t

-- How often frame_alloc has returned the frame `x`, and how often it was destroyed.
abbrev pub allocs : (x : ℕ) → List Event → ℕ
allocs x [] = 0
allocs x (e ∷ t) = is_alloc x e.call e.reply + allocs x t

abbrev pub drops : (x : ℕ) → List Event → ℕ
drops x [] = 0
drops x (e ∷ t) = is_drop x e.call + drops x t

abbrev with_region : Call → List Region → List Region
with_region (map_fixed addr size slot large r) h = r ∷ h
with_region _ h = h

-- The regions of the fixed mappings, the latest first.
abbrev pub regions : List Event → List Region
regions [] = []
regions (e ∷ t) = with_region e.call (regions t)

-- Allocated is the memory of the objects, and no frame.
abbrev pub Balanced : Sys → Type 0
Balanced s =
    (x : ℕ)
    → (mallocs x s.trace ≡ frees x s.trace + held x s.live) × (allocs x s.trace ≡ drops x s.trace)

-- The regions of the mappings are those that the pools have handed out.
abbrev pub Sound : System → Sys → Type 0
Sound sys s = Balanced s × Ordered sys.blocks s.pools (regions s.trace)

module _ (sys : System) where
  pub create-Sound : (size : ℕ) (s : Sys) → Sound sys s → Sound sys (plat_vm_create sys size s).1
  unfolding plat_vm_create
  create-Sound size s (b, o) =
      let (m, s1) = ask sys malloc s in
      let (f, s2) = ask sys (frame_alloc size) s1 in
      let (i, s3) = ask sys (frame_identify f.value) s2 in
      let P = λ (r : (Result × Option ℕ) × Sys). Sound sys r.1 in
      if_cases P (not m.ok) (λ e. (λ x. ground (arith, b x), o))
        (λ e.
          if_cases P (not f.ok) (λ g. (λ x. ground (arith, b x), o))
            (λ g.
              if_cases P (not i.ok) (λ h. (λ x. ground (arith, b x), o))
                (λ h. (λ x. ground (arith, b x), o))))

  pub destroy-Sound :
      (p : ℕ) (s : Sys) → Sound sys s → IfAny (Sound sys) (state_of (plat_vm_destroy sys p s))
  unfolding plat_vm_destroy
  destroy-Sound p s (b, o) = by_object (find p s.live) refl
    where
      Q : Sys → Type 0
      Q s' = Sound sys (tell sys (free p) s')

      by_object :
          (r : Option Memobj)
          → find p s.live ≡ r
          → IfAny (Sound sys) (
              state_of (elim r [
                | none ↦ none
                | some o ↦ some (
                  result err_ok,
                  tell sys (free p) (drop_slot sys o (record s { live = remove p s.live })),
                )
              ]))
      by_object none e = tt
      by_object (some m) e =
          let k = λ (x : ℕ). held-remove p x s.live m e in
          if_rule (λ (s' : Sys). Sound sys (tell sys (free p) s')) (not (sys.is_null m.slot))
            (λ x. (omega (arith, b x, k x), omega (arith, b x)), o)
            (λ x. (omega (arith, b x, k x), omega (arith, b x)), o)

  -- A call that neither allocates, frees nor uses a region.
  abbrev Still : Call → Type 0
  Still c =
      (t : List Event) (r : Reply)
      → let t' = record { call = c; reply = r } ∷ t in
        ((x : ℕ)
          → (mallocs x t' ≡ mallocs x t)
            × (frees x t' ≡ frees x t)
            × (allocs x t' ≡ allocs x t)
            × (drops x t' ≡ drops x t))
        × (regions t' ≡ regions t)

  tell-Sound : (c : Call) (s : Sys) → Still c → Sound sys s → Sound sys (tell sys c s)
  tell-Sound c s still (b, o) =
      let (n, g) = still s.trace (sys.reply s.trace c) in
      (
        λ x. (omega (arith, b x, n x), omega (arith, b x, n x)),
        subst (Ordered sys.blocks s.pools) (sym g) o,
      )

  pub map_any-Sound :
      (size p offset : ℕ) (huge : Bool) (s : Sys)
      → Sound sys s
      → IfAny (Sound sys) (state_of (plat_vm_map sys size p offset huge s))
  unfolding plat_vm_map
  map_any-Sound size p offset huge s h = by_object (find p s.live)
    where
      by_object :
          (r : Option Memobj)
          → IfAny (Sound sys) (
              state_of
                (elim r [ none ↦ none | some o ↦ some (map_object sys o size offset huge s) ]))
      by_object none = tt
      by_object (some m) =
          let P = λ (r : (Result × Option ℕ) × Sys). Sound sys r.1 in
          let c = map_attr size m.slot huge in
          let done =
            tell-Sound c s
              (λ t r. (λ x. (omega arith, omega arith, omega arith, omega arith), refl)) h in
          if_rule P (refuses sys m size offset) h (if_rule P (ask sys c s).0.ok done done)

  mapped_with :
      (addr : ℕ) (m : Memobj) (size : ℕ) (huge : Bool) (s : Sys) (q : Option Region × Pools)
      → Balanced s
      → After sys.blocks (regions s.trace) q
      → Sound sys (map_with sys addr m size huge q s).1
  mapped_with addr m size huge s (none, pools) b a = (b, a)
  mapped_with addr m size huge s (some r, pools) b a =
      let c = map_fixed addr size m.slot huge r in
      let s1 = record s { pools = pools } in
      let done : Sound sys (tell sys c s1) = (λ x. (omega (arith, b x), omega (arith, b x)), a) in
      if_rule (λ (q : Result × Sys). Sound sys q.1) (ask sys c s1).0.ok done done

  pub map_at-Sound :
      (cid addr size p offset : ℕ) (huge : Bool) (s : Sys)
      → FreshBlocks sys.blocks
      → Sound sys s
      → IfAny (Sound sys) (state_of (plat_vm_map_fixed sys cid addr size p offset huge s))
  unfolding plat_vm_map_fixed
  map_at-Sound cid addr size p offset huge s fresh h = by_object (find p s.live)
    where
      by_object :
          (r : Option Memobj)
          → IfAny (Sound sys) (
              state_of (elim r [
                | none ↦ none
                | some o ↦ some (map_object_fixed sys cid addr o size offset huge s)
              ]))
      by_object none = tt
      by_object (some m) =
          let P = λ (r : Result × Sys). Sound sys r.1 in
          if_rule P (refuses sys m size offset) h (
            if_rule P (addr == 0) h (
              mapped_with addr m size huge s (alloc_vregion sys.blocks cid s.pools) h.0
                (alloc_vregion-After sys.blocks fresh (regions s.trace) cid s.pools h.1)))

  pub protect-Sound :
      (addr size : ℕ) (perms : Perm) (s : Sys)
      → Sound sys s
      → Sound sys (plat_vm_protect sys addr size perms s).1
  unfolding plat_vm_protect
  protect-Sound addr size perms s h =
      let c = change_flags addr size (writable sys perms) in
      let done =
        tell-Sound c s (λ t r. (λ x. (omega arith, omega arith, omega arith, omega arith), refl))
          h in
      if_rule (λ (r : Result × Sys). Sound sys r.1) (ask sys c s).0.ok done done

  pub unmap-Sound :
      (addr size : ℕ) (s : Sys) → Sound sys s → Sound sys (plat_vm_unmap sys addr size s).1
  unfolding plat_vm_unmap
  unmap-Sound addr size s h =
      let c = vspace_unmap addr in
      let done =
        tell-Sound c s (λ t r. (λ x. (omega arith, omega arith, omega arith, omega arith), refl))
          h in
      if_rule (λ (r : Result × Sys). Sound sys r.1) (ask sys c s).0.ok done done
