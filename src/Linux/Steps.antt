-- ===== src/Linux/Steps.antt =====
-- src/platform/linux.c: each operation keeps the objects, their memory and their files in order.
use vmopsbench.Common.{
  ℕ, ◌+◌, ◌≡◌, refl, Bool, false, not, ◌==◌, Option, some, none, List, ◌∷◌, if_cases, if_rule,
  arith, length, find, remove, state_of, IfAny,
}
use vmopsbench.Platform.{PlatError, err_ok, Perm}
use vmopsbench.Linux.{
  Call, malloc, free, memfd_create, ftruncate, shm_unlink, mmap, mprotect, munmap, Event, Kernel,
  Memobj, Sys, ask, tell, plat_vm_create, plat_vm_destroy, plat_vm_map, map_object,
  map_object_fixed, plat_vm_map_fixed, plat_vm_protect, plat_vm_unmap, refuses, writable,
}
use vmopsbench.Linux.Objects.{FreshMalloc, Owned, Created, Destroyed, mallocs, frees}
use vmopsbench.Linux.Mapping.{
  FreshFile, Backed, tell-Backed, create-Behind, truncate-Behind, Behind-apart, Behind-remove,
  mmap-Backed, Fits, Harmless,
}

-- The memory of the objects is accounted for, and so are their files and the mappings.
abbrev pub Sound : Sys → Type 0
Sound s = Owned s × Backed s

module _ (kernel : Kernel) (fresh : FreshMalloc kernel) (new : FreshFile kernel) where
  pub create-Backed :
      (path : List ℕ) (size : ℕ) (huge : Bool) (s : Sys)
      → Backed s
      → Backed (plat_vm_create kernel path size huge s).1
  unfolding plat_vm_create
  create-Backed path size huge s h =
      let (m, s1) = ask kernel (malloc (16 + length path + 1)) s in
      let (f, s2) = ask kernel (memfd_create path huge) s1 in
      let (c, s3) = ask kernel (ftruncate f.value size) s2 in
      let P = λ (r : (PlatError × Option ℕ) × Sys). Backed r.1 in
      let b1 = tell-Backed kernel (malloc (16 + length path + 1)) s (λ _ _ _. refl) tt h in
      let fresh_file = new s1.trace path huge in
      let b2 : Backed s2 =
        (create-Behind kernel path size huge s1 fresh_file s1.live b1.0, (tt, b1.1)) in
      if_cases P (not m.ok) (λ e. b1)
        (λ e.
          if_cases P (not f.ok) (λ g. tell-Backed kernel (free m.value) s2 (λ _ _ _. refl) tt b2)
            (λ g.
              let apart =
                Behind-apart kernel f.value s1.trace (fresh_file (ground arith)) s1.live b1.0 in
              let b3 : Backed s3 =
                (truncate-Behind kernel f.value size s2 s2.live apart b2.0, (tt, b2.1)) in
              if_cases P (not c.ok)
                (λ k.
                  tell-Backed kernel (free m.value) (tell kernel (shm_unlink path) s3)
                    (λ _ _ _. refl) tt
                    (tell-Backed kernel (shm_unlink path) s3 (λ _ _ _. refl) tt b3))
                (λ k. ((ground arith, b3.0), b3.1))))

  pub Created-Owned :
      (path : List ℕ) (size : ℕ) (s : Sys) (r : (PlatError × Option ℕ) × Sys)
      → Created path size s r
      → Owned r.1
  Created-Owned path size s ((e, none), s') c = c.2
  Created-Owned path size s ((e, some h), s') c = c.4

  pub destroy-Backed :
      (p : ℕ) (s : Sys) → Backed s → IfAny Backed (state_of (plat_vm_destroy kernel p s))
  unfolding plat_vm_destroy
  destroy-Backed p s (b, f) = by_object (find p s.live)
    where
      by_object :
          (r : Option Memobj)
          → IfAny Backed (
              state_of (elim r [
                | none ↦ none
                | some o ↦ some (err_ok, tell kernel (free p) (record s { live = remove p s.live }))
              ]))
      by_object none = tt
      by_object (some o) =
          tell-Backed kernel (free p) (record s { live = remove p s.live }) (λ _ _ _. refl) tt
            (Behind-remove kernel p s.trace s.live b, f)

  pub Destroyed-Owned :
      (p : ℕ) (s : Sys) (r : Option (PlatError × Sys)) → Destroyed p s r → IfAny Owned (state_of r)
  Destroyed-Owned p s none d = tt
  Destroyed-Owned p s (some (e, s')) d = d.2

  -- A call that neither allocates nor frees.
  abbrev Still : Call → Type 0
  Still c =
      (t : List Event) (x : ℕ)
      → let t' = record { call = c; reply = kernel t c } ∷ t in
        (mallocs x t' ≡ mallocs x t) × (frees x t' ≡ frees x t)

  tell-Owned : (c : Call) (s : Sys) → Still c → Owned s → Owned (tell kernel c s)
  tell-Owned c s still owned x = omega (arith, owned x, still s.trace x)

  mmap-Sound :
      (fixed : Option ℕ) (p : ℕ) (o : Memobj) (size offset : ℕ) (huge : Bool) (s : Sys)
      → find p s.live ≡ some o
      → refuses o size offset ≡ false
      → Sound s
      → Sound (tell kernel (mmap fixed size huge o.fd offset) s)
  mmap-Sound fixed p o size offset huge s e r (w, b) = (
    tell-Owned (mmap fixed size huge o.fd offset) s (λ t x. (omega arith, omega arith)) w,
    mmap-Backed kernel fixed p o size offset huge s e r b,
  )

  pub map_any-Sound :
      (size p offset : ℕ) (huge : Bool) (s : Sys)
      → Sound s
      → IfAny Sound (state_of (plat_vm_map kernel size p offset huge s))
  unfolding plat_vm_map
  map_any-Sound size p offset huge s h = by_object (find p s.live) refl
    where
      by_object :
          (r : Option Memobj)
          → find p s.live ≡ r
          → IfAny Sound (
              state_of
                (elim r [ none ↦ none | some o ↦ some (map_object kernel o size offset huge s) ]))
      by_object none e = tt
      by_object (some o) e =
          let P = λ (r : (PlatError × Option ℕ) × Sys). Sound r.1 in
          let r = (ask kernel (mmap none size huge o.fd offset) s).0 in
          if_cases P (refuses o size offset) (λ _. h)
            (λ g.
              let done = mmap-Sound none p o size offset huge s e g h in if_rule P r.ok done done)

  pub map_at-Sound :
      (addr size p offset : ℕ) (huge : Bool) (s : Sys)
      → Sound s
      → IfAny Sound (state_of (plat_vm_map_fixed kernel addr size p offset huge s))
  unfolding plat_vm_map_fixed
  map_at-Sound addr size p offset huge s h = by_object (find p s.live) refl
    where
      by_object :
          (r : Option Memobj)
          → find p s.live ≡ r
          → IfAny Sound (
              state_of (elim r [
                | none ↦ none
                | some o ↦ some (map_object_fixed kernel addr o size offset huge s)
              ]))
      by_object none e = tt
      by_object (some o) e =
          let P = λ (r : PlatError × Sys). Sound r.1 in
          let r = (ask kernel (mmap (some addr) size huge o.fd offset) s).0 in
          if_cases P (refuses o size offset) (λ _. h)
            (λ g.
              let done = mmap-Sound (some addr) p o size offset huge s e g h in
              if_rule P (addr == 0) h
                (if_rule P (not r.ok) done (if_rule P (not (r.value == addr)) done done)))

  quiet-Sound :
      (c : Call) (s : Sys)
      → Harmless c
      → Fits c s.trace
      → Still c
      → Sound s
      → Sound (tell kernel c s)
  quiet-Sound c s harmless fits still (w, b) =
      (tell-Owned c s still w, tell-Backed kernel c s harmless fits b)

  pub protect-Sound :
      (addr size : ℕ) (perms : Perm) (s : Sys)
      → Sound s
      → Sound (plat_vm_protect kernel addr size perms s).1
  unfolding plat_vm_protect
  protect-Sound addr size perms s h =
      let c = mprotect addr size (writable kernel perms) in
      let done = quiet-Sound c s (λ _ _ _. refl) tt (λ t x. (omega arith, omega arith)) h in
      if_rule (λ (r : PlatError × Sys). Sound r.1) (ask kernel c s).0.ok done done

  pub unmap-Sound : (addr size : ℕ) (s : Sys) → Sound s → Sound (plat_vm_unmap kernel addr size s).1
  unfolding plat_vm_unmap
  unmap-Sound addr size s h =
      let c = munmap addr size in
      let done = quiet-Sound c s (λ _ _ _. refl) tt (λ t x. (omega arith, omega arith)) h in
      if_rule (λ (r : PlatError × Sys). Sound r.1) (ask kernel c s).0.ok done done
