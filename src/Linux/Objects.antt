-- ===== src/Linux/Objects.antt =====
-- src/platform/linux.c: the memory of the memory objects, from plat_vm_create to plat_vm_destroy.
use vmopsbench.Common.{
  ℕ, ◌+◌, ◌≡◌, ◌≢◌, refl, ◌⊎◌, inl, inr, Bool, true, ◌&&◌, not, ◌==◌, Option, some, none, List, [],
  ◌∷◌, if_cases, arith, length, find, remove, held, held-remove, one_if,
}
use vmopsbench.Platform.{PlatError, err_ok, err_no_mem, err_memobj_create}
use vmopsbench.Linux.{
  Call, malloc, free, memfd_create, ftruncate, Reply, Event, Kernel, Memobj, Sys, ask, tell,
  plat_vm_create, plat_vm_destroy,
}

abbrev is_malloc : (x : ℕ) → Call → Reply → ℕ
is_malloc x (malloc size) r = one_if (r.ok && (r.value == x))
is_malloc x _ r = 0

abbrev is_free : (x : ℕ) → Call → ℕ
is_free x (free p) = one_if (p == x)
is_free x _ = 0

-- How often malloc has returned the pointer `x`, and how often it was freed.
abbrev pub mallocs : (x : ℕ) → List Event → ℕ
mallocs x [] = 0
mallocs x (e ∷ t) = is_malloc x e.call e.reply + mallocs x t

abbrev pub frees : (x : ℕ) → List Event → ℕ
frees x [] = 0
frees x (e ∷ t) = is_free x e.call + frees x t

-- malloc returns no NULL, and no pointer that was not freed since it was last returned.
abbrev pub FreshMalloc : Kernel → Type 0
FreshMalloc kernel =
    (t : List Event) (size : ℕ)
    → let r = kernel t (malloc size) in
      r.ok ≡ true → (r.value ≢ 0) × (mallocs r.value t ≡ frees r.value t)

-- Exactly the memory of the objects is allocated.
abbrev pub Owned : Sys → Type 0
Owned s = (x : ℕ) → mallocs x s.trace ≡ frees x s.trace + held x s.live

-- What a creation leaves: on success one more object, of the size and the name that were asked for,
-- at a pointer that no object had; on failure the objects as they were.
abbrev pub Created : (path : List ℕ) (size : ℕ) → Sys → (PlatError × Option ℕ) × Sys → Type 0
Created path size s ((e, none), s') =
    ((e ≡ err_no_mem) ⊎ (e ≡ err_memobj_create)) × (s'.live ≡ s.live) × Owned s'
Created path size s ((e, some h), s') =
    (e ≡ err_ok)
    × (h ≢ 0)
    × (held h s.live ≡ 0)
    × ((fd : ℕ) × (s'.live ≡ (h, record { size = size; fd = fd; name = path }) ∷ s.live))
    × Owned s'

module _ (kernel : Kernel) (fresh : FreshMalloc kernel) where
  pub plat_vm_create-Created :
      (path : List ℕ) (size : ℕ) (huge : Bool) (s : Sys)
      → Owned s
      → Created path size s (plat_vm_create kernel path size huge s)
  unfolding plat_vm_create
  plat_vm_create-Created path size huge s owned =
      let (m, s1) = ask kernel (malloc (16 + length path + 1)) s in
      let (f, s2) = ask kernel (memfd_create path huge) s1 in
      let (c, s3) = ask kernel (ftruncate f.value size) s2 in
      if_cases (Created path size s) (not m.ok)
        (λ e. (inl refl, refl, λ x. ground (arith, owned x)))
        (λ e.
          if_cases (Created path size s) (not f.ok)
            (λ g. (inr refl, refl, λ x. ground (arith, owned x)))
            (λ g.
              if_cases (Created path size s) (not c.ok)
                (λ h. (inl refl, refl, λ x. ground (arith, owned x)))
                (λ h.
                  let p = fresh s.trace (16 + length path + 1) (ground arith) in
                  (
                    refl,
                    p.0,
                    omega (arith, owned m.value, p.1),
                    (f.value, refl),
                    λ x. ground (arith, owned x),
                  ))))

-- What a destruction leaves: the object gone, and its memory freed.
abbrev pub Destroyed : (p : ℕ) → Sys → Option (PlatError × Sys) → Type 0
Destroyed p s none = find p s.live ≡ none
Destroyed p s (some (e, s')) =
    (e ≡ err_ok) × ((x : ℕ) → held x s.live ≡ held x s'.live + one_if (p == x)) × Owned s'

pub plat_vm_destroy-Destroyed :
    (kernel : Kernel) (p : ℕ) (s : Sys) → Owned s → Destroyed p s (plat_vm_destroy kernel p s)
unfolding plat_vm_destroy
plat_vm_destroy-Destroyed kernel p s owned = by_object (find p s.live) refl
  where
    by_object :
        (r : Option Memobj)
        → find p s.live ≡ r
        → Destroyed p s (elim r [
          | none ↦ none
          | some o ↦ some (err_ok, tell kernel (free p) (record s { live = remove p s.live }))
        ])
    by_object none e = e
    by_object (some o) e = (
      refl,
      λ x. held-remove p x s.live o e,
      λ x. omega (arith, owned x, held-remove p x s.live o e),
    )
