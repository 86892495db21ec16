-- ===== src/Args/Objects.antt =====
-- The memory objects of the argument blocks: how often each is created and destroyed.
pub use vmopsbench.Common.{one_if}
use vmopsbench.Common.{
  ℕ, zero, suc, ◌+◌, ◌≡◌, ◌≢◌, refl, ap, ◌∙◌, ◌⊎◌, inl, inr, Bool, true, false, ◌==◌, ==_refl,
  Option, some, none, List, [], ◌∷◌, arith, length, if_cases, ◌&&◌,
}
use vmopsbench.Config.{Cfg}
use vmopsbench.Args.{
  Name, independent_name, Call, vm_create, vm_destroy, Event, Reply, Os, ask, create_each,
  then_objects, core_at,
}

abbrev pub is_create : (x : ℕ) → Call → Reply → ℕ
is_create x (vm_create name size huge) r = one_if (r.ok && (r.value == x))
is_create x _ r = 0

abbrev pub is_destroy : (x : ℕ) → Call → ℕ
is_destroy x (vm_destroy memobj) = one_if (memobj == x)
is_destroy x _ = 0

-- How often the handle `x` was returned by a creation that succeeded, and how often destroyed.
abbrev pub created : (x : ℕ) → List Event → ℕ
created x [] = 0
created x (e ∷ t) = is_create x e.call e.reply + created x t

abbrev pub destroyed : (x : ℕ) → List Event → ℕ
destroyed x [] = 0
destroyed x (e ∷ t) = is_destroy x e.call + destroyed x t

-- How often `x` is in a list of handles.
abbrev pub occurrences : (x : ℕ) → List ℕ → ℕ
occurrences x [] = 0
occurrences x (o ∷ objs) = one_if (o == x) + occurrences x objs

pub differs : (a b : ℕ) → a ≢ b → (a == b) ≡ false
differs a b h = ground (arith, h)

-- Every handle differs from the one before it, the first one from `prev`.
abbrev pub Apart : (prev : ℕ) → List ℕ → Type 0
Apart prev [] = Unit
Apart prev (o ∷ objs) = (o ≢ prev) × Apart o objs

-- plat_vm_create returns no NULL and no handle of an object that stands.
abbrev pub IsFresh : Os → Type 0
IsFresh os =
    (t : List Event) (name : Name) (size : ℕ) (huge : Bool)
    → let r = os.reply t (vm_create name size huge) in
      r.ok ≡ true → (r.value ≢ 0) × (created r.value t ≡ destroyed r.value t)

-- What the creation leaves, if it succeeds: `n` handles, each created once more, none equal to the
-- one before it.
abbrev pub Made : (t : List Event) (prev n : ℕ) → Option (List ℕ) × List Event → Type 0
Made t prev n (none, t') = Unit
Made t prev n (some objs, t') =
    (length objs ≡ n)
    × Apart prev objs
    × ((x : ℕ) → created x t' ≡ occurrences x objs + created x t)
    × ((x : ℕ) → destroyed x t' ≡ destroyed x t)

-- `prev` is NULL, or an object that stands.
abbrev pub Stands : (prev : ℕ) → List Event → Type 0
Stands prev t = (prev ≡ 0) ⊎ (created prev t ≡ destroyed prev t + 1)

module _ (os : Os) (fresh : IsFresh os) (cfg : Cfg) where
  fresh-Stands :
      (t : List Event) (name : Name) (size : ℕ) (huge : Bool)
      → let (r, t') = ask os (vm_create name size huge) t in r.ok ≡ true → Stands r.value t'
  fresh-Stands t name size huge e =
      let (a, b) = fresh t name size huge e in
      inr (rw (e, ==_refl (ask os (vm_create name size huge) t).0.value) (omega (arith, b)))

  fresh-prev :
      (prev : ℕ) (t : List Event) (name : Name) (size : ℕ) (huge : Bool)
      → let (r, t') = ask os (vm_create name size huge) t in
        r.ok ≡ true → Stands prev t → r.value ≢ prev
  fresh-prev prev t name size huge e (inl z) h = (fresh t name size huge e).0 (h ∙ z)
  fresh-prev prev t name size huge e (inr q) h =
      omega
        (arith, q, (fresh t name size huge e).1, ap (λ x. created x t) h, ap (λ x. destroyed x t) h)

  then-Made :
      (t t' : List Event) (prev n obj : ℕ) (r : Option (List ℕ) × List Event)
      → obj ≢ prev
      → ((x : ℕ) → created x t' ≡ one_if (obj == x) + created x t)
      → ((x : ℕ) → destroyed x t' ≡ destroyed x t)
      → Made t' obj n r
      → Made t prev (suc n) (then_objects os obj r)
  then-Made t t' prev n obj (none, u) d c e m = tt
  then-Made t t' prev n obj (some objs, u) d c e (l, a, c', e') =
      (ap suc l, (d, a), λ x. omega (arith, c x, c' x), λ x. e' x ∙ e x)

  pub create_each-Made :
      (n i prev : ℕ) (t : List Event) → Stands prev t → Made t prev n (create_each os cfg n i t)
  unfolding create_each
  create_each-Made zero i prev t s = (refl, tt, λ x. omega arith, λ x. refl)
  create_each-Made (suc n) i prev t s =
      let c = vm_create (independent_name (core_at cfg i)) cfg.memsize cfg.maphuge in
      let (r, t') = ask os c t in
      if_cases (Made t prev (suc n)) r.ok
        (λ e.
          then-Made t t' prev n r.value (create_each os cfg n (i + 1) t')
            (fresh-prev prev t _ _ _ e s)
            (λ x. ap (λ b. one_if (b && (r.value == x)) + created x t) e) (λ x. omega arith)
            (create_each-Made n (i + 1) r.value t' (fresh-Stands t _ _ _ e)))
        (λ e. tt)
