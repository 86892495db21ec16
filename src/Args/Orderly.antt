-- ===== src/Args/Orderly.antt =====
-- The calls of a preparation that succeeds, and of its clean-up, name objects that stand.
use vmopsbench.Common.{
  ℕ, zero, suc, ◌+◌, ◌≤◌, ◌<◌, ◌≡◌, ◌≢◌, refl, sym, ap, inl, inr, Bool, if◌then◌else◌, ◌==◌, Option,
  some, none, List, [], ◌∷◌, arith, replicate, if_cases, if_rule, if_false, ==_refl, Bool-cases,
}
use mathlib.Core.Path.{subst}
use vmopsbench.Config.{Cfg}
use vmopsbench.Args.{
  Call, vm_create, vm_destroy, vm_map, Event, Os, ask, create_objects, create_each, then_objects,
  shared_name, independent_name, core_at, prepopulate, prepopulate_mappings, RunArg, sentinel,
  init_args, finish_args, disable_stats, prepare_args, Cleaned, destroy_objects, cleanup_args,
}
use vmopsbench.Args.Objects.{
  one_if, created, destroyed, occurrences, IsFresh, Made, create_each-Made, differs,
}
use vmopsbench.Args.RoundTrip.{runs, Stock, create_objects-Stock, prepopulate-Still, disabled-size}

-- The object was created more often than it was destroyed.
abbrev pub Standing : (p : ℕ) → List Event → Type 0
Standing p t = destroyed p t < created p t

abbrev pub Allowed : Call → List Event → Type 0
Allowed (vm_create name size huge) t = Unit {0}
Allowed (vm_destroy p) t = Standing p t
Allowed (vm_map size p) t = Standing p t

-- A history of the platform in which no call names an object that does not stand.
abbrev pub Orderly : Os → List Event → Type 0
Orderly os [] = Unit
Orderly os (e ∷ t) = (e.reply ≡ os.reply t e.call) × Allowed e.call t × Orderly os t

abbrev IfMade : {A : Type 0} → (List Event → Type 0) → Option A × List Event → Type 0
IfMade P (none, t) = Unit {0}
IfMade P (some a, t) = P t

module _ (os : Os) where
  then_objects-Orderly :
      (obj : ℕ) (r : Option (List ℕ) × List Event)
      → IfMade (Orderly os) r
      → IfMade (Orderly os) (then_objects os obj r)
  then_objects-Orderly obj (none, t) h = tt
  then_objects-Orderly obj (some objs, t) h = h

  create_each-Orderly :
      (cfg : Cfg) (n i : ℕ) (t : List Event)
      → Orderly os t
      → IfMade (Orderly os) (create_each os cfg n i t)
  unfolding create_each
  create_each-Orderly cfg zero i t h = h
  create_each-Orderly cfg (suc n) i t h =
      let c = vm_create (independent_name (core_at cfg i)) cfg.memsize cfg.maphuge in
      let (r, t') = ask os c t in
      if_rule (IfMade (Orderly os)) r.ok
        (then_objects-Orderly r.value (create_each os cfg n (i + 1) t')
          (create_each-Orderly cfg n (i + 1) t' (refl, tt, h)))
        tt

  create_objects-Orderly :
      (cfg : Cfg) (t : List Event) → Orderly os t → IfMade (Orderly os) (create_objects os cfg t)
  unfolding create_objects
  create_objects-Orderly cfg t h =
      let c = vm_create shared_name cfg.memsize cfg.maphuge in
      if_rule (IfMade (Orderly os)) cfg.shared
        (if_rule (IfMade (Orderly os)) (ask os c t).0.ok (refl, tt, h) tt)
        (create_each-Orderly cfg cfg.corelist_size 0 t h)

  prepopulate-Orderly :
      (n p : ℕ) (t : List Event) → Standing p t → Orderly os t → Orderly os (prepopulate os n p t).1
  unfolding prepopulate
  prepopulate-Orderly zero p t s h = h
  prepopulate-Orderly (suc n) p t s h =
      let (r, t') = ask os (vm_map 4096 p) t in
      if_rule (λ (q : Bool × List Event). Orderly os q.1) r.ok
        (prepopulate-Orderly n p t' (omega (arith, s)) (refl, s, h)) (refl, s, h)

  -- The handles that are still to be destroyed stand, each as often as it is to be destroyed.
  abbrev Left : (prev : ℕ) → List ℕ → List Event → Type 0
  Left prev objs t = (x : ℕ) → destroyed x t + occurrences x (runs prev objs) ≤ created x t

  module _ (cfg : Cfg) (shared : ℕ) where
    destroy_objects-Orderly :
        (i prev : ℕ) (objs : List ℕ) (t : List Event)
        → Left prev objs t
        → Orderly os t
        → Orderly os (destroy_objects os prev (init_args os cfg shared i objs) t).1
    unfolding destroy_objects init_args
    destroy_objects-Orderly i prev [] t l h = h
    destroy_objects-Orderly i prev (o ∷ objs) t l h =
        let e : Event = record { call = vm_destroy o; reply = os.reply t (vm_destroy o) } in
        if_rule (λ (q : Cleaned × List Event). Orderly os q.1) (i == sentinel) h
          (elim (Bool-cases (o == prev)) [
            | inl same ↦
                subst
                  (λ (b : Bool).
                    Orderly os
                      (destroy_objects os o (init_args os cfg shared (i + 1) objs)
                        (if b then t else e ∷ t)).1)
                  (sym same) (destroy_objects-Orderly (i + 1) o objs t (λ x. ground (arith, l x)) h)
            | inr other ↦
                subst
                  (λ (b : Bool).
                    Orderly os
                      (destroy_objects os o (init_args os cfg shared (i + 1) objs)
                        (if b then t else e ∷ t)).1)
                  (sym other)
                  (destroy_objects-Orderly (i + 1) o objs (e ∷ t) (λ x. ground (arith, l x))
                    (refl, ground (arith, l o), h))
          ])

-- The first of the handles is not NULL.
abbrev HeadNonNull : Option (List ℕ) × List Event → Type 0
HeadNonNull (none, t) = Unit {0}
HeadNonNull (some [], t) = Unit {0}
HeadNonNull (some (o ∷ objs), t) = o ≢ 0

replicate-HeadNonNull : (n o : ℕ) (t : List Event) → o ≢ 0 → HeadNonNull (some (replicate n o), t)
replicate-HeadNonNull zero o t h = tt
replicate-HeadNonNull (suc n) o t h = h

Made-HeadNonNull :
    (t : List Event) (n : ℕ) (r : Option (List ℕ) × List Event) → Made t 0 n r → HeadNonNull r
Made-HeadNonNull t n (none, t') m = tt
Made-HeadNonNull t n (some [], t') m = tt
Made-HeadNonNull t n (some (o ∷ objs), t') (l, (d, a), _, _) = d

create_objects-HeadNonNull :
    (os : Os) (cfg : Cfg) (t : List Event) → IsFresh os → HeadNonNull (create_objects os cfg t)
unfolding create_objects
create_objects-HeadNonNull os cfg t fresh =
    let (r, t') = ask os (vm_create shared_name cfg.memsize cfg.maphuge) t in
    if_rule HeadNonNull cfg.shared
      (if_cases HeadNonNull r.ok
        (λ e. replicate-HeadNonNull cfg.corelist_size r.value t' (fresh t _ _ _ e).0) (λ _. tt))
      (Made-HeadNonNull t cfg.corelist_size (create_each os cfg cfg.corelist_size 0 t)
        (create_each-Made os fresh cfg cfg.corelist_size 0 0 t (inl refl)))

-- Both the preparation, if it succeeds, and the clean-up that follows it are orderly.
abbrev pub BothOrderly : Os → Option (List RunArg) × List Event → Type 0
BothOrderly os (none, t) = Unit {0}
BothOrderly os (some args, t) = Orderly os t × Orderly os (cleanup_args os (some args) t).1

finish_args-BothOrderly :
    (os : Os) (cfg : Cfg) (shared n : ℕ) (t : List Event) (r : Option (List ℕ) × List Event)
    → 0 < n
    → ((x : ℕ) → destroyed x t ≤ created x t)
    → Stock t n r
    → HeadNonNull r
    → IfMade (Orderly os) r
    → BothOrderly os (finish_args os cfg shared r)
unfolding finish_args cleanup_args init_args
finish_args-BothOrderly os cfg shared n t (none, u) p k s d h = tt
finish_args-BothOrderly os cfg shared n t (some [], u) p k s d h = absurd (omega (arith, p, s.size))
finish_args-BothOrderly os cfg shared n t (some (o ∷ objs), u) p k s d h =
    let made = prepopulate os prepopulate_mappings o u in
    let q = prepopulate-Still os prepopulate_mappings o u in
    let first : runs 0 (o ∷ objs) ≡ o ∷ runs o objs = if_false _ _ (differs o 0 d) in
    let stands : Standing o u = omega (
      arith,
      k o,
      s.creations o,
      s.destructions o,
      ap (occurrences o) first,
      ap one_if (==_refl o),
    ) in
    let w = prepopulate-Orderly os prepopulate_mappings o u stands h in
    if_rule (BothOrderly os) made.0
      (
        w,
        destroy_objects-Orderly os cfg shared 0 0 (o ∷ objs) made.1
            (λ x.
              omega (arith, k x, s.creations x, s.destructions x, q.creations x, q.destructions x))
            w,
      )
      tt

-- On a platform that never returns NULL or the handle of an object that stands, for at least one
-- thread: a preparation that succeeds maps only objects that stand, and the clean-up of its blocks
-- destroys only objects that stand.
pub prepare_args-BothOrderly :
    (os : Os) (args_mem vals_mem : Bool) (cfg : Cfg) (shared : ℕ) (t : List Event)
    → IsFresh os
    → 0 < cfg.corelist_size
    → ((x : ℕ) → destroyed x t ≤ created x t)
    → Orderly os t
    → BothOrderly os (prepare_args os args_mem vals_mem cfg shared t)
unfolding prepare_args
prepare_args-BothOrderly os args_mem vals_mem cfg shared t fresh p k h =
    let cfg' = disable_stats vals_mem cfg in
    let e = disabled-size vals_mem cfg in
    if_rule (BothOrderly os) args_mem
      (finish_args-BothOrderly os cfg' shared cfg'.corelist_size t (create_objects os cfg' t)
        (omega (arith, p, e)) k (create_objects-Stock os fresh cfg' t (omega (arith, p, e)))
        (create_objects-HeadNonNull os cfg' t fresh) (create_objects-Orderly os cfg' t h))
      tt
