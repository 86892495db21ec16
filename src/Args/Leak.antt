-- ===== src/Args/Leak.antt =====
-- A preparation of the argument blocks that fails destroys nothing.
use vmopsbench.Common.{
  ℕ, zero, suc, ◌+◌, ◌≡◌, ◌≢◌, refl, sym, ap, ◌∙◌, Bool, false, Option, some, none, List, arith,
  if_cases,
}
use vmopsbench.Config.{Cfg}
use vmopsbench.Args.{
  Name, vm_create, vm_destroy, vm_map, Event, Os, ask, independent_name, core_at, create_objects,
  create_each, then_objects, destroy_times, shared_name, prepopulate, prepopulate_mappings, RunArg,
  finish_args, first_object, disable_stats, prepare_args,
}
use vmopsbench.Args.Objects.{one_if, destroyed, differs}

-- plat_vm_create writes no handle when it fails.
abbrev pub LeavesNull : Os → Type 0
LeavesNull os =
    (t : List Event) (name : Name) (size : ℕ) (huge : Bool)
    → let r = os.reply t (vm_create name size huge) in r.ok ≡ false → r.value ≡ 0

module _ (os : Os) (null : LeavesNull os) (x : ℕ) (object : x ≢ 0) where
  abbrev Same : (t t' : List Event) → Type 0
  Same t t' = destroyed x t' ≡ destroyed x t

  destroy_times-Same : (n v : ℕ) (t : List Event) → v ≡ 0 → Same t (destroy_times os n v t)
  unfolding destroy_times
  destroy_times-Same zero v t h = refl
  destroy_times-Same (suc n) v t h =
      destroy_times-Same n v (ask os (vm_destroy v) t).1 h
      ∙ ap (λ b. one_if b + destroyed x t) (differs v x (λ k. object (sym k ∙ h)))
      ∙ omega arith

  then_objects-log : (o : ℕ) (r : Option (List ℕ) × List Event) → (then_objects os o r).1 ≡ r.1
  then_objects-log o (none, t) = refl
  then_objects-log o (some objs, t) = refl

  create_each-Same : (cfg : Cfg) (n i : ℕ) (t : List Event) → Same t (create_each os cfg n i t).1
  unfolding create_each
  create_each-Same cfg zero i t = refl
  create_each-Same cfg (suc n) i t =
      let (r, t') =
        ask os (vm_create (independent_name (core_at cfg i)) cfg.memsize cfg.maphuge) t in
      if_cases (λ (p : Option (List ℕ) × List Event). Same t p.1) r.ok
        (λ e.
          ap (destroyed x) (then_objects-log r.value (create_each os cfg n (i + 1) t'))
          ∙ omega (arith, create_each-Same cfg n (i + 1) t'))
        (λ e. omega (arith, destroy_times-Same i r.value t' (null t _ _ _ e)))

  prepopulate-Same : (n memobj : ℕ) (t : List Event) → Same t (prepopulate os n memobj t).1
  unfolding prepopulate
  prepopulate-Same zero memobj t = refl
  prepopulate-Same (suc n) memobj t =
      let (r, t') = ask os (vm_map 4096 memobj) t in
      if_cases (λ (p : Bool × List Event). Same t p.1) r.ok
        (λ e. omega (arith, prepopulate-Same n memobj t')) (λ e. omega arith)

  finish_args-Same :
      (cfg : Cfg) (shared : ℕ) (t : List Event) (r : Option (List ℕ) × List Event)
      → Same t r.1
      → Same t (finish_args os cfg shared r).1
  unfolding finish_args
  finish_args-Same cfg shared t (none, u) s = s
  finish_args-Same cfg shared t (some objs, u) s =
      let q = prepopulate-Same prepopulate_mappings (first_object os objs) u in
      if_cases (λ (p : Option (List RunArg) × List Event). Same t p.1)
        (prepopulate os prepopulate_mappings (first_object os objs) u).0 (λ e. q ∙ s) (λ e. q ∙ s)

  create_objects-Same : (cfg : Cfg) (t : List Event) → Same t (create_objects os cfg t).1
  unfolding create_objects
  create_objects-Same cfg t =
      let (r, t') = ask os (vm_create shared_name cfg.memsize cfg.maphuge) t in
      if_cases (λ (p : Option (List ℕ) × List Event). Same t p.1) cfg.shared
        (λ e.
          if_cases (λ (p : Option (List ℕ) × List Event). Same t p.1) r.ok (λ k. omega arith)
            (λ k. omega arith))
        (λ e. create_each-Same cfg cfg.corelist_size 0 t)

-- On a platform that leaves NULL behind a creation that failed, the preparation of the argument
-- blocks destroys no memory object, however it ends: after a failed creation or a failed mapping,
-- the objects that it has created stand.
pub prepare_args_keeps :
    (os : Os) (args_mem vals_mem : Bool) (cfg : Cfg) (shared : ℕ) (t : List Event) (x : ℕ)
    → LeavesNull os
    → x ≢ 0
    → destroyed x (prepare_args os args_mem vals_mem cfg shared t).1 ≡ destroyed x t
unfolding prepare_args
prepare_args_keeps os args_mem vals_mem cfg shared t x null h =
    let cfg' = disable_stats vals_mem cfg in
    if_cases (λ (p : Option (List RunArg) × List Event). destroyed x p.1 ≡ destroyed x t) args_mem
      (λ a.
        finish_args-Same os null x h cfg' shared t (create_objects os cfg' t)
          (create_objects-Same os null x h cfg' t))
      (λ a. refl)
