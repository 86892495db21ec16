-- ===== src/Args/RoundTrip.antt =====
-- Preparing the argument blocks and cleaning them up again destroys what was created.
use vmopsbench.Common.{
  ℕ, zero, suc, ◌+◌, ◌≤◌, ◌<◌, ◌≡◌, ◌≢◌, refl, ap, ◌∙◌, inl, Bool, true, false, if◌then◌else◌, ◌==◌,
  ==_refl, Option, some, none, List, [], ◌∷◌, arith, replicate, length, if_cases, ◌&&◌,
  length-replicate, if_false, if_true,
}
use mathlib.Core.Path.{subst, sym}
use vmopsbench.Config.{Cfg}
use vmopsbench.Args.{
  vm_create, vm_destroy, vm_map, Event, Os, ask, create_objects, shared_name, prepopulate,
  prepopulate_mappings, RunArg, sentinel, init_args, finish_args, disable_stats, prepare_args,
  Cleaned, cleaned, destroy_objects, cleanup_args,
}
use vmopsbench.Args.Objects.{
  one_if, created, destroyed, occurrences, Apart, IsFresh, Made, create_each-Made, differs,
}

-- Handles without those that repeat the one before, which is `prev` for the first.
abbrev pub runs : (prev : ℕ) → List ℕ → List ℕ
runs prev [] = []
runs prev (o ∷ objs) = let rest = runs o objs in if o == prev then rest else o ∷ rest

runs-Apart : (prev : ℕ) (objs : List ℕ) → Apart prev objs → runs prev objs ≡ objs
runs-Apart prev [] a = refl
runs-Apart prev (o ∷ objs) (d, a) =
    if_false _ _ (differs o prev d) ∙ ap (λ l. o ∷ l) (runs-Apart o objs a)

runs-replicate : (n o : ℕ) → runs o (replicate n o) ≡ []
runs-replicate zero o = refl
runs-replicate (suc n) o = if_true _ _ (==_refl o) ∙ runs-replicate n o

runs-once : (n o : ℕ) → 0 < n → o ≢ 0 → runs 0 (replicate n o) ≡ o ∷ []
runs-once zero o h d = absurd (omega (arith, h))
runs-once (suc n) o h d = if_false _ _ (differs o 0 d) ∙ ap (λ l. o ∷ l) (runs-replicate n o)

-- From `t` to `t'` no object was created or destroyed.
pub record Still (t t' : List Event) : Type 0 where
  pub creations : (x : ℕ) → created x t' ≡ created x t
  pub destructions : (x : ℕ) → destroyed x t' ≡ destroyed x t

-- What a creation of all objects leaves, if it succeeds.
pub record Stocked (t t' : List Event) (n : ℕ) (objs : List ℕ) : Type 0 where
  pub size : length objs ≡ n
  pub creations : (x : ℕ) → created x t' ≡ occurrences x (runs 0 objs) + created x t
  pub destructions : (x : ℕ) → destroyed x t' ≡ destroyed x t

abbrev pub Stock : (t : List Event) (n : ℕ) → Option (List ℕ) × List Event → Type 0
Stock t n (none, t') = Unit
Stock t n (some objs, t') = Stocked t t' n objs

Made-Stock :
    (t : List Event) (n : ℕ) (r : Option (List ℕ) × List Event) → Made t 0 n r → Stock t n r
Made-Stock t n (none, t') m = tt
Made-Stock t n (some objs, t') (l, a, c, d) = record {
  size = l;
  creations = λ x. rw (runs-Apart 0 objs a) (c x);
  destructions = d;
}

module _ (os : Os) (fresh : IsFresh os) (cfg : Cfg) where
  once :
      (x v : ℕ) (t : List Event) {b : Bool}
      → b ≡ true
      → v ≢ 0
      → 0 < cfg.corelist_size
      → one_if (b && (v == x)) + created x t
        ≡ occurrences x (runs 0 (replicate cfg.corelist_size v)) + created x t
  once x v t k d h =
      ap (λ b. one_if (b && (v == x)) + created x t) k
      ∙ omega (arith, ap (occurrences x) (runs-once cfg.corelist_size v h d))

  pub create_objects-Stock :
      (t : List Event) → 0 < cfg.corelist_size → Stock t cfg.corelist_size (create_objects os cfg t)
  unfolding create_objects
  create_objects-Stock t h =
      let c = vm_create shared_name cfg.memsize cfg.maphuge in
      let (r, t') = ask os c t in
      if_cases (Stock t cfg.corelist_size) cfg.shared
        (λ e.
          if_cases (Stock t cfg.corelist_size) r.ok
            (λ k. record {
              size = length-replicate cfg.corelist_size r.value;
              creations = λ x. once x r.value t k ((fresh t _ _ _ k).0) h;
              destructions = λ x. omega arith;
            })
            (λ k. tt))
        (λ e.
          Made-Stock t cfg.corelist_size _
            (create_each-Made os fresh cfg cfg.corelist_size 0 0 t (inl refl)))

pub prepopulate-Still :
    (os : Os) (n memobj : ℕ) (t : List Event) → Still t (prepopulate os n memobj t).1
unfolding prepopulate
prepopulate-Still os zero memobj t = record { creations = λ x. refl; destructions = λ x. refl }
prepopulate-Still os (suc n) memobj t =
    let (r, t') = ask os (vm_map 4096 memobj) t in
    let s = prepopulate-Still os n memobj t' in
    if_cases (λ (p : Bool × List Event). Still t p.1) r.ok
      (λ e. record {
        creations = λ x. omega (arith, s.creations x);
        destructions = λ x. omega (arith, s.destructions x);
      })
      (λ e. record { creations = λ x. omega arith; destructions = λ x. omega arith })

-- The clean-up came to the end of the array, and destroyed every run of equal handles once.
record Emptied (t : List Event) (objs : List ℕ) (prev : ℕ) (r : Cleaned × List Event) : Type 0 where
  result : r.0 ≡ cleaned
  pub creations : (x : ℕ) → created x r.1 ≡ created x t
  pub destructions : (x : ℕ) → destroyed x r.1 ≡ occurrences x (runs prev objs) + destroyed x t

module _ (o x : ℕ) (e : Event) (h : e.call ≡ vm_destroy o) (objs : List ℕ) (t : List Event) where
  -- Destroying or not, and keeping or dropping the handle in the list, go together.
  either_way-destroyed :
      (b : Bool)
      → occurrences x objs + destroyed x (if b then t else e ∷ t)
        ≡ occurrences x (if b then objs else o ∷ objs) + destroyed x t
  either_way-destroyed true = refl
  either_way-destroyed false = rw h (omega arith)

  either_way-created : (b : Bool) → created x (if b then t else e ∷ t) ≡ created x t
  either_way-created true = refl
  either_way-created false = rw h (omega arith)

module _ (os : Os) (cfg : Cfg) (shared : ℕ) where
  destroy_objects-Emptied :
      (i prev : ℕ) (objs : List ℕ) (t : List Event)
      → i + length objs ≤ sentinel
      → Emptied t objs prev (destroy_objects os prev (init_args os cfg shared i objs) t)
  unfolding destroy_objects init_args
  destroy_objects-Emptied i prev [] t h = record {
    result = refl;
    creations = λ x. refl;
    destructions = λ x. omega arith;
  }
  destroy_objects-Emptied i prev (o ∷ objs) t h =
      let e : Event = record { call = vm_destroy o; reply = os.reply t (vm_destroy o) } in
      let s =
        destroy_objects-Emptied (i + 1) o objs (if o == prev then t else e ∷ t)
          (omega (arith, h)) in
      subst (Emptied t (o ∷ objs) prev)
        (sym (if_false _ _ (differs i sentinel (λ k. omega (arith, h, k)))))
        (record {
          result = s.result;
          creations = λ x. s.creations x ∙ either_way-created o x e refl objs t (o == prev);
          destructions =
              λ x. s.destructions x ∙ either_way-destroyed o x e refl (runs o objs) t (o == prev);
        })

-- What a preparation leaves that succeeds, once its array is cleaned up.
abbrev pub Returned : Os → (t : List Event) → Option (List RunArg) × List Event → Type 0
Returned os t (none, t') = Unit
Returned os t (some args, t') =
    let (result, t'') = cleanup_args os (some args) t' in
    (result ≡ cleaned) × ((x : ℕ) → destroyed x t'' + created x t ≡ destroyed x t + created x t'')

finish_args-Returned :
    (os : Os) (cfg : Cfg) (shared n : ℕ) (t : List Event) (r : Option (List ℕ) × List Event)
    → 0 < n
    → n ≤ sentinel
    → Stock t n r
    → Returned os t (finish_args os cfg shared r)
unfolding finish_args cleanup_args
finish_args-Returned os cfg shared n t (none, u) p h s = tt
finish_args-Returned os cfg shared n t (some [], u) p h s = absurd (omega (arith, p, s.size))
finish_args-Returned os cfg shared n t (some (o ∷ objs), u) p h s =
    let made = prepopulate os prepopulate_mappings o u in
    let q = prepopulate-Still os prepopulate_mappings o u in
    let z =
      destroy_objects-Emptied os cfg shared 0 0 (o ∷ objs) made.1 (omega (arith, h, s.size)) in
    if_cases (Returned os t) made.0
      (λ e. (
        z.result,
        λ x. omega (
          arith,
          z.destructions x,
          z.creations x,
          q.destructions x,
          q.creations x,
          s.creations x,
          s.destructions x,
        ),
      ))
      (λ e. tt)

pub disabled-size :
    (enough : Bool) (cfg : Cfg) → (disable_stats enough cfg).corelist_size ≡ cfg.corelist_size
unfolding disable_stats
disabled-size true cfg = refl
disabled-size false cfg = refl

-- On a platform that never returns NULL or the handle of an object that stands, for at least one
-- thread and fewer than 2^32 - 1: an array of argument blocks that was prepared, for a shared object
-- or for one of each thread, is cleaned up with success and within its bounds, and after that every
-- handle has been destroyed as often as it has been created since before the preparation.
pub prepare_cleanup :
    (os : Os) (args_mem vals_mem : Bool) (cfg : Cfg) (shared : ℕ) (t : List Event)
    → IsFresh os
    → 0 < cfg.corelist_size
    → cfg.corelist_size < sentinel
    → Returned os t (prepare_args os args_mem vals_mem cfg shared t)
unfolding prepare_args
prepare_cleanup os args_mem vals_mem cfg shared t fresh p h =
    let cfg' = disable_stats vals_mem cfg in
    let e = disabled-size vals_mem cfg in
    if_cases (Returned os t) args_mem
      (λ a.
        finish_args-Returned os cfg' shared cfg'.corelist_size t (create_objects os cfg' t)
          (omega (arith, p, e)) (omega (arith, h, e))
          (create_objects-Stock os fresh cfg' t (omega (arith, p, e))))
      (λ a. tt)
