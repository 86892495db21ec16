-- ===== src/Args.antt =====
-- src/benchmarks/utils.c: the argument blocks of the benchmark threads, from their preparation to
-- their clean-up, over any platform.
pub mod Objects
pub mod Leak
pub mod RoundTrip
pub mod Orderly
pub mod Tests
use vmopsbench.Common.{
  ℕ, zero, suc, ◌+◌, ◌*◌, ◌%◌, Bool, true, false, if◌then◌else◌, ◌==◌, Option, some, none, List, [],
  ◌∷◌, ◌++◌, replicate, get_elem?,
}
use vmopsbench.Config.{Cfg, CoreRead}
use vmopsbench.Platform.{PlatError, err_ok, base_page_size}
use vmopsbench.Stats.{Stats, fresh}

-- The names of the memory objects: VMOBJ_NAME_SHARED, and VMOBJ_NAME_INDEPENDENT with the core.
pub data Name : Type 0 where
  shared_name : Name
  independent_name : (core : CoreRead) → Name

-- plat_vm_create, plat_vm_destroy and the plat_vm_map of the preparation.
pub data Call : Type 0 where
  vm_create : (name : Name) (size : ℕ) (huge : Bool) → Call
  vm_destroy : (memobj : ℕ) → Call
  vm_map : (size memobj : ℕ) → Call

-- `value` is the word that the call leaves behind its first pointer; NULL is 0.
pub record Reply : Type 0 where
  pub ok : Bool
  pub value : ℕ

pub record Event : Type 0 where
  pub call : Call
  pub reply : Reply

-- The platform, as a reply for each call after each history, the latest call first.
pub record Os : Type 0 where
  pub reply : List Event → Call → Reply
  pub convert_time : ℕ → ℕ

-- struct vmops_bench_run_arg, without the fields that the threads write. `has_cfg` is whether the
-- configuration is not NULL, and the core is what the read of cfg->coreslist gave.
pub record RunArg : Type 0 where
  pub has_cfg : Bool
  pub memobj : ℕ
  pub tid : ℕ
  pub coreid : CoreRead
  pub shared : ℕ
  pub stats : Stats

-- (uint32_t)-1
abbrev pub sentinel : ℕ
sentinel = 4294967295

-- BENCHMARK_PREPOPULATE_MAPPINGS
abbrev pub prepopulate_mappings : ℕ
prepopulate_mappings = 128

-- A block that calloc has cleared, with the thread number of the end of the array.
abbrev pub last_arg : RunArg
last_arg = record {
  has_cfg = false;
  memobj = 0;
  tid = sentinel;
  coreid = some (some 0);
  shared = 0;
  stats = record {
    values = [];
    idx = 0;
    idx_max = 0;
    dryrun = 0;
    sampling_delta = 0;
    sampling_next = 0;
  };
}

-- cfg->coreslist[i]
abbrev pub core_at : Cfg → ℕ → CoreRead
core_at cfg i = elim cfg.coreslist [ none ↦ none | some l ↦ get_elem? l i ]

-- Statistics are disabled when there is no memory for them.
unfoldable pub disable_stats : (enough : Bool) → Cfg → Cfg
disable_stats enough cfg = if enough then cfg else record cfg { stats = 0 }

-- How the clean-up ends: with success, with failure, or by running over the end of the array.
pub data Cleaned : Type 0 where
  cleaned : Cleaned
  refused : Cleaned
  out_of_bounds : Cleaned

module _ (os : Os) where
  -- One call of the platform.
  abbrev pub ask : Call → List Event → Reply × List Event
  ask c t = let r = os.reply t c in (r, record { call = c; reply = r } ∷ t)

  -- for (j = 0; j < i; j++) plat_vm_destroy(args[i].memobj)
  unfoldable pub destroy_times : ℕ → (memobj : ℕ) → List Event → List Event
  destroy_times zero memobj t = t
  destroy_times (suc j) memobj t = destroy_times j memobj (ask (vm_destroy memobj) t).1

  -- The object of one thread, with those of the threads after it.
  abbrev pub then_objects : ℕ → Option (List ℕ) × List Event → Option (List ℕ) × List Event
  then_objects obj (none, t) = (none, t)
  then_objects obj (some objs, t) = (some (obj ∷ objs), t)

  -- One memory object for each of the `n` threads that are left, from thread `i` on.
  unfoldable pub create_each : Cfg → (n i : ℕ) → List Event → Option (List ℕ) × List Event
  create_each cfg zero i t = (some [], t)
  create_each cfg (suc n) i t =
      let (r, t') = ask (vm_create (independent_name (core_at cfg i)) cfg.memsize cfg.maphuge) t in
      let rest = create_each cfg n (i + 1) t' in
      if r.ok then then_objects r.value rest else (none, destroy_times i r.value t')

  -- The memory objects of all threads.
  unfoldable pub create_objects : Cfg → List Event → Option (List ℕ) × List Event
  unfolding create_each
  create_objects cfg t =
      if cfg.shared
      then (let (r, t') = ask (vm_create shared_name cfg.memsize cfg.maphuge) t in
          if r.ok then (some (replicate cfg.corelist_size r.value), t') else (none, t'))
      else create_each cfg cfg.corelist_size 0 t

  -- The mappings of the first object that are made in advance; `false` after one that failed.
  unfoldable pub prepopulate : (n memobj : ℕ) → List Event → Bool × List Event
  prepopulate zero memobj t = (true, t)
  prepopulate (suc n) memobj t =
      let (r, t') = ask (vm_map base_page_size memobj) t in
      let rest = prepopulate n memobj t' in if r.ok then rest else (false, t')

  -- The blocks of the threads from thread `i` on.
  unfoldable pub init_args : Cfg → (shared i : ℕ) → List ℕ → List RunArg
  init_args cfg shared i [] = last_arg ∷ []
  init_args cfg shared i (obj ∷ objs) =
      record {
        has_cfg = true;
        memobj = obj;
        tid = i;
        coreid = core_at cfg i;
        shared = shared;
        stats = fresh cfg.stats (os.convert_time cfg.rate);
      }
      ∷ init_args cfg shared (i + 1) objs

  -- args[0].memobj
  abbrev pub first_object : List ℕ → ℕ
  first_object [] = 0
  first_object (obj ∷ objs) = obj

  -- What follows the creation of the memory objects.
  unfoldable pub finish_args :
      Cfg → (shared : ℕ) → Option (List ℕ) × List Event → Option (List RunArg) × List Event
  unfolding prepopulate init_args
  finish_args cfg shared (none, t) = (none, t)
  finish_args cfg shared (some objs, t) =
      let (ok, t') = prepopulate prepopulate_mappings (first_object objs) t in
      if ok then (some (init_args cfg shared 0 objs), t') else (none, t')

  -- vmops_utils_prepare_args: the array that it returns, none on failure. `args_mem` and `vals_mem`
  -- are whether the two callocs succeed.
  unfoldable pub prepare_args :
      (args_mem vals_mem : Bool)
      → Cfg
      → (shared : ℕ) → List Event
      → Option (List RunArg) × List Event
  unfolding create_objects finish_args disable_stats
  prepare_args args_mem vals_mem cfg shared t =
      if args_mem
      then (let cfg' = disable_stats vals_mem cfg in
          finish_args cfg' shared (create_objects cfg' t))
      else (none, t)

  -- The loop of the clean-up: an object is destroyed unless it is the one before.
  unfoldable pub destroy_objects : (memobj : ℕ) → List RunArg → List Event → Cleaned × List Event
  destroy_objects memobj [] t = (out_of_bounds, t)
  destroy_objects memobj (a ∷ args) t =
      let t' = if a.memobj == memobj then t else (ask (vm_destroy a.memobj) t).1 in
      let rest = destroy_objects a.memobj args t' in
      if a.tid == sentinel then (cleaned, t) else rest

  -- vmops_utils_cleanup_args, on a pointer that is NULL when it is none
  unfoldable pub cleanup_args : Option (List RunArg) → List Event → Cleaned × List Event
  unfolding destroy_objects
  cleanup_args none t = (refused, t)
  cleanup_args (some []) t = (out_of_bounds, t)
  cleanup_args (some (a ∷ args)) t =
      if a.has_cfg then destroy_objects 0 (a ∷ args) t else (refused, t)
