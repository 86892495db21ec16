-- ===== src/Settings/LastOption.antt =====
-- src/main.c, the option loop: for each setting the last option that writes it counts.
use vmopsbench.Common.{
  ℕ, ◌%◌, ◌≡◌, refl, sym, ap, ◌∙◌, Bool, true, Option, some, none, List, [], ◌∷◌, length, strtoul,
}
use mathlib.Core.Path.{fun_ext}
use vmopsbench.Config.{Status, success, failure}
use vmopsbench.Platform.{NumaPolicy, numa_interleave, u32_mod}
use vmopsbench.Cores.{parse_cores_list}
use vmopsbench.Cores.Bounds.{parse_cores_list-IsProper}
use vmopsbench.Cores
use vmopsbench.Settings.{
  Opt, opt_l, opt_i, opt_h, opt_other, opt_p, opt_c, opt_m, opt_n, opt_b, opt_t, opt_s, opt_r,
  opt_o, opt_z, Stream, stream_of, Env, Settings, Progress, running, exited, and_then, to_u32,
  take_cores, set_option, read_options,
}

-- What an option writes to one setting, if it does.
abbrev pub Writes : Type 0 → Type 0
Writes A = (left : ℕ) → Opt → Option A

abbrev pub or_else {ℓ} : {A : Type ℓ} → Option A → A → A
or_else none d = d
or_else (some v) d = v

-- The value of the last option that writes.
abbrev pub last_write : {A : Type 0} → Writes A → List Opt → Option A
last_write f [] = none
last_write f (o ∷ opts) = elim (last_write f opts) [ some v ↦ some v | none ↦ f (length opts) o ]

abbrev pub on_benchmark : Writes (List ℕ)
on_benchmark left (opt_b arg) = some arg
on_benchmark left _ = none

abbrev pub on_memsize : Writes ℕ
on_memsize left (opt_m arg) = some (strtoul arg)
on_memsize left _ = none

abbrev pub on_nops : Writes ℕ
on_nops left (opt_n arg) = some (strtoul arg)
on_nops left _ = none

-- A number of operations takes the time limit away.
abbrev pub on_time : Writes ℕ
on_time left (opt_n arg) = some 0
on_time left (opt_t arg) = some (to_u32 arg)
on_time left _ = none

abbrev pub on_stats : Writes ℕ
on_stats left (opt_s arg) = some (to_u32 arg)
on_stats left _ = none

abbrev pub on_rate : Writes ℕ
on_rate left (opt_r arg) = some (to_u32 arg)
on_rate left _ = none

abbrev pub on_huge : Writes Bool
on_huge left opt_l = some true
on_huge left _ = none

abbrev pub on_interleave : Writes Bool
on_interleave left opt_i = some true
on_interleave left _ = none

abbrev pub on_numa : Writes NumaPolicy
on_numa left opt_i = some numa_interleave
on_numa left _ = none

abbrev pub on_ncores : Writes ℕ
on_ncores left (opt_p arg) = some (to_u32 arg)
on_ncores left _ = none

abbrev pub list_of : Cores.Outcome → Option (Option (List (Option ℕ)))
list_of (Cores.parsed l n) = some (some l)
list_of _ = none

abbrev pub size_of : Cores.Outcome → Option ℕ
size_of (Cores.parsed l n) = some (n % u32_mod)
size_of _ = none

abbrev pub stop_of : Cores.Outcome → Option Status
stop_of Cores.exits = some failure
stop_of _ = none

module _ (env : Env) where
  abbrev pub on_list : Writes (Option (List (Option ℕ)))
  on_list left (opt_c arg) = list_of (parse_cores_list (env.cores_mem left) arg)
  on_list left _ = none

  abbrev pub on_size : Writes ℕ
  on_size left (opt_c arg) = size_of (parse_cores_list (env.cores_mem left) arg)
  on_size left _ = none

  abbrev pub on_thptout : Writes Stream
  on_thptout left (opt_o arg) = some (stream_of (env.fopen left arg))
  on_thptout left _ = none

  abbrev pub on_latout : Writes Stream
  on_latout left (opt_z arg) = some (stream_of (env.fopen left arg))
  on_latout left _ = none

  -- The options that end the process.
  abbrev pub on_stop : Writes Status
  on_stop left opt_h = some success
  on_stop left opt_other = some failure
  on_stop left (opt_c arg) = stop_of (parse_cores_list (env.cores_mem left) arg)
  on_stop left _ = none

  abbrev pub first_stop : List Opt → Option Status
  first_stop [] = none
  first_stop (o ∷ opts) = elim (on_stop (length opts) o) [
    | some code ↦ some code
    | none ↦ first_stop opts
  ]

  -- Every setting as `value` says, which is given how an option writes it.
  abbrev pub settings_by : (value : (A : Type 0) → Writes A → Option A) → Settings → Settings
  settings_by value s = record {
    cfg = record s.cfg {
      benchmark = or_else (value (List ℕ) on_benchmark) s.cfg.benchmark;
      coreslist = or_else (value (Option (List (Option ℕ))) on_list) s.cfg.coreslist;
      corelist_size = or_else (value ℕ on_size) s.cfg.corelist_size;
      memsize = or_else (value ℕ on_memsize) s.cfg.memsize;
      nops = or_else (value ℕ on_nops) s.cfg.nops;
      time_ms = or_else (value ℕ on_time) s.cfg.time_ms;
      stats = or_else (value ℕ on_stats) s.cfg.stats;
      rate = or_else (value ℕ on_rate) s.cfg.rate;
      maphuge = or_else (value Bool on_huge) s.cfg.maphuge;
      numainterleave = or_else (value Bool on_interleave) s.cfg.numainterleave;
    };
    ncores = or_else (value ℕ on_ncores) s.ncores;
    numa = or_else (value NumaPolicy on_numa) s.numa;
    thptout = or_else (value Stream on_thptout) s.thptout;
    latout = or_else (value Stream on_latout) s.latout;
  }

  abbrev pub stop_or : Option Status → Settings → Progress
  stop_or none s = running s
  stop_or (some code) s = exited code

  -- The loop as one look at the whole command line.
  abbrev pub reference : List Opt → Settings → Progress
  reference opts s = stop_or (first_stop opts) (settings_by (λ A f. last_write f opts) s)

  or_else-last_write :
      (A : Type 0) (f : Writes A) (o : Opt) (opts : List Opt) (d : A)
      → or_else (last_write f (o ∷ opts)) d
        ≡ or_else (last_write f opts) (or_else (f (length opts) o) d)
  or_else-last_write A f o opts d = from_last (last_write f opts)
    where
      from_last :
          (l : Option A)
          → or_else (elim l [ some v ↦ some v | none ↦ f (length opts) o ]) d
            ≡ or_else l (or_else (f (length opts) o) d)
      from_last none = refl
      from_last (some v) = refl

  abbrev step : (left : ℕ) → Opt → Settings → Settings
  step left o s = settings_by (λ A f. f left o) s

  settings-step :
      (o : Opt) (opts : List Opt) (s : Settings)
      → settings_by (λ A f. last_write f (o ∷ opts)) s
        ≡ settings_by (λ A f. last_write f opts) (step (length opts) o s)
  settings-step o opts s = simp (or_else-last_write)

  -- The list of cores is parsed in bounds, so that the parser has only three results.
  cores_step :
      (left : ℕ) (arg : List ℕ) (s : Settings) (r : Cores.Outcome)
      → parse_cores_list (env.cores_mem left) arg ≡ r
      → take_cores s r
        ≡ stop_or (stop_of r) (record s {
          cfg = record s.cfg {
            coreslist = or_else (list_of r) s.cfg.coreslist;
            corelist_size = or_else (size_of r) s.cfg.corelist_size;
          };
        })
  cores_step left arg s (Cores.parsed l n) e = refl
  cores_step left arg s Cores.no_memory e = refl
  cores_step left arg s Cores.exits e = refl
  cores_step left arg s Cores.out_of_bounds e =
      absurd ((parse_cores_list-IsProper (env.cores_mem left) arg).0 e)
  cores_step left arg s Cores.out_of_fuel e =
      absurd ((parse_cores_list-IsProper (env.cores_mem left) arg).1 e)

  set_option-step :
      (left : ℕ) (o : Opt) (s : Settings)
      → set_option env left o s ≡ stop_or (on_stop left o) (step left o s)
  unfolding set_option
  set_option-step left opt_l s = refl
  set_option-step left opt_i s = refl
  set_option-step left opt_h s = refl
  set_option-step left opt_other s = refl
  set_option-step left (opt_p arg) s = refl
  set_option-step left (opt_c arg) s =
      cores_step left arg s (parse_cores_list (env.cores_mem left) arg) refl
  set_option-step left (opt_m arg) s = refl
  set_option-step left (opt_n arg) s = refl
  set_option-step left (opt_b arg) s = refl
  set_option-step left (opt_t arg) s = refl
  set_option-step left (opt_s arg) s = refl
  set_option-step left (opt_r arg) s = refl
  set_option-step left (opt_o arg) s = refl
  set_option-step left (opt_z arg) s = refl

  then_reference :
      (o : Opt) (opts : List Opt) (s : Settings) (stop : Option Status)
      → and_then (stop_or stop (step (length opts) o s)) (reference opts)
        ≡ stop_or
            (elim stop [ some code ↦ some code | none ↦ first_stop opts ])
            (settings_by (λ A f. last_write f (o ∷ opts)) s)
  then_reference o opts s (some code) = refl
  then_reference o opts s none = ap (stop_or (first_stop opts)) (sym (settings-step o opts s))

-- The option loop of main, on any sequence of results of getopt: it ends the process exactly at the
-- first help option, unknown option or list of cores that parse_cores_list refuses, with success for
-- help and failure for the others; otherwise every variable holds what the last option that writes it
-- wrote, and its old value if there is none, where a number of operations also sets the time limit to
-- 0, and a file that cannot be opened writes stdout.
pub read_options-reference :
    (env : Env) (opts : List Opt) (s : Settings) → read_options env opts s ≡ reference env opts s
unfolding read_options
read_options-reference env [] s = refl
read_options-reference env (o ∷ opts) s =
    ap (λ r. and_then r (read_options env opts)) (set_option-step env (length opts) o s)
    ∙ ap (and_then (stop_or env (on_stop env (length opts) o) (step env (length opts) o s)))
        (fun_ext (read_options-reference env opts))
    ∙ then_reference env o opts s (on_stop env (length opts) o)
