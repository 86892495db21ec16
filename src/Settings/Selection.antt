-- ===== src/Settings/Selection.antt =====
-- src/main.c, main: the configuration that reaches the benchmark.
use vmopsbench.Common.{
  ℕ, zero, suc, ◌+◌, ◌<◌, ◌≤◌, ◌≡◌, refl, ◌⊎◌, inl, inr, Bool, not, if◌then◌else◌, ◌==◌, ltb,
  Option, some, none, List, [], ◌∷◌, drop, set, length, length-set, length-replicate, replicate,
  isdigit, if_rule, arith,
}
use vmopsbench.Platform.{NumaPolicy}
use vmopsbench.Cores.{
  Outcome, parsed, no_memory, exits, out_of_bounds, out_of_fuel, digits, after_digits, at_separator,
  is_nil, count_cores, core_id, fill, parse_cores_list,
}
use vmopsbench.Cores.Bounds.{parse_cores_list-IsProper}
use vmopsbench.Topology.{Topology, cores, refused}
use vmopsbench.Settings.{
  Env, Settings, Progress, running, exited, undefined, and_then, take_cores, set_option, Opt, opt_l,
  opt_i, opt_h, opt_other, opt_p, opt_c, opt_m, opt_n, opt_b, opt_t, opt_s, opt_r, opt_o, opt_z,
  read_options, first_cores, choose_cores, default_settings,
}

-- The array of the parser has a cell for each core that it counts.
abbrev Counted : (n : ℕ) → Outcome → Type 0
Counted n (parsed l k) = (length l ≡ n) × (k ≡ n)
Counted n _ = Unit {0}

fill-Counted :
    (fuel : ℕ) (s : List ℕ) (idx : ℕ) (l : List (Option ℕ)) (n : ℕ)
    → length l ≡ n
    → Counted n (fill fuel s idx l n)
unfolding fill
fill-Counted zero s idx l n e = tt
fill-Counted (suc fuel) [] idx l n e = (e, refl)
fill-Counted (suc fuel) (c ∷ s) idx l n e =
    let ds = digits (c ∷ s) in
    let a = after_digits (c ∷ s) in
    let v = some (core_id ds) in
    if_rule (Counted n) (not (at_separator a)) tt (
      if_rule (Counted n) (is_nil ds) tt (
        if_rule (Counted n) (ltb idx (length l))
          (fill-Counted fuel (drop 1 a) (idx + 1) (set l idx v) n
            (omega (arith, e, length-set l idx v)))
          tt))

count_cores_positive : (s : List ℕ) → 0 < count_cores s
unfolding count_cores
count_cores_positive [] = omega arith
count_cores_positive (c ∷ s) = ground (arith, count_cores_positive s)

-- A list of cores that is parsed has a cell, and as many as the count.
abbrev Sized : Outcome → Type 0
Sized (parsed l n) = (0 < length l) × (n ≡ length l)
Sized _ = Unit {0}

Counted-Sized : (n : ℕ) → 0 < n → (r : Outcome) → Counted n r → Sized r
Counted-Sized n h (parsed l k) (e, f) = (omega (arith, h, e), omega (arith, e, f))
Counted-Sized n h no_memory c = tt
Counted-Sized n h exits c = tt
Counted-Sized n h out_of_bounds c = tt
Counted-Sized n h out_of_fuel c = tt

parse_cores_list-Sized : (granted : Bool) (s : List ℕ) → Sized (parse_cores_list granted s)
unfolding parse_cores_list
parse_cores_list-Sized granted [] = tt
parse_cores_list-Sized granted (c ∷ s) =
    let n = count_cores (c ∷ s) in
    if_rule Sized (not (isdigit c)) tt (
      if_rule Sized granted
        (Counted-Sized n (count_cores_positive (c ∷ s))
          (fill (suc (length (c ∷ s))) (c ∷ s) 0 (replicate n none) n)
          (fill-Counted (suc (length (c ∷ s))) (c ∷ s) 0 (replicate n none) n
            (length-replicate n none)))
        tt)

-- The list, if there is one, has a cell, and as many as the configuration says at least.
abbrev pub Holds : (size : ℕ) → Option (List (Option ℕ)) → Type 0
Holds size none = ⊥
Holds size (some l) = (0 < length l) × (size ≤ length l)

abbrev HasCores : Settings → Type 0
HasCores s = (s.cfg.coreslist ≡ none) ⊎ Holds s.cfg.corelist_size s.cfg.coreslist

abbrev pub During : (Settings → Type 0) → Progress → Type 0
During P (running s) = P s
During P (exited code) = Unit
During P undefined = ⊥

take_cores-HasCores :
    (granted : Bool) (arg : List ℕ) (s : Settings) (r : Outcome)
    → parse_cores_list granted arg ≡ r
    → Sized r
    → HasCores s
    → During HasCores (take_cores s r)
take_cores-HasCores granted arg s (parsed l n) e (p, q) h = inr (p, omega (arith, q))
take_cores-HasCores granted arg s no_memory e z h = h
take_cores-HasCores granted arg s exits e z h = tt
take_cores-HasCores granted arg s out_of_bounds e z h =
    absurd ((parse_cores_list-IsProper granted arg).0 e)
take_cores-HasCores granted arg s out_of_fuel e z h =
    absurd ((parse_cores_list-IsProper granted arg).1 e)

module _ (env : Env) where
  set_option-HasCores :
      (left : ℕ) (o : Opt) (s : Settings) → HasCores s → During HasCores (set_option env left o s)
  unfolding set_option
  set_option-HasCores left opt_l s h = h
  set_option-HasCores left opt_i s h = h
  set_option-HasCores left opt_h s h = tt
  set_option-HasCores left opt_other s h = tt
  set_option-HasCores left (opt_p arg) s h = h
  set_option-HasCores left (opt_c arg) s h =
      take_cores-HasCores (env.cores_mem left) arg s (parse_cores_list (env.cores_mem left) arg)
        refl (parse_cores_list-Sized (env.cores_mem left) arg) h
  set_option-HasCores left (opt_m arg) s h = h
  set_option-HasCores left (opt_n arg) s h = h
  set_option-HasCores left (opt_b arg) s h = h
  set_option-HasCores left (opt_t arg) s h = h
  set_option-HasCores left (opt_s arg) s h = h
  set_option-HasCores left (opt_r arg) s h = h
  set_option-HasCores left (opt_o arg) s h = h
  set_option-HasCores left (opt_z arg) s h = h

During-and_then :
    (P Q : Settings → Type 0) (r : Progress) (k : Settings → Progress)
    → During P r
    → ((s : Settings) → P s → During Q (k s))
    → During Q (and_then r k)
During-and_then P Q (running s) k h f = f s h
During-and_then P Q (exited code) k h f = tt
During-and_then P Q undefined k h f = h

module _ (env : Env) where
  read_options-HasCores :
      (opts : List Opt) (s : Settings) → HasCores s → During HasCores (read_options env opts s)
  unfolding read_options
  read_options-HasCores [] s h = h
  read_options-HasCores (o ∷ opts) s h =
      During-and_then HasCores HasCores (set_option env (length opts) o s) (read_options env opts)
        (set_option-HasCores env (length opts) o s h) (read_options-HasCores opts)

-- plat_get_topology returns an array of one core or more with its length, or an error.
abbrev pub IsSized : Topology → Type 0
IsSized (cores cids n) = (0 < n) × (length cids ≡ n)
IsSized (refused e) = Unit
IsSized Topology.undefined = ⊥

abbrev pub Ready : Settings → Type 0
Ready s = Holds s.cfg.corelist_size s.cfg.coreslist

module _ (env : Env) where
  first_cores-Ready :
      (ncores : ℕ) (s : Settings) (r : Topology)
      → IsSized r
      → During Ready (first_cores env ncores s r)
  first_cores-Ready ncores s (cores cids n) (p, e) = (omega (arith, p, e), ground arith)
  first_cores-Ready ncores s (refused e) h = tt
  first_cores-Ready ncores s Topology.undefined h = h

  choose_cores-Ready :
      (l : Option (List (Option ℕ))) (s : Settings)
      → s.cfg.coreslist ≡ l
      → IsSized (env.topology s.numa)
      → HasCores s
      → During Ready (choose_cores env l s)
  unfolding choose_cores
  choose_cores-Ready none s e sized h =
      first_cores-Ready (if s.ncores == 0 then 1 else s.ncores) s (env.topology s.numa) sized
  choose_cores-Ready (some l) s e sized (inl z) = absurd (cc)
  choose_cores-Ready (some l) s e sized (inr h) = if_rule (During Ready) (not (s.ncores == 0)) tt h

  -- What the parts of main before the benchmark leave.
  pub prepared-Ready :
      (opts : List Opt)
      → ((policy : NumaPolicy) → IsSized (env.topology policy))
      → During Ready (
          and_then
            (read_options env opts default_settings)
            (λ s. choose_cores env s.cfg.coreslist s))
  prepared-Ready opts sized =
      During-and_then HasCores Ready (read_options env opts default_settings)
        (λ s. choose_cores env s.cfg.coreslist s)
        (read_options-HasCores env opts default_settings (inl refl))
        (λ s h. choose_cores-Ready s.cfg.coreslist s refl (sized s.numa) h)
