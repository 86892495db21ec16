-- ===== src/Options.antt =====
-- src/benchmarks/utils.c, option parsing and printing: the suffix of a benchmark's name.
pub mod Grammar
pub mod Parse
mod Tests
use vmopsbench.Common.{
  ℕ, zero, suc, Bool, true, false, ◌&&◌, ◌||◌, not, List, [], ◌∷◌, ◌++◌, if◌then◌else◌, codes,
  strncmp_eq, drop, length,
}
use vmopsbench.Config.{Cfg, Status, success, failure}

-- The local flags of vmops_utils_parse_options.
pub record Flags : Type 0 where
  pub shared : Bool
  pub independent : Bool
  pub isolated : Bool
  pub map4k : Bool

abbrev pub no_flags : Flags
no_flags = record { shared = false; independent = false; isolated = false; map4k = false }

-- How the loop ends; `out_of_fuel` is the model's alone.
pub data Scanned : Type 0 where
  scanned : Flags → Scanned
  unknown_option : Scanned
  out_of_fuel : Scanned

-- The `while (*current)` loop. What a `let` binds is computed only where it is chosen.
pub scan : ℕ → List ℕ → Flags → Scanned
scan zero current f = out_of_fuel
scan (suc fuel) [] f = scanned f
scan (suc fuel) (c ∷ rest) f =
    let current = c ∷ rest in
    let on_shared = scan fuel (drop 7 current) (record f { shared = true }) in
    let on_independent = scan fuel (drop 12 current) (record f { independent = true }) in
    let on_4k = scan fuel (drop 3 current) (record f { map4k = true }) in
    let on_isolated = scan fuel (drop 9 current) (record f { isolated = true }) in
    if strncmp_eq current (codes "-shared") 7
    then on_shared
    else if strncmp_eq current (codes "-independent") 12
    then on_independent
    else if strncmp_eq current (codes "-4k") 3
    then on_4k
    else if strncmp_eq current (codes "-isolated") 9
    then on_isolated
    else unknown_option

-- The checks after the loop, and the writes to the configuration.
pub apply_flags : Flags → Cfg → Status × Cfg
apply_flags f cfg = if f.shared && f.independent then (failure, cfg) else (
  success,
  record cfg {
    shared = if not (f.shared || f.independent) then true else f.shared;
    isolated = f.isolated;
    map4k = f.map4k;
  },
)

pub finish : Scanned → Cfg → Status × Cfg
finish (scanned f) cfg = apply_flags f cfg
finish unknown_option cfg = (failure, cfg)
finish out_of_fuel cfg = (failure, cfg)

-- vmops_utils_parse_options
pub parse_options : List ℕ → Cfg → Status × Cfg
parse_options opts cfg = finish (scan (suc (length opts)) opts no_flags) cfg

-- vmops_utils_print_options, before the copy into the buffer of 256 bytes
pub print_options : Cfg → List ℕ
print_options cfg =
    (if cfg.nounmap then codes "nounmap, " else [])
    ++ ((if cfg.shared then codes "shared" else codes "independent")
        ++ (codes ", "
            ++ ((if cfg.isolated then codes "isolated" else codes "default")
                ++ (codes ", "
                    ++ (if cfg.map4k
                        then codes "many 4k mappings"
                        else codes "one large mapping")))))
