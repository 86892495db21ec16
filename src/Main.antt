-- ===== src/Main.antt =====
-- src/main.c, main: from the options of the command line to the benchmark that it runs.
pub mod Dispatch
pub mod Launch
mod Tests
use vmopsbench.Common.{
  ℕ, ◌+◌, ◌%◌, Bool, true, false, ◌&&◌, ◌||◌, not, if◌then◌else◌, ◌==◌, ltb, leb, Option, some,
  none, List, [], ◌∷◌, ◌++◌, codes, strncmp_eq, drop, length, strtoul,
}
use vmopsbench.Config.{Cfg, Status, success, failure}
use vmopsbench.Platform.{NumaPolicy, numa_fill, numa_interleave, u32_mod, huge_page_size}
use vmopsbench.Cores.{parse_cores_list}
use vmopsbench.Cores
use vmopsbench.Topology.{Topology, cores, refused}
use vmopsbench.Topology
use vmopsbench.Args
use vmopsbench.Runner
use vmopsbench.Driver.{Machine, run_mapunmap, run_protect, run_protect_elevate, run_tlbshoot}
use vmopsbench.Driver
use vmopsbench.Settings.{
  Opt, Stream, stdout, opened, Env, Settings, no_rate, default_rate, default_settings, Progress,
  running, exited, undefined, and_then, read_options, choose_cores,
}

-- The corrections of the memory size and the rate.
unfoldable pub correct : Cfg → Cfg
correct cfg = record cfg {
  memsize = if cfg.maphuge && ltb cfg.memsize huge_page_size then huge_page_size else cfg.memsize;
  rate = if cfg.rate == no_rate then default_rate else cfg.rate;
}

-- The reads of the list for the log: cfg.coreslist[0], and those below corelist_size.
abbrev pub printable : Cfg → Bool
printable cfg = elim cfg.coreslist [
  | none ↦ false
  | some l ↦ ltb 0 (length l) && leb cfg.corelist_size (length l)
]

pub data Benchmark : Type 0 where
  mapunmap maponly protect elevate tlbshoot : Benchmark

-- The comparisons of cfg.benchmark, with the options that the benchmark is given.
unfoldable pub select : (name : List ℕ) → Option (Benchmark × List ℕ)
select name =
    if strncmp_eq name (codes "mapunmap") 8
    then some (mapunmap, drop 8 name)
    else if strncmp_eq name (codes "maponly") 7
    then some (maponly, drop 7 name)
    else if strncmp_eq name (codes "protect") 7
    then some (protect, drop 7 name)
    else if strncmp_eq name (codes "elevate") 7
    then some (elevate, drop 7 name)
    else if strncmp_eq name (codes "tlbshoot") 8
    then some (tlbshoot, drop 8 name)
    else none

-- How main ends: its status, the configuration at the end of the selection, what the benchmark has
-- done if one is run, and the streams that it closes.
pub record Run : Type 0 where
  pub code : Status
  pub cfg : Cfg
  pub outcome : Option Driver.Outcome
  pub closed : List ℕ

pub data Exit : Type 0 where
  returned : Run → Exit
  exit : Status → Exit
  undefined_exit : Exit

-- if (out != stdout) fclose(out)
abbrev pub close : Stream → List ℕ
close stdout = []
close (opened file) = file ∷ []

module _ (env : Env) (t : List Args.Event) (u : List Runner.Event) where
  -- The call of the benchmark, whose result is only logged.
  unfoldable pub run_selected : Cfg → Option (Benchmark × List ℕ) → Cfg × Option Driver.Outcome
  run_selected cfg none = (cfg, none)
  run_selected cfg (some (mapunmap, opts)) = (cfg, some (run_mapunmap env.machine opts cfg t u))
  run_selected cfg (some (maponly, opts)) =
      let cfg' = record cfg { nounmap = true } in
      (cfg', some (run_mapunmap env.machine opts cfg' t u))
  run_selected cfg (some (protect, opts)) = (cfg, some (run_protect env.machine opts cfg t u))
  run_selected cfg (some (elevate, opts)) =
      (cfg, some (run_protect_elevate env.machine opts cfg t u))
  run_selected cfg (some (tlbshoot, opts)) =
      (cfg, some (run_tlbshoot env.machine env.done opts cfg t u))

  -- What follows the choice of the cores.
  unfoldable pub launch : Progress → Exit
  unfolding correct run_selected select
  launch (exited code) = exit code
  launch undefined = undefined_exit
  launch (running s) =
      let cfg = correct s.cfg in
      let (cfg', o) = run_selected cfg (select cfg.benchmark) in
      if printable cfg
      then returned (record {
        code = success;
        cfg = cfg';
        outcome = o;
        closed = close s.thptout ++ close s.latout;
      })
      else undefined_exit

  -- main
  unfoldable pub main : List Opt → Exit
  unfolding launch read_options choose_cores
  main opts =
      launch (
        and_then (read_options env opts default_settings) (λ s. choose_cores env s.cfg.coreslist s))
