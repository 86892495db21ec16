-- ===== src/Settings.antt =====
-- src/main.c, main: the options of the command line, and the choice of the cores.
pub mod LastOption
pub mod Selection
mod Tests
use vmopsbench.Common.{
  ℕ, ◌+◌, ◌%◌, Bool, true, false, ◌&&◌, ◌||◌, not, if◌then◌else◌, ◌==◌, ltb, leb, Option, some,
  none, List, [], ◌∷◌, ◌++◌, codes, strncmp_eq, drop, length, strtoul,
}
use vmopsbench.Config.{Cfg, Status, success, failure}
use vmopsbench.Platform.{NumaPolicy, numa_fill, numa_interleave, u32_mod, huge_page_size}
use vmopsbench.Cores.{parse_cores_list}
use vmopsbench.Cores
use vmopsbench.Topology.{Topology, cores, refused}
use vmopsbench.Topology
use vmopsbench.Args
use vmopsbench.Runner
use vmopsbench.Driver.{Machine, run_mapunmap, run_protect, run_protect_elevate, run_tlbshoot}
use vmopsbench.Driver

-- A result of getopt: the letter, with optarg where the letter takes one; `opt_other` is any result
-- that has no case in the switch.
pub data Opt : Type 0 where
  opt_l opt_i opt_h opt_other : Opt
  opt_p opt_c opt_m opt_n opt_b opt_t opt_s opt_r opt_o opt_z : (optarg : List ℕ) → Opt

-- A stream of the C library: stdout, or the one that a call of fopen returned.
pub data Stream : Type 0 where
  stdout : Stream
  opened : (file : ℕ) → Stream

-- What main asks of the system. `left` is the number of options after the one that asks; fopen
-- returns NULL as none.
pub record Env : Type 0 where
  pub fopen : (left : ℕ) (path : List ℕ) → Option ℕ
  pub cores_mem : (left : ℕ) → Bool
  pub topology : NumaPolicy → Topology
  pub machine : Machine
  pub done : ℕ

-- The variables that the option loop writes.
pub record Settings : Type 0 where
  pub cfg : Cfg
  pub ncores : ℕ
  pub numa : NumaPolicy
  pub thptout : Stream
  pub latout : Stream

-- (uint32_t) strtoul(s, NULL, 10); the same bits as the int32_t
abbrev pub to_u32 : List ℕ → ℕ
to_u32 s = strtoul s % u32_mod

-- -1 as an int32_t
abbrev pub no_rate : ℕ
no_rate = 4294967295

-- DEFAULT_SAMPLING_RATE_MS
abbrev pub default_rate : ℕ
default_rate = 0

-- The static configuration, with the benchmark that main puts in.
abbrev pub default_cfg : Cfg
default_cfg = record {
  benchmark = codes "mapunmap";
  coreslist = none;
  corelist_size = 0;
  memsize = 4096;
  nops = 0;
  time_ms = 10;
  stats = 0;
  rate = no_rate;
  nounmap = false;
  shared = true;
  isolated = false;
  map4k = false;
  maphuge = false;
  numainterleave = false;
}

abbrev pub default_settings : Settings
default_settings = record {
  cfg = default_cfg;
  ncores = 0;
  numa = numa_fill;
  thptout = stdout;
  latout = stdout;
}

-- A part of main goes on with its variables, ends the process, or is undefined.
pub data Progress : Type 0 where
  running : Settings → Progress
  exited : Status → Progress
  undefined : Progress

abbrev pub and_then : Progress → (Settings → Progress) → Progress
and_then (running s) k = k s
and_then (exited code) k = exited code
and_then undefined k = undefined

-- parse_cores_list(optarg, &cfg.coreslist, &cfg.corelist_size), whose result main ignores
abbrev pub take_cores : Settings → Cores.Outcome → Progress
take_cores s (Cores.parsed l n) =
    running (record s { cfg = record s.cfg { coreslist = some l; corelist_size = n % u32_mod } })
take_cores s Cores.no_memory = running s
take_cores s Cores.exits = exited failure
take_cores s Cores.out_of_bounds = undefined
take_cores s Cores.out_of_fuel = undefined

-- The file, or stdout when it cannot be opened.
abbrev pub stream_of : Option ℕ → Stream
stream_of none = stdout
stream_of (some file) = opened file

module _ (env : Env) where
  -- The switch.
  unfoldable pub set_option : (left : ℕ) → Opt → Settings → Progress
  set_option left opt_l s = running (record s { cfg = record s.cfg { maphuge = true } })
  set_option left (opt_p arg) s = running (record s { ncores = to_u32 arg })
  set_option left (opt_c arg) s = take_cores s (parse_cores_list (env.cores_mem left) arg)
  set_option left opt_i s =
      running (record s { numa = numa_interleave; cfg = record s.cfg { numainterleave = true } })
  set_option left (opt_m arg) s =
      running (record s { cfg = record s.cfg { memsize = strtoul arg } })
  set_option left (opt_n arg) s =
      running (record s { cfg = record s.cfg { nops = strtoul arg; time_ms = 0 } })
  set_option left (opt_b arg) s = running (record s { cfg = record s.cfg { benchmark = arg } })
  set_option left (opt_t arg) s = running (record s { cfg = record s.cfg { time_ms = to_u32 arg } })
  set_option left (opt_s arg) s = running (record s { cfg = record s.cfg { stats = to_u32 arg } })
  set_option left (opt_r arg) s = running (record s { cfg = record s.cfg { rate = to_u32 arg } })
  set_option left (opt_o arg) s = running (record s { thptout = stream_of (env.fopen left arg) })
  set_option left (opt_z arg) s = running (record s { latout = stream_of (env.fopen left arg) })
  set_option left opt_h s = exited success
  set_option left opt_other s = exited failure

  -- while ((opt = getopt(...)) != -1) switch (opt)
  unfoldable pub read_options : List Opt → Settings → Progress
  unfolding set_option
  read_options [] s = running s
  read_options (o ∷ opts) s = and_then (set_option (length opts) o s) (read_options opts)

  -- The cores of the topology, of which the first `ncores` are used.
  abbrev pub first_cores : (ncores : ℕ) → Settings → Topology → Progress
  first_cores ncores s (cores cids n) = running (record s {
    cfg = record s.cfg {
      coreslist = some cids;
      corelist_size = if ltb n ncores then n else ncores;
    };
    ncores = ncores;
  })
  first_cores ncores s (refused e) = exited failure
  first_cores ncores s Topology.undefined = undefined

  -- Either the list that was given, or the first cores of the topology.
  unfoldable pub choose_cores : Option (List (Option ℕ)) → Settings → Progress
  choose_cores (some l) s = if not (s.ncores == 0) then exited failure else running s
  choose_cores none s = first_cores (if s.ncores == 0 then 1 else s.ncores) s (env.topology s.numa)
