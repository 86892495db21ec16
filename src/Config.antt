-- ===== src/Config.antt =====
-- src/benchmarks/benchmarks.h: the configuration and the status that the benchmarks return.
use vmopsbench.Common.{ℕ, Bool, List, Option}

-- The status of a function that returns 0 on success and -1 on failure.
pub data Status : Type 0 where
  success failure : Status

-- What a read of an array of cores gives: `none` is a read outside of the array or through NULL,
-- `some none` a cell that was never written.
abbrev pub CoreRead : Type 0
CoreRead = Option (Option ℕ)

-- struct vmops_bench_cfg. `coreslist` is NULL or the array, `corelist_size` its length as the
-- program keeps it. The rate is the bit pattern of the int32_t.
pub record Cfg : Type 0 where
  pub benchmark : List ℕ
  pub coreslist : Option (List (Option ℕ))
  pub corelist_size : ℕ
  pub memsize : ℕ
  pub nops : ℕ
  pub time_ms : ℕ
  pub stats : ℕ
  pub rate : ℕ
  pub nounmap : Bool
  pub shared : Bool
  pub isolated : Bool
  pub map4k : Bool
  pub maphuge : Bool
  pub numainterleave : Bool
