-- ===== src/Stats.antt =====
-- src/benchmarks/utils.h, statistics: the sampling of operation latencies into a fixed buffer.
pub mod Sampling
pub mod Rate
mod Tests
use vmopsbench.Common.{
  ℕ, ◌+◌, ◌-◌, ◌%◌, Bool, List, [], ◌∷◌, if◌then◌else◌, ◌==◌, ltb, set, Option, some, none, not,
  replicate,
}
use vmopsbench.Platform.{u64_mod}

-- struct statval
pub record Statval : Type 0 where
  pub tid : ℕ
  pub t_elapsed : ℕ
  pub counter : ℕ
  pub val : ℕ

-- struct vmops_stats. A cell of `values` that was never written is `none`.
pub record Stats : Type 0 where
  pub values : List (Option Statval)
  pub idx : ℕ
  pub idx_max : ℕ
  pub dryrun : ℕ
  pub sampling_delta : ℕ
  pub sampling_next : ℕ

-- The statistics of one thread as vmops_utils_prepare_args sets them up, for `n` samples.
unfoldable pub fresh : (n delta : ℕ) → Stats
fresh n delta = record {
  values = replicate n none;
  idx = 0;
  idx_max = n;
  dryrun = 10;
  sampling_delta = delta;
  sampling_next = 0;
}

-- vmops_utils_add_stats
unfoldable pub add_stats : Stats → (tid ops t_elapsed val : ℕ) → Stats
add_stats s tid ops t_elapsed val =
    if not (s.dryrun == 0)
    then record s { dryrun = s.dryrun - 1 }
    else if ltb t_elapsed s.sampling_next
    then s
    else if s.idx == s.idx_max
    then s
    else record s {
      values =
          set s.values s.idx
            (some (record { tid = tid; t_elapsed = t_elapsed; counter = ops; val = val }));
      idx = (s.idx + 1) % u64_mod;
      sampling_next = (t_elapsed + s.sampling_delta) % u64_mod;
    }
