-- ===== src/Program.antt =====
-- The program on Linux: main of src/main.c with the topology and the memory objects of
-- src/platform/linux.c.
pub mod Regular
pub mod Whole
mod Tests
use vmopsbench.Common.{ℕ, Bool, Option, List}
use vmopsbench.Topology.{Numa, get_topology}
use vmopsbench.Args.{Name}
use vmopsbench.Runner
use vmopsbench.Settings.{Env}
use vmopsbench.Linux.{Kernel}
use vmopsbench.Linux.Backend.{linux_os}

-- What the program is given: libnuma, the kernel, the threads, the C library and its memory.
pub record Machine : Type 0 where
  pub numa : Numa
  pub kernel : Kernel
  pub path_of : Name → List ℕ
  pub threads : Runner.Os
  pub fopen : (left : ℕ) (path : List ℕ) → Option ℕ
  pub cores_mem : (left : ℕ) → Bool
  pub args_mem : Bool
  pub vals_mem : Bool
  pub done : ℕ

abbrev pub linux_env : Machine → Env
linux_env m = record {
  fopen = m.fopen;
  cores_mem = m.cores_mem;
  topology = get_topology m.numa;
  machine = record {
    objects = linux_os m.kernel m.path_of;
    threads = m.threads;
    args_mem = m.args_mem;
    vals_mem = m.vals_mem;
  };
  done = m.done;
}
