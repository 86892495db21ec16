-- ===== src/Program/Tests.antt =====
-- A machine of two nodes with two CPUs each, and the theorem at a command line.
use vmopsbench.Common.{◌%◌, true, ◌==◌, none, List, [], ◌∷◌, codes}
use vmopsbench.Topology.{Numa}
use vmopsbench.Settings.{Opt, opt_p, opt_b, opt_m}
use vmopsbench.Linux.Tests.{kernel, path_of, threads}
use vmopsbench.Program.{Machine}

-- The even CPUs are on node 0.
abbrev numa : Numa
numa = record {
  available = true;
  nprocs = 4;
  nproc = 4;
  nnodes = 2;
  is_set = λ node cpu. cpu % 2 == node;
  mask_allocated = λ node. true;
  cpus_read = λ node. true;
  nodes_mem = true;
  cids_mem = true;
}

abbrev machine : Machine
machine = record {
  numa = numa;
  kernel = kernel;
  path_of = path_of;
  threads = threads;
  fopen = λ left path. none;
  cores_mem = λ left. true;
  args_mem = true;
  vals_mem = true;
  done = 64;
}

-- -p 2 -m 8192 -b mapunmap-isolated
abbrev line : List Opt
line = opt_p (codes "2") ∷ opt_m (codes "8192") ∷ opt_b (codes "mapunmap-isolated") ∷ []
