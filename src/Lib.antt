-- ===== src/Lib.antt =====
-- A verification library for vmops-bench, a benchmark of the virtual memory operations of an
-- operating system.
--
-- The program. main.c parses the command line into a configuration and calls one of the benchmarks of
-- benchmarks/. A benchmark parses the suffix of its name (utils.c), prepares an argument block with a
-- memory object for each core (utils.c), starts a thread on each core and waits for all of them
-- (utils.c), and cleans the blocks up. A thread enters the barrier, runs a loop over virtual memory
-- calls up to a time limit or an operation limit, keeps a sample of the latencies (utils.h), enters
-- the barrier again, and writes its results. All of it stands on the functions of
-- platform/platform.h, which a backend implements (linux.c, barrelfish.c).
--
-- Where each part is, with paths from the root of the repository.
--   Common     shared names: tests on numbers, arrays as lists, strings as lists of character codes,
--              strncmp, isdigit and strtoul; structures in allocated memory by their pointers (Stores),
--              and sequences of operations that may fault (Runs)
--   Platform   src/platform/platform.h: error codes, permissions, page sizes, machine words
--   Config     src/benchmarks/benchmarks.h: struct vmops_bench_cfg
--   Options    src/benchmarks/utils.c: vmops_utils_parse_options (scan, apply_flags, parse_options)
--              and vmops_utils_print_options
--   Stats      src/benchmarks/utils.h: vmops_utils_add_stats, with the set-up of utils.c
--   Cores      src/main.c: parse_cores_list (count_cores, fill)
--   Barrier    src/platform/barrelfish.c: pthread_barrier_init and pthread_barrier_wait, as steps of
--              any number of threads on shared memory
--   Bench      src/benchmarks: the thread functions. World is a thread's view of the platform, Loop
--              the timed loop with its rule, Thread the start and the end of a measurement, Trace what
--              a sequence of calls amounts to, Isolation the addresses of isolated threads (utils.h);
--              MapUnmap is bench_run_fn and bench_run_nounmap_fn of mapunmap.c, MapPages is
--              bench_run_nounmap_4k_fn, Pages is bench_run_4k_fn of mapunmap.c and of protect.c,
--              Protect is bench_run_fn of protect.c, Elevate is protectelevate.c, TlbShoot is
--              tlbshoot.c
--   Args       src/benchmarks/utils.c: vmops_utils_prepare_args and vmops_utils_cleanup_args
--   Runner     src/benchmarks/utils.c: vmops_utils_run_benchmark
--   Report     src/benchmarks/utils.c and src/logging.h: vmops_utils_print_csv; Cells is what is printed
--              of the samples, Printed the report on threads that have run, Prepared the same on the
--              blocks that Args prepares. Floats is the arithmetic of doubles, of which nothing is
--              assumed
--   Topology   src/platform/linux.c: plat_get_topology
--   Settings   src/main.c: the option loop of main (set_option, read_options) and the choice of the cores
--              (choose_cores); LastOption is its description by the last option, Selection what it
--              leaves
--   Main       src/main.c: main from the corrections of the configuration on (correct, select,
--              run_selected, launch, main), which composes Settings and Driver
--   Linux      src/platform/linux.c: the memory objects and their mappings over the kernel (plat_vm_*);
--              Objects is their memory, Mapping their files, Steps and Runs sequences of operations,
--              Backend the same as the platform of Args, Refines that it does what Args assumes, and
--              Faultless that no freed object is accessed;
--              Threads is plat_thread_start, _cancel, _join and the barrier functions; Clock is
--              plat_get_time, plat_convert_time and plat_save_logs
--   Program    the program on Linux: main with the topology and the memory objects of linux.c
--   Barrelfish src/platform/barrelfish.c: Topology is plat_get_topology, Regions alloc_vregion, Memory
--              the memory objects and their mappings, Init plat_init, Threads the threads
--   Driver     src/benchmarks: the entry points of the four benchmarks, which compose the parts above
--
-- How code becomes a definition. A function of the platform is no code of the parts above it: it is
-- a reply for each call after each history of calls, and the theorems hold for every such function,
-- or for those that do what a named hypothesis says. Each call is put on a trace with its reply,
-- the latest first. A pointer is a number, NULL is 0, and a cell that was never written is none. A read
-- of the list of cores keeps apart a cell that was never written and a read outside of the array (Config,
-- CoreRead); the report ends in such a read.
-- Words of 32 and 64 bits wrap around as written out with %, but for the counter of operations,
-- which never passes the operation limit, a size_t. A loop is a recursion on its array or on fuel:
-- scan has one more than the length of the string, each round consuming a character; the timed loop
-- one more than the operation limit; the preparation of the elevation one more than the size to be
-- mapped, since each round advances by at least one byte; a helper of the TLB shootdown spins on
-- fuel that is an argument, since how long it spins is up to thread 0, and so does the wait of plat_init
-- on Barrelfish, for the callbacks. Where fuel could run out, the result has a case for it, and the
-- theorems exclude it or say what it means.
--
-- The command line is the sequence of results of getopt, which the theorems about main take as it
-- comes. The kernel, the allocator, libnuma and the libraries of Barrelfish are parameters: replies
-- after each history, or records of answers. Allocated structures are in lists by their pointers; an
-- access of memory that holds none is a fault of the model, an Option.
--
-- Not modelled. The log messages, the clock of Barrelfish and the conversion of times to floating point
-- are output or calls of the system only. The effect of plat_init on the rest of main is left out: both
-- backends only read the configuration. The contents of mapped memory are not modelled. Memory that
-- main and utils.c free is not tracked; that of the backends is.
pub mod Common
pub mod Platform
pub mod Config
pub mod Options
pub mod Stats
pub mod Cores
pub mod Barrier
pub mod Bench
pub mod Args
pub mod Runner
pub mod Driver
pub mod Report
pub mod Topology
pub mod Settings
pub mod Main
pub mod Linux
pub mod Barrelfish
pub mod Program
