-- ===== src/Platform.antt =====
-- src/platform/platform.h: the error codes, permissions, page sizes and time of every backend.
use vmopsbench.Common.{ℕ}

-- plat_error_t
pub data PlatError : Type 0 where
  err_ok err_args_invalid err_init_failed err_no_mem err_memobj_create err_memobj_size : PlatError
  err_map_failed err_protect_failed err_unmap_failed err_thread_create : PlatError
  err_thread_join err_file_open err_barrier : PlatError

-- plat_perm_t
pub data Perm : Type 0 where
  read_only read_write : Perm

-- plat_topo_numa_t
pub data NumaPolicy : Type 0 where
  numa_fill numa_interleave : NumaPolicy

-- PLAT_ARCH_BASE_PAGE_SIZE
abbrev pub base_page_size : ℕ
base_page_size = 4096

-- PLAT_ARCH_HUGE_PAGE_SIZE
abbrev pub huge_page_size : ℕ
huge_page_size = 2097152

-- UINT64_MAX + 1, the modulus of uint64_t, size_t and plat_time_t
abbrev pub u64_mod : ℕ
u64_mod = 18446744073709551616

-- the modulus of uint32_t
abbrev pub u32_mod : ℕ
u32_mod = 4294967296

-- PLAT_TIME_MAX, and SIZE_MAX
abbrev pub time_max : ℕ
time_max = 18446744073709551615
