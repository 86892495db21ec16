-- ===== src/Linux/Runs.antt =====
-- src/platform/linux.c: any sequence of operations on memory objects and mappings.
use vmopsbench.Common.{
  ℕ, Bool, Option, some, none, List, [], arith, state_of, IfAny, run_ops, run_ops-IfAny,
}
use vmopsbench.Platform.{Perm}
use vmopsbench.Linux.{
  Kernel, Sys, plat_vm_create, plat_vm_destroy, plat_vm_map, plat_vm_map_fixed, plat_vm_protect,
  plat_vm_unmap,
}
use vmopsbench.Linux.Objects.{FreshMalloc, Owned, plat_vm_create-Created, plat_vm_destroy-Destroyed}
use vmopsbench.Linux.Mapping.{FreshFile, Backed}
use vmopsbench.Linux.Steps.{
  Sound, create-Backed, Created-Owned, destroy-Backed, Destroyed-Owned, map_any-Sound, map_at-Sound,
  protect-Sound, unmap-Sound,
}

-- The operations of platform.h on virtual memory, with their arguments.
pub data Op : Type 0 where
  create : (path : List ℕ) (size : ℕ) (huge : Bool) → Op
  destroy : (memobj : ℕ) → Op
  map_any : (size memobj offset : ℕ) (huge : Bool) → Op
  map_at : (addr size memobj offset : ℕ) (huge : Bool) → Op
  protect : (addr size : ℕ) → Perm → Op
  unmap : (addr size : ℕ) → Op

-- The state after one operation; `none` is an access of memory that holds no object.
abbrev pub perform : Kernel → Op → Sys → Option Sys
perform kernel (create path size huge) s = some (plat_vm_create kernel path size huge s).1
perform kernel (destroy memobj) s = state_of (plat_vm_destroy kernel memobj s)
perform kernel (map_any size memobj offset huge) s =
    state_of (plat_vm_map kernel size memobj offset huge s)
perform kernel (map_at addr size memobj offset huge) s =
    state_of (plat_vm_map_fixed kernel addr size memobj offset huge s)
perform kernel (protect addr size perms) s = some (plat_vm_protect kernel addr size perms s).1
perform kernel (unmap addr size) s = some (plat_vm_unmap kernel addr size s).1

-- No object, and no call yet.
abbrev pub start : Sys
start = record { trace = []; live = [] }

module _ (kernel : Kernel) (fresh : FreshMalloc kernel) (new : FreshFile kernel) where
  both : (r : Option Sys) → IfAny Owned r → IfAny Backed r → IfAny Sound r
  both none w b = tt
  both (some s) w b = (w, b)

  perform-Sound : (op : Op) (s : Sys) → Sound s → IfAny Sound (perform kernel op s)
  perform-Sound (create path size huge) s (w, b) = (
    Created-Owned kernel fresh new path size s (plat_vm_create kernel path size huge s)
        (plat_vm_create-Created kernel fresh path size huge s w),
    create-Backed kernel fresh new path size huge s b,
  )
  perform-Sound (destroy p) s (w, b) =
      both (state_of (plat_vm_destroy kernel p s))
        (Destroyed-Owned kernel fresh new p s (plat_vm_destroy kernel p s)
          (plat_vm_destroy-Destroyed kernel p s w))
        (destroy-Backed kernel fresh new p s b)
  perform-Sound (map_any size p offset huge) s h =
      map_any-Sound kernel fresh new size p offset huge s h
  perform-Sound (map_at addr size p offset huge) s h =
      map_at-Sound kernel fresh new addr size p offset huge s h
  perform-Sound (protect addr size perms) s h = protect-Sound kernel fresh new addr size perms s h
  perform-Sound (unmap addr size) s h = unmap-Sound kernel fresh new addr size s h

-- The Linux backend after any sequence of operations with any arguments, as long as none of them is
-- given a pointer to memory that holds no object, over an allocator that returns no memory in use and
-- a kernel that returns no descriptor in use: exactly the memory of the objects that stand is
-- allocated, the file of each has the size that was asked for, and every mapping that was requested
-- lay within its file, unless offset + size does not fit into 64 bits.
pub run_in_files :
    (kernel : Kernel) (ops : List Op)
    → FreshMalloc kernel
    → FreshFile kernel
    → IfAny Sound (run_ops (perform kernel) ops start)
run_in_files kernel ops fresh new =
    run_ops-IfAny (perform kernel) Sound (perform-Sound kernel fresh new) ops start
      (λ x. omega arith, (tt, tt))
