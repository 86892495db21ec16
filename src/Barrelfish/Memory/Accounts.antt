-- ===== src/Barrelfish/Memory/Accounts.antt =====
-- src/platform/barrelfish.c: memory, frames and regions over any sequence of operations.
use vmopsbench.Common.{
  ℕ, Bool, Option, some, none, List, arith, state_of, IfAny, run_ops, run_ops-IfAny,
}
use vmopsbench.Platform.{Perm}
use vmopsbench.Barrelfish.Regions.Ordered.{Distinct, FreshBlocks}
use vmopsbench.Barrelfish.Regions.Apart.{no_regions-Ordered}
use vmopsbench.Barrelfish.Memory.{
  System, Sys, plat_vm_create, plat_vm_destroy, plat_vm_map, plat_vm_map_fixed, plat_vm_protect,
  plat_vm_unmap, start,
}
use vmopsbench.Barrelfish.Memory.Steps.{
  Balanced, regions, Sound, create-Sound, destroy-Sound, map_any-Sound, map_at-Sound, protect-Sound,
  unmap-Sound,
}

-- The operations of platform.h on virtual memory, each with the core that it runs on where this
-- matters.
pub data Op : Type 0 where
  create : (size : ℕ) → Op
  destroy : (memobj : ℕ) → Op
  map_any : (size memobj offset : ℕ) (huge : Bool) → Op
  map_at : (cid addr size memobj offset : ℕ) (huge : Bool) → Op
  protect : (addr size : ℕ) → Perm → Op
  unmap : (addr size : ℕ) → Op

-- The state after one operation; `none` is an access of memory that holds no object.
abbrev pub perform : System → Op → Sys → Option Sys
perform sys (create size) s = some (plat_vm_create sys size s).1
perform sys (destroy memobj) s = state_of (plat_vm_destroy sys memobj s)
perform sys (map_any size memobj offset huge) s =
    state_of (plat_vm_map sys size memobj offset huge s)
perform sys (map_at cid addr size memobj offset huge) s =
    state_of (plat_vm_map_fixed sys cid addr size memobj offset huge s)
perform sys (protect addr size perms) s = some (plat_vm_protect sys addr size perms s).1
perform sys (unmap addr size) s = some (plat_vm_unmap sys addr size s).1

module _ (sys : System) where
  perform-Sound :
      (op : Op) (s : Sys)
      → FreshBlocks sys.blocks
      → Sound sys s
      → IfAny (Sound sys) (perform sys op s)
  perform-Sound (create size) s fresh h = create-Sound sys size s h
  perform-Sound (destroy p) s fresh h = destroy-Sound sys p s h
  perform-Sound (map_any size p offset huge) s fresh h = map_any-Sound sys size p offset huge s h
  perform-Sound (map_at cid addr size p offset huge) s fresh h =
      map_at-Sound sys cid addr size p offset huge s fresh h
  perform-Sound (protect addr size perms) s fresh h = protect-Sound sys addr size perms s h
  perform-Sound (unmap addr size) s fresh h = unmap-Sound sys addr size s h

-- What holds after a run: the accounts, and that no two fixed mappings have had the same region.
abbrev pub Accounted : Sys → Type 0
Accounted s = Balanced s × Distinct (regions s.trace)

Sound-Accounted : (sys : System) (r : Option Sys) → IfAny (Sound sys) r → IfAny Accounted r
Sound-Accounted sys none h = tt
Sound-Accounted sys (some s) (b, o) = (b, o.distinct)

-- The Barrelfish backend after any sequence of operations on any cores, whatever the calls of the
-- system return, as long as none is given a pointer to memory that holds no object, and no block of
-- regions is given twice: exactly the memory of the objects that stand is allocated, every frame that
-- was allocated is destroyed again, its copy apart, and no two fixed mappings that were requested, on
-- whichever cores, have used the same region.
pub run_ops_accounts :
    (sys : System) (ops : List Op)
    → FreshBlocks sys.blocks
    → IfAny Accounted (run_ops (perform sys) ops start)
run_ops_accounts sys ops fresh = Sound-Accounted sys (run_ops (perform sys) ops start) (
    run_ops-IfAny (perform sys) (Sound sys) (λ op s h. perform-Sound sys op s fresh h) ops start
      (λ x. (omega arith, omega arith), no_regions-Ordered sys.blocks))
