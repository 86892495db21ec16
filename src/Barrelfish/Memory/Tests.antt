-- ===== src/Barrelfish/Memory/Tests.antt =====
-- Two objects and fixed mappings of one on two cores, and the theorem at them.
use vmopsbench.Common.{
  suc, ◌+◌, ◌≡◌, refl, true, false, Option, some, none, List, [], ◌∷◌, map, length, arith, find,
  remove, IfAny, run_ops,
}
use vmopsbench.Platform.{read_only}
use vmopsbench.Barrelfish.Regions.{Region}
use vmopsbench.Barrelfish.Regions.Ordered.{FreshBlocks}
use vmopsbench.Barrelfish.Memory.{
  System, Call, Event, Sys, start, plat_vm_create, plat_vm_destroy, plat_vm_map, plat_vm_map_fixed,
  plat_vm_protect, plat_vm_unmap,
}
use vmopsbench.Barrelfish.Memory.Steps.{regions}
use vmopsbench.Barrelfish.Memory.Accounts.{
  perform, Op, create, destroy, map_any, map_at, protect, unmap, Accounted, run_ops_accounts,
}

abbrev sys : System
sys = record {
  reply = λ t c. record { ok = true; value = suc (length t) + 8192 };
  is_null = λ slot. false;
  blocks = λ i. some (i + 7);
}

sys-FreshBlocks : FreshBlocks sys.blocks
sys-FreshBlocks i j b e k = ground arith

abbrev ops : List Op
ops =
    create 8192
    ∷ map_at 0 65536 4096 8193 0 false
    ∷ map_at 1 131072 4096 8193 4096 false
    ∷ map_at 0 65536 4096 8193 0 false
    ∷ protect 65536 4096 read_only
    ∷ unmap 65536 4096
    ∷ destroy 8193
    ∷ []

run_ops_accounts_example : IfAny Accounted (run_ops (perform sys) ops start)
run_ops_accounts_example = run_ops_accounts sys ops sys-FreshBlocks

abbrev regions_of : Option Sys → List Region
regions_of none = []
regions_of (some s) = regions s.trace

ops_regions :
    regions_of (run_ops (perform sys) ops start)
    ≡ record { block = 7; index = 1 }
      ∷ record { block = 8; index = 0 }
      ∷ record { block = 7; index = 0 }
      ∷ []
unfolding plat_vm_create plat_vm_map_fixed plat_vm_protect plat_vm_unmap plat_vm_destroy find remove
ops_regions = refl

-- The offset of a mapping does not reach the system.
abbrev calls_of : Option Sys → List Call
calls_of none = []
calls_of (some s) = map (λ (e : Event). e.call) s.trace

abbrev heap : Sys
heap = record start { live = (9, record { slot = 0; bytes = 8192 }) ∷ [] }

offset_is_dropped :
    calls_of (run_ops (perform sys) (map_any 4096 9 4096 false ∷ []) heap)
    ≡ calls_of (run_ops (perform sys) (map_any 4096 9 0 false ∷ []) heap)
unfolding plat_vm_map find
offset_is_dropped = refl
