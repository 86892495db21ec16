-- ===== src/Linux/Tests.antt =====
-- A kernel with one memory object in all, and the theorems at it.
use vmopsbench.Common.{
  ℕ, ◌≡◌, refl, Bool, true, false, map, Option, some, none, List, [], ◌∷◌, arith, codes, find,
  remove, IfAny, run_ops,
}
use vmopsbench.Platform.{read_only}
use vmopsbench.Args.{Name}
use vmopsbench.Args.Objects.{IsFresh}
use vmopsbench.Args.Leak.{LeavesNull}
use vmopsbench.Runner
use vmopsbench.Linux.{
  Call, malloc, memfd_create, ftruncate, mmap, mprotect, munmap, free, shm_unlink, Reply, Event,
  Kernel, Sys, plat_vm_create, plat_vm_map, plat_vm_map_fixed, plat_vm_protect, plat_vm_destroy,
}
use vmopsbench.Linux.Objects.{FreshMalloc}
use vmopsbench.Linux.Mapping.{FreshFile, file_size}
use vmopsbench.Linux.Steps.{Sound}
use vmopsbench.Linux.Runs.{
  perform, Op, create, destroy, map_any, map_at, protect, start, run_in_files,
}
use vmopsbench.Linux.Backend.{linux_os}
use vmopsbench.Linux.Refines.{linux_os_refines}

abbrev pub failed : Reply
failed = record { ok = false; value = 0 }

abbrev pub first_reply : List Event → Reply
first_reply [] = record { ok = true; value = 9 }
first_reply (e ∷ t) = failed

abbrev pub file_reply : Call → Reply
file_reply (malloc size) = record { ok = true; value = 3 }
file_reply _ = failed

abbrev pub second_reply : List Event → Reply
second_reply [] = failed
second_reply (e ∷ []) = file_reply e.call
second_reply (e ∷ (d ∷ t)) = failed

abbrev pub kernel : Kernel
kernel t (malloc size) = first_reply t
kernel t (memfd_create name huge) = second_reply t
kernel t _ = record { ok = true; value = 65536 }

pub kernel-FreshMalloc : FreshMalloc kernel
kernel-FreshMalloc [] size e = (λ z. omega (arith, z), refl)
kernel-FreshMalloc (d ∷ t) size e = absurd (cc)

after_first :
    (c : Call) (r : Reply) (name : List ℕ) (huge : Bool)
    → (file_reply c).ok ≡ true
    → file_size (file_reply c).value (record { call = c; reply = r } ∷ []) ≡ none
after_first (malloc size) r name huge e = refl
after_first (free p) r name huge e = absurd (cc)
after_first (memfd_create n h) r name huge e = absurd (cc)
after_first (ftruncate fd size) r name huge e = absurd (cc)
after_first (shm_unlink n) r name huge e = absurd (cc)
after_first (mmap fixed size h fd offset) r name huge e = absurd (cc)
after_first (mprotect addr size w) r name huge e = absurd (cc)
after_first (munmap addr size) r name huge e = absurd (cc)

kernel-FreshFile : FreshFile kernel
kernel-FreshFile [] name huge e = absurd (cc)
kernel-FreshFile (d ∷ []) name huge e = after_first d.call d.reply name huge e
kernel-FreshFile (d ∷ (d' ∷ t)) name huge e = absurd (cc)

-- The second mapping is larger than the object, and is refused.
abbrev ops : List Op
ops =
    create (codes "obj") 8192 false
    ∷ map_any 4096 9 4096 false
    ∷ map_at 65536 4096 9 8192 false
    ∷ protect 65536 4096 read_only
    ∷ destroy 9
    ∷ []

run_in_files_example : IfAny Sound (run_ops (perform kernel) ops start)
run_in_files_example = run_in_files kernel ops kernel-FreshMalloc kernel-FreshFile

abbrev calls_of : Option Sys → List Call
calls_of none = []
calls_of (some s) = map (λ (e : Event). e.call) s.trace

-- The calls of the sequence, the latest first.
ops_calls :
    calls_of (run_ops (perform kernel) ops start)
    ≡ free 9
      ∷ mprotect 65536 4096 false
      ∷ mmap none 4096 false 3 4096
      ∷ ftruncate 3 8192
      ∷ memfd_create (codes "obj") false
      ∷ malloc 20
      ∷ []
unfolding plat_vm_create plat_vm_map plat_vm_map_fixed plat_vm_protect plat_vm_destroy find remove
ops_calls = refl

abbrev pub path_of : Name → List ℕ
path_of name = codes "obj"

linux_os_refines_example : IsFresh (linux_os kernel path_of) × LeavesNull (linux_os kernel path_of)
linux_os_refines_example = linux_os_refines kernel path_of kernel-FreshMalloc

abbrev pub threads : Runner.Os
threads t c = record { ok = true; value = 7 }
