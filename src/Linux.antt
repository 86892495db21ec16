-- ===== src/Linux.antt =====
-- src/platform/linux.c: the memory objects of the Linux backend and their mappings, over the kernel
-- and the allocator.
pub mod Objects
pub mod Mapping
pub mod Steps
pub mod Runs
pub mod Threads
pub mod Backend
pub mod Refines
pub mod Faultless
pub mod Clock
pub mod Tests
use vmopsbench.Common.{
  ℕ, ◌+◌, ◌%◌, Bool, true, false, ◌||◌, not, if◌then◌else◌, ◌==◌, ltb, Option, some, none, List, [],
  ◌∷◌, length, find, remove,
}
use vmopsbench.Platform.{
  PlatError, err_ok, err_args_invalid, err_no_mem, err_memobj_create, err_map_failed,
  err_protect_failed, err_unmap_failed, Perm, read_only, read_write, u64_mod,
}

-- The calls of the kernel and of the allocator. A mapping is fixed at its address if it has one.
pub data Call : Type 0 where
  malloc : (size : ℕ) → Call
  free : (pointer : ℕ) → Call
  memfd_create : (name : List ℕ) (huge : Bool) → Call
  ftruncate : (fd size : ℕ) → Call
  shm_unlink : (name : List ℕ) → Call
  mmap : (fixed : Option ℕ) (size : ℕ) (huge : Bool) (fd offset : ℕ) → Call
  mprotect : (addr size : ℕ) (writable : Bool) → Call
  munmap : (addr size : ℕ) → Call

-- `value` is the pointer, the descriptor or the address of a call that succeeds.
pub record Reply : Type 0 where
  pub ok : Bool
  pub value : ℕ

pub record Event : Type 0 where
  pub call : Call
  pub reply : Reply

-- A reply for each call after each history, the latest call first.
abbrev pub Kernel : Type 0
Kernel = List Event → Call → Reply

-- struct plat_memobj
pub record Memobj : Type 0 where
  pub size : ℕ
  pub fd : ℕ
  pub name : List ℕ

-- The objects in allocated memory, by their pointers, and the calls so far.
pub record Sys : Type 0 where
  pub trace : List Event
  pub live : List (ℕ × Memobj)

-- plat_mobj->fd == 0 || plat_mobj->size < offset + size, in 64 bits
abbrev pub refuses : Memobj → (size offset : ℕ) → Bool
refuses o size offset = o.fd == 0 || ltb o.size ((offset + size) % u64_mod)

module _ (kernel : Kernel) where
  abbrev pub ask : Call → Sys → Reply × Sys
  ask c s =
      let r = kernel s.trace c in (r, record s { trace = record { call = c; reply = r } ∷ s.trace })

  abbrev pub tell : Call → Sys → Sys
  tell c s = (ask c s).1

  -- plat_vm_create, on pointers that are not NULL: its result, and what it writes to *memobj.
  unfoldable pub plat_vm_create :
      (path : List ℕ) (size : ℕ) (huge : Bool) → Sys → (PlatError × Option ℕ) × Sys
  plat_vm_create path size huge s =
      let (m, s1) = ask (malloc (16 + length path + 1)) s in
      let (f, s2) = ask (memfd_create path huge) s1 in
      let (c, s3) = ask (ftruncate f.value size) s2 in
      let plat_mobj : Memobj = record { size = size; fd = f.value; name = path } in
      if not m.ok
      then ((err_no_mem, none), s1)
      else if not f.ok
      then ((err_memobj_create, none), tell (free m.value) s2)
      else if not c.ok
      then ((err_no_mem, none), tell (free m.value) (tell (shm_unlink path) s3))
      else ((err_ok, some m.value), record s3 { live = (m.value, plat_mobj) ∷ s3.live })

  -- plat_vm_destroy; `none` is an access of memory that holds no object.
  unfoldable pub plat_vm_destroy : (memobj : ℕ) → Sys → Option (PlatError × Sys)
  plat_vm_destroy memobj s = elim (find memobj s.live) [
    | none ↦ none
    | some o ↦ some (err_ok, tell (free memobj) (record s { live = remove memobj s.live }))
  ]

  unfoldable pub map_object :
      Memobj → (size offset : ℕ) (huge : Bool) → Sys → (PlatError × Option ℕ) × Sys
  map_object o size offset huge s =
      let (r, s') = ask (mmap none size huge o.fd offset) s in
      if refuses o size offset
      then ((err_args_invalid, none), s)
      else if r.ok
      then ((err_ok, some r.value), s')
      else ((err_map_failed, none), s')

  -- plat_vm_map, on a pointer that is not NULL: its result, and what it writes to *addr.
  unfoldable pub plat_vm_map :
      (size memobj offset : ℕ) (huge : Bool) → Sys → Option ((PlatError × Option ℕ) × Sys)
  unfolding map_object find
  plat_vm_map size memobj offset huge s = elim (find memobj s.live) [
    | none ↦ none
    | some o ↦ some (map_object o size offset huge s)
  ]

  unfoldable pub map_object_fixed :
      (addr : ℕ) → Memobj → (size offset : ℕ) (huge : Bool) → Sys → PlatError × Sys
  map_object_fixed addr o size offset huge s =
      let (r, s') = ask (mmap (some addr) size huge o.fd offset) s in
      if refuses o size offset
      then (err_args_invalid, s)
      else if addr == 0
      then (err_args_invalid, s)
      else if not r.ok
      then (err_map_failed, s')
      else if not (r.value == addr)
      then (err_map_failed, s')
      else (err_ok, s')

  -- plat_vm_map_fixed
  unfoldable pub plat_vm_map_fixed :
      (addr size memobj offset : ℕ) (huge : Bool) → Sys → Option (PlatError × Sys)
  unfolding map_object_fixed find
  plat_vm_map_fixed addr size memobj offset huge s = elim (find memobj s.live) [
    | none ↦ none
    | some o ↦ some (map_object_fixed addr o size offset huge s)
  ]

  -- prot of plat_vm_protect
  abbrev pub writable : Perm → Bool
  writable read_only = false
  writable read_write = true

  -- plat_vm_protect
  unfoldable pub plat_vm_protect : (addr size : ℕ) → Perm → Sys → PlatError × Sys
  plat_vm_protect addr size perms s =
      let (r, s') = ask (mprotect addr size (writable perms)) s in
      if r.ok then (err_ok, s') else (err_protect_failed, s')

  -- plat_vm_unmap
  unfoldable pub plat_vm_unmap : (addr size : ℕ) → Sys → PlatError × Sys
  plat_vm_unmap addr size s =
      let (r, s') = ask (munmap addr size) s in
      if r.ok then (err_ok, s') else (err_unmap_failed, s')
