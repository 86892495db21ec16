-- ===== src/Barrelfish/Memory.antt =====
-- src/platform/barrelfish.c: the memory objects of the Barrelfish backend and their mappings, over the
-- allocator, the capabilities and the address space of the system.
pub mod Steps
pub mod Accounts
mod Tests
use vmopsbench.Common.{
  ℕ, ◌+◌, ◌%◌, Bool, true, false, ◌||◌, not, if◌then◌else◌, ◌==◌, ltb, Option, some, none, List, [],
  ◌∷◌, find, remove,
}
use vmopsbench.Platform.{
  PlatError, err_ok, err_args_invalid, err_no_mem, err_map_failed, err_protect_failed,
  err_unmap_failed, Perm, read_only, read_write, u64_mod, u32_mod,
}
use vmopsbench.Barrelfish.Regions.{Region, Pools, alloc_vregion, no_regions}

-- The calls of the allocator and of the system. A frame is the capability that frame_alloc returns; a
-- slot is a place of the memory object cnode, to which it is copied.
pub data Call : Type 0 where
  malloc : Call
  free : (pointer : ℕ) → Call
  frame_alloc : (size : ℕ) → Call
  frame_identify : (frame : ℕ) → Call
  cap_copy : (slot frame : ℕ) → Call
  destroy_frame : (frame : ℕ) → Call
  destroy_slot : (slot : ℕ) → Call
  map_attr : (size slot : ℕ) (large : Bool) → Call
  map_fixed : (addr size slot : ℕ) (large : Bool) (region : Region) → Call
  change_flags : (addr size : ℕ) (writable : Bool) → Call
  vspace_unmap : (addr : ℕ) → Call

-- `value` is the pointer, the frame, the bytes of an identified frame, or the address.
pub record Reply : Type 0 where
  pub ok : Bool
  pub value : ℕ

pub record Event : Type 0 where
  pub call : Call
  pub reply : Reply

-- A reply for each call after each history, the latest call first, whether the capability of a slot is
-- NULL_CAP, which depends on the cnode, and the answers to the requests of blocks of regions.
pub record System : Type 0 where
  pub reply : List Event → Call → Reply
  pub is_null : (slot : ℕ) → Bool
  pub blocks : ℕ → Option ℕ

-- struct plat_memobj: the slot of its frame, and id.bytes
pub record Memobj : Type 0 where
  pub slot : ℕ
  pub bytes : ℕ

-- The objects in allocated memory by their pointers, memobj_slot, the regions, and the calls so far.
pub record Sys : Type 0 where
  pub trace : List Event
  pub live : List (ℕ × Memobj)
  pub memobj_slot : ℕ
  pub pools : Pools

-- A result of the platform, or an error of the system in its place.
pub data Result : Type 0 where
  result : PlatError → Result
  system_error : Result

module _ (sys : System) where
  abbrev pub ask : Call → Sys → Reply × Sys
  ask c s =
      let r = sys.reply s.trace c in
      (r, record s { trace = record { call = c; reply = r } ∷ s.trace })

  abbrev pub tell : Call → Sys → Sys
  tell c s = (ask c s).1

  -- capref_is_null(plat_mobj->frame) || plat_mobj->id.bytes < offset + size, in 64 bits
  abbrev pub refuses : Memobj → (size offset : ℕ) → Bool
  refuses o size offset = sys.is_null o.slot || ltb o.bytes ((offset + size) % u64_mod)

  -- plat_vm_create, on pointers that are not NULL: its result, and what it writes to *memobj. The name
  -- and the wish for huge pages are not used.
  unfoldable pub plat_vm_create : (size : ℕ) → Sys → (Result × Option ℕ) × Sys
  plat_vm_create size s =
      let (m, s1) = ask malloc s in
      let (f, s2) = ask (frame_alloc size) s1 in
      let (i, s3) = ask (frame_identify f.value) s2 in
      let slot = s3.memobj_slot in
      let s4 = record s3 { memobj_slot = (slot + 1) % u32_mod } in
      let s5 = tell (destroy_frame f.value) (tell (cap_copy slot f.value) s4) in
      let mobj : Memobj = record { slot = slot; bytes = i.value } in
      if not m.ok
      then ((result err_no_mem, none), s1)
      else if not f.ok
      then ((system_error, none), tell (free m.value) s2)
      else if not i.ok
      then ((system_error, none), tell (free m.value) (tell (destroy_frame f.value) s3))
      else ((result err_ok, some m.value), record s5 { live = (m.value, mobj) ∷ s5.live })

  abbrev pub drop_slot : Memobj → Sys → Sys
  drop_slot o s = if not (sys.is_null o.slot) then tell (destroy_slot o.slot) s else s

  -- plat_vm_destroy; `none` is an access of memory that holds no object.
  unfoldable pub plat_vm_destroy : (memobj : ℕ) → Sys → Option (Result × Sys)
  plat_vm_destroy memobj s = elim (find memobj s.live) [
    | none ↦ none
    | some o ↦
        some (
          result err_ok,
          tell (free memobj) (drop_slot o (record s { live = remove memobj s.live })),
        )
  ]

  abbrev pub map_object : Memobj → (size offset : ℕ) (huge : Bool) → Sys → (Result × Option ℕ) × Sys
  map_object o size offset huge s =
      let (r, s') = ask (map_attr size o.slot huge) s in
      if refuses o size offset
      then ((result err_args_invalid, none), s)
      else if r.ok
      then ((result err_ok, some r.value), s')
      else ((result err_map_failed, none), s')

  -- plat_vm_map, on a pointer that is not NULL. The offset is compared, and then not used.
  unfoldable pub plat_vm_map :
      (size memobj offset : ℕ) (huge : Bool) → Sys → Option ((Result × Option ℕ) × Sys)
  plat_vm_map size memobj offset huge s = elim (find memobj s.live) [
    | none ↦ none
    | some o ↦ some (map_object o size offset huge s)
  ]

  -- The mapping with the region that alloc_vregion has returned.
  abbrev pub map_with :
      (addr : ℕ) → Memobj → (size : ℕ) (huge : Bool) → Option Region × Pools → Sys → Result × Sys
  map_with addr o size huge (none, pools) s = (result err_map_failed, record s { pools = pools })
  map_with addr o size huge (some r, pools) s =
      let (a, s') = ask (map_fixed addr size o.slot huge r) (record s { pools = pools }) in
      if a.ok then (result err_ok, s') else (result err_map_failed, s')

  abbrev pub map_object_fixed :
      (cid addr : ℕ) → Memobj → (size offset : ℕ) (huge : Bool) → Sys → Result × Sys
  map_object_fixed cid addr o size offset huge s =
      if refuses o size offset
      then (result err_args_invalid, s)
      else if addr == 0
      then (result err_args_invalid, s)
      else map_with addr o size huge (alloc_vregion sys.blocks cid s.pools) s

  -- plat_vm_map_fixed, on the core `cid`
  unfoldable pub plat_vm_map_fixed :
      (cid addr size memobj offset : ℕ) (huge : Bool) → Sys → Option (Result × Sys)
  unfolding alloc_vregion
  plat_vm_map_fixed cid addr size memobj offset huge s = elim (find memobj s.live) [
    | none ↦ none
    | some o ↦ some (map_object_fixed cid addr o size offset huge s)
  ]

  abbrev pub writable : Perm → Bool
  writable read_only = false
  writable read_write = true

  -- plat_vm_protect
  unfoldable pub plat_vm_protect : (addr size : ℕ) → Perm → Sys → Result × Sys
  plat_vm_protect addr size perms s =
      let (r, s') = ask (change_flags addr size (writable perms)) s in
      if r.ok then (result err_ok, s') else (result err_protect_failed, s')

  -- plat_vm_unmap, which does not use the size and gives no region back
  unfoldable pub plat_vm_unmap : (addr size : ℕ) → Sys → Result × Sys
  plat_vm_unmap addr size s =
      let (r, s') = ask (vspace_unmap addr) s in
      if r.ok then (result err_ok, s') else (result err_unmap_failed, s')

-- No object, and no call yet.
abbrev pub start : Sys
start = record { trace = []; live = []; memobj_slot = 0; pools = no_regions }
