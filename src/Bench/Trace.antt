-- ===== src/Bench/Trace.antt =====
-- What a trace of platform calls amounts to: the mappings that stand, and how often a thread has
-- entered the barrier, unmapped and changed a protection.
use vmopsbench.Common.{
  ℕ, ◌+◌, ◌≡◌, Bool, false, ◌&&◌, not, List, [], ◌∷◌, if◌then◌else◌, ◌==◌, arith, ==_refl,
}
use vmopsbench.Bench.World.{Call, vm_map, vm_map_fixed, vm_unmap, vm_protect, barrier, Event, is_ok}

-- Address and size of a mapping.
abbrev pub Regions : Type 0
Regions = List (ℕ × ℕ)

abbrev pub remove : (addr size : ℕ) → Regions → Regions
remove addr size [] = []
remove addr size ((a, s) ∷ l) =
    if (a == addr) && (s == size) then l else (a, s) ∷ remove addr size l

-- What a successful call does to the mappings.
abbrev pub effect : Call → (value : ℕ) → Regions → Regions
effect (vm_map size o off huge) v l = (v, size) ∷ l
effect (vm_map_fixed addr size o off huge) v l = (addr, size) ∷ l
effect (vm_unmap addr size) v l = remove addr size l
effect _ v l = l

-- The mappings made and not undone, the latest first.
abbrev pub live : List Event → Regions
live [] = []
live (e ∷ h) = if is_ok e.reply.err then effect e.call e.reply.value (live h) else live h

abbrev pub is_barrier : Call → ℕ
is_barrier barrier = 1
is_barrier _ = 0

abbrev pub is_unmap : Call → ℕ
is_unmap (vm_unmap addr size) = 1
is_unmap _ = 0

abbrev pub is_map : Call → ℕ
is_map (vm_map size o off huge) = 1
is_map (vm_map_fixed addr size o off huge) = 1
is_map _ = 0

abbrev pub is_protect : Call → ℕ
is_protect (vm_protect addr size perm) = 1
is_protect _ = 0

-- Calls of one kind, whatever came of them, and those that succeeded.
abbrev pub entered : List Event → ℕ
entered [] = 0
entered (e ∷ h) = is_barrier e.call + entered h

abbrev pub succeeded : (Call → ℕ) → List Event → ℕ
succeeded kind [] = 0
succeeded kind (e ∷ h) = (if is_ok e.reply.err then kind e.call else 0) + succeeded kind h

-- Calls of one kind that failed.
abbrev pub failed : (Call → ℕ) → List Event → ℕ
failed kind [] = 0
failed kind (e ∷ h) = (if is_ok e.reply.err then 0 else kind e.call) + failed kind h

-- A mapping or a change of a protection.
abbrev pub is_change : Call → ℕ
is_change c = is_map c + is_protect c

-- The latest call has failed.
abbrev pub last_failed : List Event → Bool
last_failed [] = false
last_failed (e ∷ h) = not (is_ok e.reply.err)

pub remove-head : (a s : ℕ) (l : Regions) → remove a s ((a, s) ∷ l) ≡ l
remove-head a s l = ground (arith, ==_refl a, ==_refl s)
