-- ===== src/Bench/World.antt =====
-- A benchmark thread's view of the platform: its calls, their replies, and its own argument block.
use vmopsbench.Common.{
  if_cases, ◌≡◌, ℕ, ◌+◌, ◌-◌, ◌*◌, ◌%◌, Bool, true, false, List, ◌∷◌, if◌then◌else◌, ◌==◌, Option,
  some, none,
}
use vmopsbench.Platform.{PlatError, err_ok, Perm, u64_mod, u32_mod, time_max}
use vmopsbench.Stats.{Stats, add_stats}

-- The functions of platform.h that a thread calls, with their arguments.
pub data Call : Type 0 where
  vm_map : (size memobj offset : ℕ) (huge : Bool) → Call
  vm_map_fixed : (addr size memobj offset : ℕ) (huge : Bool) → Call
  vm_unmap : (addr size : ℕ) → Call
  vm_protect : (addr size : ℕ) (perm : Perm) → Call
  get_time : Call
  barrier : Call
  read_done : Call
  write_done : Call

-- `value` is the address that plat_vm_map returns, the time, or the word behind `shared`.
pub record Reply : Type 0 where
  pub err : PlatError
  pub value : ℕ

pub record Event : Type 0 where
  pub call : Call
  pub reply : Reply

-- The platform, with all that other threads do to it: a reply for each call after each history,
-- and the conversion of milliseconds to platform time.
pub record Plat : Type 0 where
  pub reply : List Event → Call → Reply
  pub convert_time : ℕ → ℕ

-- The fields of struct vmops_bench_run_arg that a thread writes, and its calls, the latest first.
-- `duration` is the difference of times that the code passes to plat_time_to_ms.
pub record Worker : Type 0 where
  pub trace : List Event
  pub stats : Stats
  pub count : ℕ
  pub duration : ℕ

abbrev pub is_ok : PlatError → Bool
is_ok err_ok = true
is_ok _ = false

-- uint64_t subtraction
abbrev pub sub_u64 : ℕ → ℕ → ℕ
sub_u64 a b = (a + u64_mod - b) % u64_mod

-- A step of a thread: `none` is a failed call, on which the code jumps out of its loop.
abbrev pub Cmd : Type 0 → Type 0
Cmd A = Worker → Option A × Worker

abbrev pub pure : {A : Type 0} → A → Cmd A
pure a w = (some a, w)

abbrev pub and_then : {A B : Type 0} → Option A × Worker → (A → Cmd B) → Option B × Worker
and_then (some a, w) k = k a w
and_then (none, w) k = (none, w)

infixl 5 ◌>>=◌ ◌>>◌
abbrev pub ◌>>=◌ : {A B : Type 0} → Cmd A → (A → Cmd B) → Cmd B
◌>>=◌ m k w = and_then (m w) k

abbrev pub ◌>>◌ : {A B : Type 0} → Cmd A → Cmd B → Cmd B
m >> k = m >>= λ _. k

module _ (plat : Plat) where
  -- One call of the platform, which is put on record with its reply.
  abbrev pub ask : Call → Worker → Reply × Worker
  ask c w =
      let r = plat.reply w.trace c in
      (r, record w { trace = record { call = c; reply = r } ∷ w.trace })

  -- err = plat_...; if (err != PLAT_ERR_OK) { leave }
  unfoldable pub try : Call → Cmd ℕ
  try c w = let (r, w') = ask c w in if is_ok r.err then (some r.value, w') else (none, w')

  -- A call whose result is not looked at.
  unfoldable pub tell : Call → Worker → Worker
  tell c w = (ask c w).1

  -- plat_get_time()
  unfoldable pub now : Worker → ℕ × Worker
  now w = let (r, w') = ask get_time w in (r.value, w')

  -- t_current = plat_get_time()
  unfoldable pub clock : Cmd ℕ
  unfolding now
  clock w = let (t, w') = now w in (some t, w')

  -- t_delta, from the time limit of the configuration; 0 stands for no limit.
  unfoldable pub delta_of : ℕ → ℕ
  delta_of time_ms = let d = plat.convert_time time_ms in if d == 0 then time_max else d

-- nops, from the configuration; 0 stands for the default.
unfoldable pub nops_of : (default nops : ℕ) → ℕ
nops_of default nops = if nops == 0 then default else nops

unfoldable pub end_of : (t_delta t_current : ℕ) → ℕ
end_of t_delta t_current = if t_delta == time_max then time_max else (t_current + t_delta) % u64_mod

-- vmops_utils_add_stats on the thread's statistics
unfoldable pub sample : (tid ops t_elapsed val : ℕ) → Cmd (Unit {0})
sample tid ops t_elapsed val w =
    (some tt, record w { stats = add_stats w.stats tid ops t_elapsed val })

-- utils_vmops_get_map_address: tid + 2 in uint32_t, the rest in 64 bits
unfoldable pub map_address : ℕ → ℕ
map_address tid = (549755813888 * ((tid + 2) % u32_mod) + 274877906944) % u64_mod

-- What a call leads to: what follows it with its value, or the end when it fails.
pub try_rule :
    (plat : Plat) {B : Type 0} (Q : Option B × Worker → Type 0) (c : Call) (k : ℕ → Cmd B)
    (w : Worker)
    → (is_ok (ask plat c w).0.err ≡ true → Q (k (ask plat c w).0.value (ask plat c w).1))
    → (is_ok (ask plat c w).0.err ≡ false → Q (none, (ask plat c w).1))
    → Q (and_then (try plat c w) k)
unfolding try
try_rule plat Q c k w p q = if_cases (λ r. Q (and_then r k)) (is_ok (ask plat c w).0.err) p q
