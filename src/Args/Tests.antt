-- ===== src/Args/Tests.antt =====
-- A platform with fresh handles, and the theorems at it.
use vmopsbench.Common.{
  ℕ, suc, ◌+◌, ◌<◌, ◌≡◌, ◌≢◌, refl, sym, ap, ◌∙◌, Bool, true, false, if◌then◌else◌, ltb, some, List,
  [], ◌∷◌, arith, length, if_cases, ◌&&◌,
}
use vmopsbench.Config.{Cfg}
use vmopsbench.Args.{Call, vm_create, vm_destroy, vm_map, Event, Reply, Os, prepare_args}
use vmopsbench.Args.Objects.{one_if, is_create, is_destroy, created, destroyed, IsFresh, differs}
use vmopsbench.Args.RoundTrip.{Returned, prepare_cleanup}
use vmopsbench.Args.Leak.{LeavesNull, prepare_args_keeps}

abbrev handle : Call → ℕ
handle (vm_destroy memobj) = memobj
handle _ = 0

-- More than every handle in a history.
abbrev bound : List Event → ℕ
bound [] = 0
bound (e ∷ t) = handle e.call + e.reply.value + bound t

-- A creation succeeds until `limit` calls have been made; every other call succeeds.
abbrev answer : (limit : ℕ) → List Event → Call → Reply
answer limit t (vm_create name size huge) =
    if ltb (length t) limit
    then record { ok = true; value = suc (bound t) }
    else record { ok = false; value = 0 }
answer limit t c = record { ok = true; value = 0 }

abbrev pub os_of : ℕ → Os
os_of limit = record { reply = answer limit; convert_time = λ ms. ms }

abbrev pub cfg : Cfg
cfg = record {
  benchmark = [];
  coreslist = some (some 3 ∷ some 5 ∷ []);
  corelist_size = 2;
  memsize = 8192;
  nops = 0;
  time_ms = 0;
  stats = 4;
  rate = 0;
  nounmap = false;
  shared = false;
  isolated = false;
  map4k = false;
  maphuge = false;
  numainterleave = false;
}

unknown-is_create : (x : ℕ) (c : Call) (r : Reply) → r.value < x → is_create x c r ≡ 0
unknown-is_create x (vm_create name size huge) r h =
    ap (λ b. one_if (r.ok && b)) (differs r.value x (λ k. omega (arith, h, k))) ∙ never r.ok
  where
    never : (b : Bool) → one_if (b && false) ≡ 0
    never true = refl
    never false = refl
unknown-is_create x (vm_destroy memobj) r h = refl
unknown-is_create x (vm_map size memobj) r h = refl

unknown-is_destroy : (x : ℕ) (c : Call) → handle c < x → is_destroy x c ≡ 0
unknown-is_destroy x (vm_destroy memobj) h = ap one_if (differs memobj x (λ k. omega (arith, h, k)))
unknown-is_destroy x (vm_create name size huge) h = refl
unknown-is_destroy x (vm_map size memobj) h = refl

unknown-created : (t : List Event) (x : ℕ) → bound t < x → created x t ≡ 0
unknown-created [] x h = refl
unknown-created (e ∷ t) x h = omega (
  arith,
  unknown-is_create x e.call e.reply (omega (arith, h)),
  unknown-created t x (omega (arith, h)),
)

unknown-destroyed : (t : List Event) (x : ℕ) → bound t < x → destroyed x t ≡ 0
unknown-destroyed [] x h = refl
unknown-destroyed (e ∷ t) x h = omega (
  arith,
  unknown-is_destroy x e.call (omega (arith, h)),
  unknown-destroyed t x (omega (arith, h)),
)

pub os_of-IsFresh : (limit : ℕ) → IsFresh (os_of limit)
os_of-IsFresh limit t name size huge =
    if_cases
      (λ (r : Reply). r.ok ≡ true → (r.value ≢ 0) × (created r.value t ≡ destroyed r.value t))
      (ltb (length t) limit)
      (λ e k. (
        λ z. omega (arith, z),
        unknown-created t _ (omega arith) ∙ sym (unknown-destroyed t _ (omega arith)),
      ))
      (λ e k. absurd (ground arith))

os_of-LeavesNull : (limit : ℕ) → LeavesNull (os_of limit)
os_of-LeavesNull limit t name size huge =
    if_cases (λ (r : Reply). r.ok ≡ false → r.value ≡ 0) (ltb (length t) limit)
      (λ e k. absurd (ground arith)) (λ e k. refl)

prepare_cleanup_example : Returned (os_of 2) [] (prepare_args (os_of 2) true true cfg 0 [])
prepare_cleanup_example =
    prepare_cleanup (os_of 2) true true cfg 0 [] (os_of-IsFresh 2) (omega arith) (omega arith)

prepare_args_keeps_example : destroyed 1 (prepare_args (os_of 1) true true cfg 0 []).1 ≡ 0
prepare_args_keeps_example =
    prepare_args_keeps (os_of 1) true true cfg 0 [] 1 (os_of-LeavesNull 1) (λ z. omega (arith, z))
