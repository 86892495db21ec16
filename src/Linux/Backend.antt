-- ===== src/Linux/Backend.antt =====
-- src/platform/linux.c as the platform of the argument blocks: what utils.c relies on holds.
use vmopsbench.Common.{
  ℕ, Bool, false, ◌&&◌, not, if◌then◌else◌, ◌==◌, Option, some, none, List, [], ◌∷◌,
}
use vmopsbench.Platform.{PlatError}
use vmopsbench.Bench.World.{is_ok}
use vmopsbench.Args.{Name, vm_create, vm_destroy, vm_map, Os, sentinel}
use vmopsbench.Args
use vmopsbench.Linux.{Kernel, Sys, plat_vm_create, plat_vm_destroy, plat_vm_map}
use vmopsbench.Linux.Runs.{start}
use vmopsbench.Linux.Clock.{plat_convert_time}

-- A pointer that the call leaves as it was: NULL, where the caller has cleared it.
abbrev pub or_null : Option ℕ → ℕ
or_null none = 0
or_null (some p) = p

abbrev pub to_reply : (PlatError × Option ℕ) × Sys → Args.Reply × Sys
to_reply ((e, p), s) = (record { ok = is_ok e; value = or_null p }, s)

abbrev pub map_reply : Option ((PlatError × Option ℕ) × Sys) → Option (Args.Reply × Sys)
map_reply none = none
map_reply (some r) = some (to_reply r)

abbrev pub destroy_reply : Option (PlatError × Sys) → Option (Args.Reply × Sys)
destroy_reply none = none
destroy_reply (some (e, s)) = some (record { ok = is_ok e; value = 0 }, s)

abbrev pub same_reply : Args.Reply → Args.Reply → Bool
same_reply r r' = (if r.ok then r'.ok else not r'.ok) && r.value == r'.value

-- The file names of the objects come from snprintf.
module _ (kernel : Kernel) (path_of : Name → List ℕ) where
  -- One call of utils.c on the backend; `none` is a fault.
  abbrev pub exec : Args.Call → Sys → Option (Args.Reply × Sys)
  exec (vm_create name size huge) s =
      some (to_reply (plat_vm_create kernel (path_of name) size huge s))
  exec (vm_destroy memobj) s = destroy_reply (plat_vm_destroy kernel memobj s)
  exec (vm_map size memobj) s = map_reply (plat_vm_map kernel size memobj 0 false s)

  abbrev pub confirm : Args.Reply → Option (Args.Reply × Sys) → Option Sys
  confirm r none = none
  confirm r (some (r', s)) = if same_reply r r' then some s else none

  abbrev pub advance : Args.Event → Option Sys → Option Sys
  advance e none = none
  advance e (some s) = confirm e.reply (exec e.call s)

  -- The state after a history, if the backend can have had this history.
  abbrev pub replay : List Args.Event → Option Sys
  replay [] = some start
  replay (e ∷ t) = advance e (replay t)

  abbrev pub answer : Option (Args.Reply × Sys) → Args.Reply
  answer none = record { ok = false; value = 0 }
  answer (some (r, s)) = r

  abbrev pub reply_in : Args.Call → Option Sys → Args.Reply
  reply_in c none = record { ok = false; value = 0 }
  reply_in c (some s) = answer (exec c s)

  -- The backend as a platform. Where the process has ended or the history is impossible, the reply
  -- is of no account.
  abbrev pub linux_os : Os
  linux_os = record { reply = λ t c. reply_in c (replay t); convert_time = plat_convert_time }
