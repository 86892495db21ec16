-- ===== src/Main/Tests.antt =====
-- Command lines on a machine of two cores, and the theorems at them.
use vmopsbench.Common.{
  ℕ, suc, ◌≡◌, ◌↔◌, refl, true, false, List, [], ◌∷◌, ◌++◌, length, arith, Option, some, none,
  codes, strtoul,
}
use vmopsbench.Config.{failure}
use vmopsbench.Cores.{parse_cores_list, fill, after_digits, digits, count_cores}
use vmopsbench.Topology.{cores}
use vmopsbench.Args
use vmopsbench.Args.Objects.{IsFresh}
use vmopsbench.Args.Leak.{LeavesNull}
use vmopsbench.Driver.{Machine}
use vmopsbench.Driver
use vmopsbench.Driver.Accounts.{Settled}
use vmopsbench.Settings.{Env, Opt, opt_p, opt_c, opt_b, opt_n, opt_t, opt_i, opt_o}
use vmopsbench.Main.{select, protect, main, exit}
use vmopsbench.Main.Dispatch.{name_of, select_iff}
use vmopsbench.Main.Launch.{Leaves, main_settles}

-- One memory object in all, the handle 9.
abbrev objects_reply : List Args.Event → Args.Call → Args.Reply
objects_reply [] c = record { ok = true; value = 9 }
objects_reply (e ∷ t) (Args.vm_create name size huge) = record { ok = false; value = 0 }
objects_reply (e ∷ t) c = record { ok = true; value = 0 }

abbrev machine : Machine
machine = record {
  objects = record { reply = objects_reply; convert_time = λ ms. ms };
  threads = λ t c. record { ok = true; value = suc (length t) };
  args_mem = true;
  vals_mem = true;
}

-- A path that is empty cannot be opened.
abbrev open_file : List ℕ → Option ℕ
open_file [] = none
open_file (c ∷ s) = some c

abbrev env : Env
env = record {
  fopen = λ left path. open_file path;
  cores_mem = λ left. true;
  topology = λ policy. cores (some 0 ∷ some 1 ∷ []) 2;
  machine = machine;
  done = 64;
}

machine-IsFresh : IsFresh machine.objects
machine-IsFresh [] name size huge e = (λ z. omega (arith, z), refl)
machine-IsFresh (x ∷ t) name size huge e = absurd (ground arith)

machine-LeavesNull : LeavesNull machine.objects
machine-LeavesNull [] name size huge e = absurd (ground arith)
machine-LeavesNull (x ∷ t) name size huge e = refl

-- -n 5 -t 20 -i -c 3,4
abbrev line : List Opt
line = opt_n (codes "5") ∷ opt_t (codes "20") ∷ opt_i ∷ opt_c (codes "3,4") ∷ []

-- -p and -c together
both_line : main env [] [] (opt_p (codes "1") ∷ line) ≡ exit failure
unfolding main parse_cores_list fill after_digits digits count_cores strtoul
both_line = refl

select_iff_example :
    (select (codes "protect-4k") ≡ some (protect, codes "-4k"))
    ↔ (codes "protect-4k" ≡ name_of protect ++ codes "-4k")
select_iff_example = select_iff (codes "protect-4k") protect (codes "-4k")

abbrev short_line : List Opt
short_line = opt_p (codes "1") ∷ opt_b (codes "protect-4k") ∷ opt_o (codes "f") ∷ []

main_settles_example :
    Leaves
      (λ (o : Driver.Outcome). Settled 2 9 [] [] o.status o.objects o.threads)
      (main env [] [] short_line)
main_settles_example =
    main_settles env 2 9 [] [] short_line machine-IsFresh machine-LeavesNull (λ z. omega (arith, z))
      (λ z. omega (arith, z))
