-- ===== src/Driver/Tests.antt =====
-- Benchmarks of two threads, and the theorems at them.
use vmopsbench.Common.{suc, refl, true, false, List, [], ◌∷◌, length, arith, some, codes}
use vmopsbench.Config.{Cfg}
use vmopsbench.Args
use vmopsbench.Args.Objects.{IsFresh}
use vmopsbench.Args.Leak.{LeavesNull}
use vmopsbench.Driver.{Machine, choose_mapunmap, run_driver}
use vmopsbench.Driver.Accounts.{Settled, run_driver_settles}

abbrev cfg : Cfg
cfg = record {
  benchmark = [];
  coreslist = some (some 3 ∷ some 5 ∷ []);
  corelist_size = 2;
  memsize = 8192;
  nops = 0;
  time_ms = 0;
  stats = 0;
  rate = 0;
  nounmap = false;
  shared = false;
  isolated = false;
  map4k = false;
  maphuge = false;
  numainterleave = false;
}

-- One memory object in all, the handle 9.
abbrev objects_reply : List Args.Event → Args.Call → Args.Reply
objects_reply [] c = record { ok = true; value = 9 }
objects_reply (e ∷ t) (Args.vm_create name size huge) = record { ok = false; value = 0 }
objects_reply (e ∷ t) c = record { ok = true; value = 0 }

abbrev machine : Machine
machine = record {
  objects = record { reply = objects_reply; convert_time = λ ms. ms };
  threads = λ t c. record { ok = true; value = suc (length t) };
  args_mem = true;
  vals_mem = true;
}

machine-IsFresh : IsFresh machine.objects
machine-IsFresh [] name size huge e = (λ z. omega (arith, z), refl)
machine-IsFresh (x ∷ t) name size huge e = absurd (ground arith)

machine-LeavesNull : LeavesNull machine.objects
machine-LeavesNull [] name size huge e = absurd (ground arith)
machine-LeavesNull (x ∷ t) name size huge e = refl

run_driver_settles_example :
    let o = run_driver machine choose_mapunmap 0 (codes "-4k") cfg [] [] in
    Settled 2 9 [] [] o.status o.objects o.threads
run_driver_settles_example =
    run_driver_settles machine choose_mapunmap 0 2 9 (codes "-4k") cfg [] [] machine-IsFresh
      machine-LeavesNull (λ z. omega (arith, z)) (λ z. omega (arith, z)) (omega arith) (omega arith)
