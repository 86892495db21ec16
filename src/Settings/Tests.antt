-- ===== src/Settings/Tests.antt =====
-- Command lines on a machine of two cores, and the option loop at them.
use vmopsbench.Common.{
  ℕ, suc, ◌≡◌, refl, true, false, List, [], ◌∷◌, length, Option, some, none, codes, strtoul,
}
use vmopsbench.Config.{success}
use vmopsbench.Platform.{numa_interleave}
use vmopsbench.Cores.{parse_cores_list, fill, after_digits, digits, count_cores}
use vmopsbench.Topology.{cores}
use vmopsbench.Args
use vmopsbench.Driver.{Machine}
use vmopsbench.Settings.{
  Env, Opt, opt_p, opt_c, opt_n, opt_t, opt_h, opt_i, opt_l, read_options, default_settings,
  default_cfg, running, exited,
}
use vmopsbench.Settings.LastOption.{reference, read_options-reference}

-- One memory object in all, the handle 9.
abbrev objects_reply : List Args.Event → Args.Call → Args.Reply
objects_reply [] c = record { ok = true; value = 9 }
objects_reply (e ∷ t) (Args.vm_create name size huge) = record { ok = false; value = 0 }
objects_reply (e ∷ t) c = record { ok = true; value = 0 }

abbrev machine : Machine
machine = record {
  objects = record { reply = objects_reply; convert_time = λ ms. ms };
  threads = λ t c. record { ok = true; value = suc (length t) };
  args_mem = true;
  vals_mem = true;
}

-- A path that is empty cannot be opened.
abbrev open_file : List ℕ → Option ℕ
open_file [] = none
open_file (c ∷ s) = some c

abbrev env : Env
env = record {
  fopen = λ left path. open_file path;
  cores_mem = λ left. true;
  topology = λ policy. cores (some 0 ∷ some 1 ∷ []) 2;
  machine = machine;
  done = 64;
}

-- -n 5 -t 20 -i -c 3,4
abbrev line : List Opt
line = opt_n (codes "5") ∷ opt_t (codes "20") ∷ opt_i ∷ opt_c (codes "3,4") ∷ []

read_line :
    read_options env line default_settings
    ≡ running (record default_settings {
      cfg = record default_cfg {
        coreslist = some (some 3 ∷ some 4 ∷ []);
        corelist_size = 2;
        nops = 5;
        time_ms = 20;
        numainterleave = true;
      };
      numa = numa_interleave;
    })
unfolding read_options parse_cores_list fill after_digits digits count_cores strtoul
read_line = refl

-- -h after an option that is not refused
help_line : read_options env (opt_l ∷ opt_h ∷ opt_p [] ∷ []) default_settings ≡ exited success
unfolding read_options
help_line = refl

read_options-reference_example :
    read_options env line default_settings ≡ reference env line default_settings
read_options-reference_example = read_options-reference env line default_settings
