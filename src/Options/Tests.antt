-- ===== src/Options/Tests.antt =====
-- The option parser on concrete strings, and the theorems at them.
use vmopsbench.Common.{◌≡◌, refl, true, false, [], ◌∷◌, none, codes}
use vmopsbench.Config.{Cfg, success, failure}
use vmopsbench.Options.{scan, finish, apply_flags, parse_options, print_options}
use vmopsbench.Options.Grammar.{independent, four_k, isolated, render, meaning}
use vmopsbench.Options.Parse.{parse_options-render}

abbrev plain : Cfg
plain = record {
  benchmark = codes "mapunmap";
  coreslist = none;
  corelist_size = 0;
  memsize = 4096;
  nops = 0;
  time_ms = 10;
  stats = 0;
  rate = 0;
  nounmap = false;
  shared = true;
  isolated = false;
  map4k = false;
  maphuge = false;
  numainterleave = false;
}

runs :
    (parse_options (codes "-4k-independent") plain
      ≡ (success, record plain { shared = false; map4k = true }))
    × (parse_options (codes "-shared-independent") plain ≡ (failure, plain))
    × (parse_options (codes "-4kb") plain ≡ (failure, plain))
unfolding parse_options scan finish apply_flags
runs = (refl, refl, refl)

prints : print_options plain ≡ codes "shared, default, one large mapping"
unfolding print_options
prints = refl

parse_options-render_example :
    parse_options (render (isolated ∷ four_k ∷ independent ∷ [])) plain
    ≡ meaning (isolated ∷ four_k ∷ independent ∷ []) plain
parse_options-render_example = parse_options-render (isolated ∷ four_k ∷ independent ∷ []) plain
