-- ===== src/Report/Tests.antt =====
-- The reports of two threads, with natural numbers in the place of doubles.
use vmopsbench.Common.{ℕ, ◌+◌, ◌/◌, ◌≡◌, refl, true, some, [], ◌∷◌, ◌++◌, arith, replicate}
use vmopsbench.Stats.{Statval, fresh}
use vmopsbench.Args.{disable_stats, prepare_args}
use vmopsbench.Args.Tests.{cfg, os_of, os_of-IsFresh}
use vmopsbench.Report.{out_of_bounds, Floats, Block, aborted, Row, print_csv}
use vmopsbench.Report.Listed.{Listed}
use vmopsbench.Report.Cells.{Ran}
use vmopsbench.Report.Prepared.{Reported, print_csv_prepared}

abbrev fl : Floats
fl = record {
  Double = ℕ;
  nought = 0;
  plus = λ a b. a + b;
  over = λ a b. a / b;
  of_word = λ n. n;
  to_ms = λ t. t;
}

abbrev call_at : (tid t : ℕ) → Statval
call_at tid t = record { tid = tid; t_elapsed = t; counter = t; val = 7 }

-- Ten calls that are skipped, and two that are kept.
abbrev ran_on : ℕ → Ran fl
ran_on tid = record {
  calls = replicate 10 (call_at tid 0) ++ (call_at tid 5 ∷ call_at tid 6 ∷ []);
  count = 12;
  duration = 30;
}

cfg-Listed : Listed cfg
cfg-Listed = record { cells = some 3 ∷ some 5 ∷ []; array = refl; long = omega arith }

print_csv_prepared_example :
    Reported fl
      (os_of 2)
      1
      (disable_stats true cfg)
      (ran_on 0 ∷ ran_on 1 ∷ [])
      (prepare_args (os_of 2) true true cfg 0 [])
print_csv_prepared_example =
    print_csv_prepared fl (os_of 2) true true cfg 1 0 [] (ran_on 0 ∷ ran_on 1 ∷ [])
      (os_of-IsFresh 2) (λ z. omega (arith, z)) (omega arith) refl cfg-Listed (omega arith)
      (omega arith) (omega arith)

abbrev block : (own : ℕ) → Block fl
block own = record { cfg = own; count = 12; duration = 30; stats = fresh 4 0 }

abbrev first_row : Row fl
first_row = record { thread = 0; core = some (some 3); duration = 30; operations = 12 }

-- Another configuration in the second block.
print_csv_other : print_csv fl cfg (some (block 1 ∷ block 2 ∷ [])) ≡ aborted (first_row ∷ [])
unfolding print_csv fresh
print_csv_other = refl

-- A list of one core, of which the second thread has no cell.
print_csv_short :
    print_csv fl (record cfg { coreslist = some (some 3 ∷ []) }) (some (block 1 ∷ block 1 ∷ []))
    ≡ out_of_bounds
unfolding print_csv fresh
print_csv_short = refl
