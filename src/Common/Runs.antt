-- ===== src/Common/Runs.antt =====
-- Sequences of operations on a state, each of which may end in a fault.
use mathlib.Core.Option.{Option, none, some}
use mathlib.Core.List.{List, [], ◌∷◌}

-- The state beside a result.
abbrev pub state_of : {A S : Type 0} → Option (A × S) → Option S
state_of none = none
state_of (some (a, s)) = some s

-- What holds unless there was a fault.
abbrev pub IfAny : {S : Type 0} → (S → Type 0) → Option S → Type 0
IfAny P none = Unit {0}
IfAny P (some s) = P s

abbrev pub and_run : {S : Type 0} → Option S → (S → Option S) → Option S
and_run none k = none
and_run (some s) k = k s

and_run-IfAny :
    {S : Type 0} (P : S → Type 0) (r : Option S) (k : S → Option S)
    → IfAny P r
    → ((s : S) → P s → IfAny P (k s))
    → IfAny P (and_run r k)
and_run-IfAny P none k h f = tt
and_run-IfAny P (some s) k h f = f s h

module _ {Op S : Type 0} (perform : Op → S → Option S) where
  abbrev pub run_ops : List Op → S → Option S
  run_ops [] s = some s
  run_ops (op ∷ ops) s = and_run (perform op s) (run_ops ops)

  -- An invariant of each operation is one of every sequence.
  pub run_ops-IfAny :
      (P : S → Type 0)
      → ((op : Op) (s : S) → P s → IfAny P (perform op s))
      → (ops : List Op) (s : S) → P s
      → IfAny P (run_ops ops s)
  run_ops-IfAny P keeps [] s h = h
  run_ops-IfAny P keeps (op ∷ ops) s h =
      and_run-IfAny P (perform op s) (run_ops ops) (keeps op s h) (run_ops-IfAny P keeps ops)
