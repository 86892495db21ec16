-- ===== src/Program/Whole.antt =====
-- The program on Linux from the command line to its end.
use vmopsbench.Common.{ℕ, Option, some, none, List}
use vmopsbench.Config.{Status}
use vmopsbench.Args
use vmopsbench.Driver.{ThreadFn}
use vmopsbench.Driver
use vmopsbench.Linux.{Sys}
use vmopsbench.Linux.Backend.{replay}
use vmopsbench.Linux.Refines.{Freed}
use vmopsbench.Linux.Faultless.{IsSome}
use vmopsbench.Program.{Machine}

-- The state that a benchmark leaves is there if vmops_utils_run_benchmark was called, and its memory is freed or
-- left as its status says.
abbrev pub Faultless : (y : ℕ) → Option ThreadFn → List Args.Event → Status → Option Sys → Type 0
Faultless y none t status q = Freed y t status q
Faultless y (some fn) t status q = IsSome q × Freed y t status q

-- What a benchmark on the machine leaves of the memory at the pointer `y`.
abbrev pub Clears : (m : Machine) (y : ℕ) → Driver.Outcome → Type 0
Clears m y o = Faultless y o.handed o.objects o.status (replay m.kernel m.path_of o.objects)
