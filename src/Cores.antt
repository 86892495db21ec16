-- ===== src/Cores.antt =====
-- src/main.c, parse_cores_list: the list of core ids given with -c.
pub mod Written
pub mod Bounds
pub mod Accepted
mod Tests
use vmopsbench.Common.{
  ℕ, zero, suc, ◌+◌, ◌%◌, Bool, true, false, not, List, [], ◌∷◌, if◌then◌else◌, isdigit, ◌==◌, ltb,
  length, drop, set, replicate, Option, some, none, strtoul,
}
use vmopsbench.Platform.{u32_mod}

-- How the call ends: the array and `*ncores`, the return of -1 where malloc fails, or the process
-- exits. The last two are the model's: a write beyond the array, and too little fuel.
pub data Outcome : Type 0 where
  parsed : List (Option ℕ) → ℕ → Outcome
  no_memory exits : Outcome
  out_of_bounds out_of_fuel : Outcome

-- The digits at the head, over which `lookahead` runs, and what it then points at.
unfoldable pub digits : List ℕ → List ℕ
digits [] = []
digits (c ∷ s) = if isdigit c then c ∷ digits s else []

unfoldable pub after_digits : List ℕ → List ℕ
after_digits [] = []
after_digits (c ∷ s) = if isdigit c then after_digits s else c ∷ s

-- *lookahead is the terminator or a comma.
abbrev pub at_separator : List ℕ → Bool
at_separator [] = true
at_separator (c ∷ s) = c == b','

abbrev pub is_nil : List ℕ → Bool
is_nil [] = true
is_nil (c ∷ s) = false

-- 1 plus the number of commas
unfoldable pub count_cores : List ℕ → ℕ
count_cores [] = 1
count_cores (c ∷ s) = if c == b',' then count_cores s + 1 else count_cores s

-- uint32_t cid = strtoul(current, NULL, 10); the string ends where the comma was overwritten by 0
abbrev pub core_id : List ℕ → ℕ
core_id ds = strtoul ds % u32_mod

-- The outer loop, from `current` on. `cores` is the array, of which no cell is initialised at first.
unfoldable pub fill : ℕ → (current : List ℕ) → (idx : ℕ) → (cores : List (Option ℕ)) → ℕ → Outcome
fill zero current idx cores n = out_of_fuel
fill (suc fuel) [] idx cores n = parsed cores n
fill (suc fuel) (c ∷ s) idx cores n =
    let ds = digits (c ∷ s) in
    let lookahead = after_digits (c ∷ s) in
    let next = fill fuel (drop 1 lookahead) (idx + 1) (set cores idx (some (core_id ds))) n in
    if not (at_separator lookahead)
    then exits
    else if is_nil ds
    then exits
    else if ltb idx (length cores)
    then next
    else out_of_bounds

-- parse_cores_list; `granted` says whether malloc succeeds.
unfoldable pub parse_cores_list : (granted : Bool) → List ℕ → Outcome
parse_cores_list granted [] = exits
parse_cores_list granted (c ∷ s) =
    let n = count_cores (c ∷ s) in
    let filled = fill (suc (length (c ∷ s))) (c ∷ s) 0 (replicate n none) n in
    if not (isdigit c) then exits else if granted then filled else no_memory
