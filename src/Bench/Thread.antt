-- ===== src/Bench/Thread.antt =====
-- What the benchmark threads share: the start of the measurement, the timed loop, and the end.
use vmopsbench.Common.{ℕ, suc, ◌≤◌, ◌<◌, ◌≡◌, ◌⊎◌, arith}
use vmopsbench.Bench.World.{Plat, Worker, Cmd, tell, now, barrier, sub_u64, end_of}
use vmopsbench.Bench.Loop.{
  Ended, finished, aborted, out_of_fuel, timed_loop, timed_loop-Ends, Inv, Fail, After, Ends,
}

-- How a thread function differs around its loop: what it does between the last reading of the time
-- and the barrier, and after a loop that a failed call has left.
pub record Hooks (S : Type 0) : Type 0 where
  pub publish : Worker → Worker
  pub recover : S → Worker → Worker

-- Nothing in either place.
abbrev pub no_hooks : {S : Type 0} → Hooks S
no_hooks = record { publish = λ w. w; recover = λ s w. w }

module _ (plat : Plat) {S : Type 0} (hooks : Hooks S) where
  -- After the loop: the time is taken and the barrier entered before the results are written. A
  -- loop that a failed call has left returns without the barrier.
  unfoldable pub conclude : (t_start : ℕ) → Ended S × Worker → Worker
  conclude t_start (finished counter t s, w) =
      let (t_end, w') = now plat w in
      let w'' = tell plat barrier (hooks.publish w') in
      record w'' { count = counter; duration = sub_u64 t_end t_start }
  conclude t_start (aborted counter s, w) = hooks.recover s w
  conclude t_start (out_of_fuel, w) = w

  -- From the barrier on: read the time, run the loop to the time limit or the operation limit. The
  -- fuel is one more than the operations that the loop may do.
  unfoldable pub measure :
      (body : (t_start counter t_current : ℕ) → S → Cmd (ℕ × S))
      → (t_delta nops : ℕ) → S
      → Worker
      → Worker
  measure body t_delta nops s w =
      let (t_current, w') = now plat (tell plat barrier w) in
      conclude t_current
        (timed_loop (body t_current) (end_of t_delta t_current) nops (suc nops) 0 t_current s w')

-- The time and the state in which the timed loop starts.
unfoldable pub started : Plat → Worker → ℕ × Worker
started plat w = now plat (tell plat barrier w)

module _ (plat : Plat) {S : Type 0} (hooks : Hooks S)
    (body : (t_start counter t_current : ℕ) → S → Cmd (ℕ × S)) (t_delta nops : ℕ) (s : S)
    (v : Worker) (P : Inv S) (Q : Fail S) (R : Worker → Type 0) where
  abbrev first : ℕ
  first = (started plat v).0

  -- A measurement ends in `R`, if each round keeps `P` or fails in `Q`, and both ways to leave the
  -- loop lead to `R`.
  pub measure_rule :
      ((counter t : ℕ) (s : S) (w : Worker)
        → P counter t s w
        → counter < nops
        → After P Q counter s (body first counter t s w))
      → P 0 first s (started plat v).1
      → ((counter t : ℕ) (s : S) (w : Worker)
          → P counter t s w
          → counter ≤ nops
          → ((end_of t_delta first ≤ t) ⊎ (counter ≡ nops))
          → R (conclude plat hooks first (finished counter t s, w)))
      → ((counter : ℕ) (s : S) (w : Worker)
          → Q counter s w
          → counter < nops
          → R (hooks.recover s w))
      → R (measure plat hooks body t_delta nops s v)
  unfolding measure started conclude
  measure_rule keep start done left =
      by_end
        (timed_loop (body first) (end_of t_delta first) nops (suc nops) 0 first s
          (started plat v).1)
        (timed_loop-Ends (body first) (end_of t_delta first) nops P Q
          (λ c t s' w p a b. keep c t s' w p b) (suc nops) 0 first s (started plat v).1
          (omega arith) (omega arith) start)
    where
      by_end :
          (r : Ended S × Worker)
          → Ends P Q (end_of t_delta first) nops r
          → R (conclude plat hooks first r)
      by_end (finished c t s', w) (p, h, stop) = done c t s' w p h stop
      by_end (aborted c s', w) (q, h) = left c s' w q h
      by_end (out_of_fuel, w) e = absurd e
