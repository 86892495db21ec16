-- ===== src/Bench/Loop.antt =====
-- The timed loop that every benchmark thread runs, and its rule.
use vmopsbench.Common.{
  ℕ, zero, suc, ◌+◌, ◌≤◌, ◌<◌, ◌≡◌, ◌⊎◌, inl, inr, true, false, ◌&&◌, ltb, arith, Bool-cases,
  Option, some, none,
}
use mathlib.Core.Path.{subst, sym}
use vmopsbench.Bench.World.{Worker, Cmd}

-- How the loop ends: with its count, the last time and the locals; `out_of_fuel` is the model's.
pub data Ended (S : Type 0) : Type 0 where
  finished : (counter t_current : ℕ) → S → Ended S
  aborted : (counter : ℕ) → S → Ended S
  out_of_fuel : Ended S

-- An invariant over the count, the time, the locals and the thread, and the claim of a failed round.
abbrev pub Inv : Type 0 → Type 1
Inv S = (counter t_current : ℕ) → S → Worker → Type 0

abbrev pub Fail : Type 0 → Type 1
Fail S = (counter : ℕ) → S → Worker → Type 0

module _ {S : Type 0} (P : Inv S) (Q : Fail S) where
  -- What a round leaves: the invariant one operation later, or the claim of a failed round.
  abbrev pub After : (counter : ℕ) → S → Option (ℕ × S) × Worker → Type 0
  After counter s (some (t, s'), w) = P (counter + 1) t s' w
  After counter s (none, w) = Q counter s w

  -- How the loop is left: by one of its two tests, or by a failed round before the last one.
  abbrev pub Ends : (t_end nops : ℕ) → Ended S × Worker → Type 0
  Ends t_end nops (finished counter t s, w) =
      P counter t s w × (counter ≤ nops) × ((t_end ≤ t) ⊎ (counter ≡ nops))
  Ends t_end nops (aborted counter s, w) = Q counter s w × (counter < nops)
  Ends t_end nops (out_of_fuel, w) = ⊥

module _ {S : Type 0} (body : (counter t_current : ℕ) → S → Cmd (ℕ × S)) (t_end nops : ℕ) where
  -- while (t_current < t_end && counter < nops) { ...; counter++; }
  unfoldable pub timed_loop : (fuel counter t_current : ℕ) → S → Worker → Ended S × Worker
  timed_loop zero counter t s w = (out_of_fuel, w)
  timed_loop (suc fuel) counter t s w = elim (ltb t t_end && ltb counter nops) [
    | false ↦ (finished counter t s, w)
    | true ↦
        (let (r, w') = body counter t s w in
          elim r [
            | some (t', s') ↦ timed_loop fuel (counter + 1) t' s' w'
            | none ↦ (aborted counter s, w')
          ])
  ]

  timed_loop-stop :
      (fuel counter t : ℕ) (s : S) (w : Worker)
      → (ltb t t_end && ltb counter nops) ≡ false
      → timed_loop (suc fuel) counter t s w ≡ (finished counter t s, w)
  unfolding timed_loop
  timed_loop-stop fuel counter t s w e = rw (e, timed_loop)

  timed_loop-round :
      (fuel counter t : ℕ) (s : S) (w : Worker)
      → (ltb t t_end && ltb counter nops) ≡ true
      → timed_loop (suc fuel) counter t s w ≡ elim ((body counter t s w).0) [
        | some (t', s') ↦ timed_loop fuel (counter + 1) t' s' (body counter t s w).1
        | none ↦ (aborted counter s, (body counter t s w).1)
      ]
  unfolding timed_loop
  timed_loop-round fuel counter t s w e = rw (e, timed_loop)

  module _ (P : Inv S) (Q : Fail S) where
    module _
        (keep : (counter t : ℕ) (s : S) (w : Worker)
          → P counter t s w
          → t < t_end
          → counter < nops
          → After P Q counter s (body counter t s w)) where
      tests_passed :
          (t counter : ℕ)
          → (ltb t t_end && ltb counter nops) ≡ true
          → (t < t_end) × (counter < nops)
      tests_passed t counter e = ground arith

      test_failed :
          (t counter : ℕ)
          → (ltb t t_end && ltb counter nops) ≡ false
          → counter ≤ nops
          → (t_end ≤ t) ⊎ (counter ≡ nops)
      test_failed t counter e h = ground arith

      continue-Ends :
          (fuel counter : ℕ) (s' : S)
          → ((t : ℕ) (s : S) (w : Worker)
              → P (counter + 1) t s w
              → Ends P Q t_end nops (timed_loop fuel (counter + 1) t s w))
          → (r : Option (ℕ × S) × Worker) → After P Q counter s' r
          → counter < nops
          → Ends P Q t_end nops (elim r.0 [
            | some (t, s) ↦ timed_loop fuel (counter + 1) t s r.1
            | none ↦ (aborted counter s', r.1)
          ])
      continue-Ends fuel counter s' ih (some (t, s), w) q b = ih t s w q
      continue-Ends fuel counter s' ih (none, w) q b = (q, b)

      -- With an invariant that each round keeps, and fuel for the operations that are left, the loop
      -- ends and leaves what `Ends` says.
      pub timed_loop-Ends :
          (fuel counter t : ℕ) (s : S) (w : Worker)
          → nops < counter + fuel
          → counter ≤ nops
          → P counter t s w
          → Ends P Q t_end nops (timed_loop fuel counter t s w)
      timed_loop-Ends zero counter t s w f h p = absurd (omega arith)
      timed_loop-Ends (suc fuel) counter t s w f h p =
          elim (Bool-cases (ltb t t_end && ltb counter nops)) [
            | inr e ↦
                subst (Ends P Q t_end nops) (sym (timed_loop-stop fuel counter t s w e))
                  (p, h, test_failed t counter e h)
            | inl e ↦
                let (a, b) = tests_passed t counter e in
                let ih = λ (t' : ℕ) (s' : S) (w' : Worker) (q : P (counter + 1) t' s' w').
                  timed_loop-Ends fuel (counter + 1) t' s' w' (omega arith) (omega arith) q in
                subst (Ends P Q t_end nops) (sym (timed_loop-round fuel counter t s w e)) (
                  continue-Ends fuel counter s ih (body counter t s w) (keep counter t s w p a b) b)
          ]
