-- ===== src/Runner/Threads.antt =====
-- Every thread that is started is joined or cancelled.
use vmopsbench.Common.{
  ℕ, ◌+◌, ◌≡◌, ◌≢◌, refl, sym, ap, ◌∙◌, ◌==◌, ==_iff, Option, some, none, List, [], ◌∷◌, ◌++◌,
  arith, if_cases, take,
}
use vmopsbench.Config.{Status, success, failure}
use vmopsbench.Args.{RunArg}
use vmopsbench.Args.Objects.{one_if, occurrences, differs}
use vmopsbench.Runner.{
  Call, barrier_init, barrier_destroy, thread_start, thread_cancel, thread_join, Event, Reply, Os,
  ask, cancel_all, start_all, join_all, wait_all, run_benchmark,
}

abbrev is_start : ℕ → Call → Reply → ℕ
is_start x (thread_start i core) r = one_if (r.value == x)
is_start x _ r = 0

abbrev is_join : ℕ → Call → ℕ
is_join x (thread_join thread) = one_if (thread == x)
is_join x _ = 0

abbrev is_cancel : ℕ → Call → ℕ
is_cancel x (thread_cancel thread) = one_if (thread == x)
is_cancel x _ = 0

abbrev is_destroy : Call → ℕ
is_destroy barrier_destroy = 1
is_destroy _ = 0

-- How often the thread `x` was returned by a start, joined and cancelled, and how often the barrier
-- was destroyed.
abbrev pub starts : ℕ → List Event → ℕ
starts x [] = 0
starts x (e ∷ t) = is_start x e.call e.reply + starts x t

abbrev pub joins : ℕ → List Event → ℕ
joins x [] = 0
joins x (e ∷ t) = is_join x e.call + joins x t

abbrev pub cancels : ℕ → List Event → ℕ
cancels x [] = 0
cancels x (e ∷ t) = is_cancel x e.call + cancels x t

abbrev pub barriers_destroyed : List Event → ℕ
barriers_destroyed [] = 0
barriers_destroyed (e ∷ t) = is_destroy e.call + barriers_destroyed t

-- From `t` to `t'`, the thread `x` was started, joined and cancelled so many times more, and the
-- barrier destroyed `b` times.
record Moved (x : ℕ) (t t' : List Event) (s j c b : ℕ) : Type 0 where
  started : starts x t' ≡ s + starts x t
  joined : joins x t' ≡ j + joins x t
  cancelled : cancels x t' ≡ c + cancels x t
  destroyed : barriers_destroyed t' ≡ b + barriers_destroyed t

occurrences-append :
    (x : ℕ) (k l : List ℕ) → occurrences x (k ++ l) ≡ occurrences x k + occurrences x l
occurrences-append x [] l = omega arith
occurrences-append x (o ∷ k) l = omega (arith, occurrences-append x k l)

module _ (os : Os) (x : ℕ) (thread : x ≢ 0) where
  null : (h : ℕ) → h ≡ 0 → one_if (h == x) ≡ 0
  null h e = ap one_if (differs h x (λ k. thread (sym k ∙ e)))

  cancel_all-Moved :
      (l : List ℕ) (t : List Event) → Moved x t (cancel_all os l t) 0 0 (occurrences x l) 0
  unfolding cancel_all
  cancel_all-Moved [] t = record {
    started = omega arith;
    joined = omega arith;
    cancelled = omega arith;
    destroyed = omega arith;
  }
  cancel_all-Moved (h ∷ l) t =
      let m = cancel_all-Moved l (ask os (thread_cancel h) t).1 in
      record {
        started = omega (arith, m.started);
        joined = omega (arith, m.joined);
        cancelled = omega (arith, m.cancelled);
        destroyed = omega (arith, m.destroyed);
      }

  join_all-Moved :
      (l : List ℕ) (t : List Event) → Moved x t (join_all os l t) 0 (occurrences x l) 0 0
  unfolding join_all
  join_all-Moved [] t = record {
    started = omega arith;
    joined = omega arith;
    cancelled = omega arith;
    destroyed = omega arith;
  }
  join_all-Moved (h ∷ l) t =
      if_cases (λ u. Moved x t (join_all os l u) 0 (one_if (h == x) + occurrences x l) 0 0) (h == 0)
        (λ e.
          let m = join_all-Moved l t in
          record {
            started = m.started;
            joined = omega (arith, m.joined, null h ((==_iff h 0).0 e));
            cancelled = m.cancelled;
            destroyed = m.destroyed;
          })
        (λ e.
          let m = join_all-Moved l (ask os (thread_join h) t).1 in
          record {
            started = omega (arith, m.started);
            joined = omega (arith, m.joined);
            cancelled = omega (arith, m.cancelled);
            destroyed = omega (arith, m.destroyed);
          })

  -- All of the threads were started, or those before the one that failed were cancelled.
  Started : (t : List Event) (before : List ℕ) → Option (List ℕ) × List Event → Type 0
  Started t before (some l, t') =
      (s : ℕ) × Moved x t t' s 0 0 0 × (occurrences x l ≡ occurrences x before + s)
  Started t before (none, t') = (s : ℕ) × Moved x t t' s 0 (occurrences x before + s) 0

  next-Started :
      (t t' : List Event) (before : List ℕ) (v : ℕ) (r : Option (List ℕ) × List Event)
      → Moved x t t' (one_if (v == x)) 0 0 0
      → Started t' (before ++ v ∷ []) r
      → Started t before r
  unfolding Started
  next-Started t t' before v (some l, u) m (s, k, o) = (
    one_if (v == x) + s,
    record {
      started = omega (arith, m.started, k.started);
      joined = omega (arith, m.joined, k.joined);
      cancelled = omega (arith, m.cancelled, k.cancelled);
      destroyed = omega (arith, m.destroyed, k.destroyed);
    },
    omega (arith, o, occurrences-append x before (v ∷ [])),
  )
  next-Started t t' before v (none, u) m (s, k) = (
    one_if (v == x) + s,
    record {
      started = omega (arith, m.started, k.started);
      joined = omega (arith, m.joined, k.joined);
      cancelled = omega (arith, m.cancelled, k.cancelled, occurrences-append x before (v ∷ []));
      destroyed = omega (arith, m.destroyed, k.destroyed);
    },
  )

  start_all-Started :
      (i : ℕ) (before : List ℕ) (args : List RunArg) (t : List Event)
      → Started t before (start_all os i before args t)
  unfolding start_all Started
  start_all-Started i before [] t = (
    0,
    record {
      started = omega arith;
      joined = omega arith;
      cancelled = omega arith;
      destroyed = omega arith;
    },
    omega arith,
  )
  start_all-Started i before (a ∷ args) t =
      let (r, t') = ask os (thread_start i a.coreid) t in
      if_cases (Started t before) (r.value == 0)
        (λ e.
          let m = cancel_all-Moved before t' in
          (
            0,
            record {
              started = omega (arith, m.started, null r.value ((==_iff r.value 0).0 e));
              joined = omega (arith, m.joined);
              cancelled = omega (arith, m.cancelled);
              destroyed = omega (arith, m.destroyed);
            },
          ))
        (λ e.
          next-Started t t' before r.value (start_all os (i + 1) (before ++ r.value ∷ []) args t')
            (record {
              started = refl;
              joined = omega arith;
              cancelled = omega arith;
              destroyed = omega arith;
            })
            (start_all-Started (i + 1) (before ++ r.value ∷ []) args t'))

-- How a run accounts for the thread `x` and for the barrier.
abbrev pub Accounted : (x : ℕ) (t : List Event) → Status × List Event → Type 0
Accounted x t (success, t') =
    (starts x t' + joins x t ≡ starts x t + joins x t')
    × (cancels x t' ≡ cancels x t)
    × (barriers_destroyed t' ≡ barriers_destroyed t + 1)
Accounted x t (failure, t') =
    (starts x t' + cancels x t ≡ starts x t + cancels x t')
    × (joins x t' ≡ joins x t)
    × (barriers_destroyed t' ≡ barriers_destroyed t)

module _ (os : Os) (x : ℕ) (thread : x ≢ 0) where
  wait_all-Accounted :
      (t u : List Event) (r : Option (List ℕ) × List Event)
      → Moved x t u 0 0 0 0
      → Started os x thread u [] r
      → Accounted x t (wait_all os r)
  unfolding wait_all Started
  wait_all-Accounted t u (none, t') m (s, k) = (
    omega (arith, m.started, m.cancelled, k.started, k.cancelled),
    omega (arith, m.joined, k.joined),
    omega (arith, m.destroyed, k.destroyed),
  )
  wait_all-Accounted t u (some l, t') m (s, k, o) =
      let j = join_all-Moved os x thread l t' in
      (
        omega (arith, m.started, m.joined, k.started, k.joined, j.started, j.joined, o),
        omega (arith, m.cancelled, k.cancelled, j.cancelled),
        omega (arith, m.destroyed, k.destroyed, j.destroyed),
      )

-- A run that reports success has joined every thread as often as it has started it, cancelled none,
-- and destroyed the barrier once; a run that reports failure has cancelled every thread that it
-- started, joined none, and left the barrier. NULL is no thread.
pub run_benchmark_accounts :
    (os : Os) (nthreads : ℕ) (args : List RunArg) (t : List Event) (x : ℕ)
    → x ≢ 0
    → Accounted x t (run_benchmark os nthreads args t)
unfolding run_benchmark
run_benchmark_accounts os nthreads args t x h =
    let (r, t') = ask os (barrier_init nthreads) t in
    if_cases (Accounted x t) r.ok
      (λ e.
        wait_all-Accounted os x h t t' (start_all os 0 [] (take nthreads args) t')
          (record {
            started = omega arith;
            joined = omega arith;
            cancelled = omega arith;
            destroyed = omega arith;
          })
          (start_all-Started os x h 0 [] (take nthreads args) t'))
      (λ e. (omega arith, omega arith, omega arith))
