-- ===== src/Barrelfish/Threads/Memory.antt =====
-- src/platform/barrelfish.c: threads over any sequence of operations.
use vmopsbench.Common.{
  ℕ, zero, suc, ◌+◌, ◌≡◌, ◌⊎◌, inl, inr, Bool, true, false, ◌&&◌, ◌||◌, not, ◌==◌, ==_iff, Option,
  List, [], ◌∷◌, if_cases, if_rule, arith, held, state_of, IfAny, one_if,
}
use vmopsbench.Barrier.{Mem}
use vmopsbench.Barrelfish.Threads.{
  Call, malloc_thread, malloc_barrier, free, domain_send_cap, event_dispatch, thread_yield,
  domain_thread_create_on, Reply, Event, System, Thread, Sys, ask, tell, let_run, create_thread,
  plat_thread_start,
}

abbrev given : (x : ℕ) → Reply → ℕ
given x r = one_if (r.ok && (r.value == x))

abbrev is_malloc : (x : ℕ) → Call → Reply → ℕ
is_malloc x malloc_thread r = given x r
is_malloc x malloc_barrier r = given x r
is_malloc x _ r = 0

abbrev is_free : (x : ℕ) → Call → ℕ
is_free x (free p) = one_if (p == x)
is_free x _ = 0

-- How often malloc has returned the pointer `x`, and how often it was freed.
abbrev pub mallocs : (x : ℕ) → List Event → ℕ
mallocs x [] = 0
mallocs x (e ∷ t) = is_malloc x e.call e.reply + mallocs x t

abbrev pub frees : (x : ℕ) → List Event → ℕ
frees x [] = 0
frees x (e ∷ t) = is_free x e.call + frees x t

abbrev pub barriers_at : (x : ℕ) → List (ℕ × ℕ × Mem) → ℕ
barriers_at x [] = 0
barriers_at x ((q, n, m) ∷ l) = one_if (q == x) + barriers_at x l

-- Allocated are the threads, the barriers, and `extra`.
abbrev Owes : (extra : ℕ → ℕ) → Sys → Type 0
Owes extra s =
    (x : ℕ)
    → mallocs x s.trace ≡ frees x s.trace + held x s.threads + barriers_at x s.barriers + extra x

abbrev is_send : (core : ℕ) → Call → Reply → Bool
is_send core (domain_send_cap coreid memobj) r = r.ok && (coreid == core)
is_send core _ r = false

-- A capability was sent to the core.
abbrev pub has_sent : (core : ℕ) → List Event → Bool
has_sent core [] = false
has_sent core (e ∷ t) = is_send core e.call e.reply || has_sent core t

abbrev Introduces : (own : ℕ) → Call → List Event → Type 0
Introduces own (domain_thread_create_on coreid p) t = (coreid ≡ own) ⊎ (has_sent coreid t ≡ true)
Introduces own _ t = Unit {0}

-- A thread is created on the core of the caller, or on one to which a capability was sent before.
abbrev pub Introduced : (own : ℕ) → List Event → Type 0
Introduced own [] = Unit
Introduced own (e ∷ t) = Introduces own e.call t × Introduced own t

abbrev nothing : ℕ → ℕ
nothing x = 0

-- The memory of the threads that were started and neither joined nor cancelled, and of the barriers.
abbrev pub Sound : System → Sys → Type 0
Sound sys s =
    ((x : ℕ) → mallocs x s.trace ≡ frees x s.trace + held x s.threads + barriers_at x s.barriers)
    × Introduced sys.core_id s.trace

module _ (sys : System) where
  let_run-Owes : (extra : ℕ → ℕ) (n : ℕ) (s : Sys) → Owes extra s → Owes extra (let_run sys n s)
  unfolding let_run
  let_run-Owes extra zero s h = h
  let_run-Owes extra (suc n) s h =
      let_run-Owes extra n (tell sys thread_yield (tell sys event_dispatch s))
        (λ x. omega (arith, h x))

  let_run-Introduced :
      (n : ℕ) (s : Sys)
      → Introduced sys.core_id s.trace
      → Introduced sys.core_id (let_run sys n s).trace
  unfolding let_run
  let_run-Introduced zero s h = h
  let_run-Introduced (suc n) s h =
      let_run-Introduced n (tell sys thread_yield (tell sys event_dispatch s)) (tt, (tt, h))

  let_run-has_sent :
      (core n : ℕ) (s : Sys)
      → has_sent core s.trace ≡ true
      → has_sent core (let_run sys n s).trace ≡ true
  unfolding let_run
  let_run-has_sent core zero s h = h
  let_run-has_sent core (suc n) s h =
      let_run-has_sent core n (tell sys thread_yield (tell sys event_dispatch s)) h

  create_thread-Sound :
      (p run st coreid : ℕ) (s : Sys)
      → Owes (λ x. one_if (p == x)) s
      → Introduced sys.core_id s.trace
      → (coreid ≡ sys.core_id) ⊎ (has_sent coreid s.trace ≡ true)
      → IfAny (Sound sys) (state_of (create_thread sys p run st coreid s))
  unfolding create_thread
  create_thread-Sound p run st coreid s h i g =
      let s1 = let_run sys 16 s in
      let (c, s2) = ask sys (domain_thread_create_on coreid p) s1 in
      let thread : Thread = record { thread = c.value; coreid = coreid; run = run; st = st } in
      let s3 = record s2 { threads = (p, thread) ∷ s2.threads } in
      let w1 = let_run-Owes (λ x. one_if (p == x)) 16 s h in
      let w3 : Owes nothing s3 = λ x. omega (arith, w1 x) in
      let met : Introduces sys.core_id (domain_thread_create_on coreid p) s1.trace = elim g [
        | inl same ↦ inl same
        | inr sent ↦ inr (let_run-has_sent coreid 16 s sent)
      ] in
      if_rule (λ (r : Option (Option ℕ × Sys)). IfAny (Sound sys) (state_of r)) c.ok
        (
          λ x. omega (arith, let_run-Owes nothing 16 s3 w3 x),
          let_run-Introduced 16 s3 (met, let_run-Introduced 16 s i),
        )
        tt

  pub start-Sound :
      (run st memobj coreid : ℕ) (s : Sys)
      → Sound sys s
      → IfAny (Sound sys) (state_of (plat_thread_start sys run st memobj coreid s))
  unfolding plat_thread_start
  start-Sound run st memobj coreid s (w, i) =
      let (m, s1) = ask sys malloc_thread s in
      let (c, s2) = ask sys (domain_send_cap coreid memobj) s1 in
      let P = λ (r : Option (Option ℕ × Sys)). IfAny (Sound sys) (state_of r) in
      if_cases P (not m.ok) (λ e. (λ x. ground (arith, w x), (tt, i)))
        (λ e.
          if_cases P (coreid == sys.core_id)
            (λ same.
              create_thread-Sound m.value run st coreid s1 (λ x. ground (arith, w x)) (tt, i)
                (inl ((==_iff _ _).0 same)))
            (λ other.
              if_cases P (not c.ok) (λ g. (λ x. ground (arith, w x), (tt, (tt, (tt, i)))))
                (λ g.
                  create_thread-Sound m.value run st coreid s2 (λ x. ground (arith, w x))
                    (tt, (tt, i)) (inr (ground arith)))))
