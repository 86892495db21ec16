-- ===== src/Barrelfish/Init/Spans.antt =====
-- src/platform/barrelfish.c, plat_init: which cores it has reached when it ends.
use vmopsbench.Common.{
  ℕ, zero, suc, ◌+◌, ◌<◌, ◌≤◌, ◌≡◌, refl, ap, ◌∙◌, false, not, ltb, ltb→lt, List, [], ◌∷◌, ◌++◌,
  map, replicate, if_cases, if_rule, arith, ◌⊎◌, inl, inr,
}
use mathlib.Core.Path.{subst}
use vmopsbench.Config.{Cfg}
use vmopsbench.Platform.{err_ok, err_init_failed}
use vmopsbench.Args.{core_at}
use vmopsbench.Barrelfish.Init.{
  Call, skb_client_connect, cnode_create_raw, thread_yield, thread_sem_wait, domain_new_dispatcher,
  domain_thread_create_on, Event, System, Sys, Init, returns, system_error, aborted, waiting,
  and_then, ask, span_cores, await_cores, remote_inits, plat_init, start,
}

-- The calls of a history, the latest first, and how often domain_init_done has run.
abbrev pub calls : List Event → List Call
calls t = map (λ (e : Event). e.call) t

abbrev pub callbacks : List Event → ℕ
callbacks [] = 0
callbacks (e ∷ t) = e.reply.callbacks + callbacks t

module _ (cfg : Cfg) where
  -- What the loops ask for the first `i` cores, the latest call first.
  abbrev pub dispatchers : (i : ℕ) → List Call
  dispatchers zero = []
  dispatchers (suc i) = domain_new_dispatcher (core_at cfg i) ∷ dispatchers i

  abbrev pub remotes : (i : ℕ) → List Call
  remotes zero = []
  remotes (suc i) = thread_sem_wait ∷ domain_thread_create_on (core_at cfg i) ∷ remotes i

  -- Some thread of a core, or its dispatcher, was refused.
  abbrev pub Refused : List Event → Type 0
  Refused [] = ⊥
  Refused (e ∷ t) = (e.reply.ok ≡ false)

  abbrev pub Counts : Sys → Type 0
  Counts s = s.initialized ≡ 1 + callbacks s.trace

  -- Between the calls: what was asked so far.
  abbrev Asked : List Call → Init → Type 0
  Asked l (returns e s) = (e ≡ err_ok) × (calls s.trace ≡ l) × Counts s
  Asked l (system_error s) = ⊥
  Asked l (aborted s) = Refused s.trace
  Asked l (waiting s) = ⊥

  -- The remote threads are asked for after the calls of `base`.
  abbrev Reached : (base : List Event) (m : ℕ) → Init → Type 0
  Reached base m (returns e s) =
      (e ≡ err_ok) × ((later : List Event) × (s.trace ≡ later ++ base) × (calls later ≡ remotes m))
  Reached base m (system_error s) = ⊥
  Reached base m (aborted s) = Refused s.trace
  Reached base m (waiting s) = ⊥

  module _ (sys : System) where
    span_cores-Asked :
        (n i m : ℕ) (s : Sys) (rest : List Call)
        → i + n ≡ m
        → calls s.trace ≡ dispatchers i ++ rest
        → Counts s
        → Asked (dispatchers m ++ rest) (span_cores sys cfg n i s)
    unfolding span_cores
    span_cores-Asked zero i m s rest e l c =
        (refl, l ∙ ap (λ k. dispatchers k ++ rest) (omega (arith, e)), c)
    span_cores-Asked (suc n) i m s rest e l c =
        let d = domain_new_dispatcher (core_at cfg i) in
        let (r, s') = ask sys cfg d s in
        if_cases (Asked (dispatchers m ++ rest)) (not r.ok) (λ g. ground arith)
          (λ g.
            span_cores-Asked n (i + 1) m s' rest (omega (arith, e))
              (subst (λ k. d ∷ calls s.trace ≡ dispatchers k ++ rest) (add_one i)
                (ap (λ t. d ∷ t) l))
              (omega (arith, c)))
      where
        add_one : (i : ℕ) → suc i ≡ i + 1
        add_one i = omega arith

    remote_inits-Reached :
        (n i m : ℕ) (s : Sys) (base later : List Event)
        → i + n ≡ m
        → s.trace ≡ later ++ base
        → calls later ≡ remotes i
        → Reached base m (remote_inits sys cfg n i s)
    unfolding remote_inits
    remote_inits-Reached zero i m s base later e t l =
        (refl, (later, t, l ∙ ap remotes (omega (arith, e))))
    remote_inits-Reached (suc n) i m s base later e t l =
        let d = domain_thread_create_on (core_at cfg i) in
        let (r, s') = ask sys cfg d s in
        let (q, s2) = ask sys cfg thread_sem_wait s' in
        let a : Event = record { call = d; reply = r } in
        let b : Event = record { call = thread_sem_wait; reply = q } in
        if_cases (Reached base m) (not r.ok) (λ g. ground arith)
          (λ g.
            remote_inits-Reached n (i + 1) m s2 base (b ∷ (a ∷ later)) (omega (arith, e))
              (ap (λ k. b ∷ (a ∷ k)) t)
              (subst (λ k. thread_sem_wait ∷ (d ∷ calls later) ≡ remotes k) (add_one i)
                (ap (λ k. thread_sem_wait ∷ (d ∷ k)) l)))
      where
        add_one : (i : ℕ) → suc i ≡ i + 1
        add_one i = omega arith

replicate-step {ℓ} :
    {A : Type ℓ} (k : ℕ) (a : A) (l : List A) → replicate k a ++ (a ∷ l) ≡ replicate (suc k) a ++ l
replicate-step zero a l = refl
replicate-step (suc k) a l = ap (λ t. a ∷ t) (replicate-step k a l)

module _ (cfg : Cfg) where
  -- After the wait: some rounds, and enough cores; or all rounds, and too few.
  abbrev Awaited : (fuel : ℕ) → List Call → Init → Type 0
  Awaited fuel l (returns e s) =
      (k : ℕ) × (e ≡ err_ok)
      × (calls s.trace ≡ replicate k thread_yield ++ l)
      × Counts cfg s
      × (cfg.corelist_size ≤ s.initialized)
  Awaited fuel l (system_error s) = ⊥
  Awaited fuel l (aborted s) = Refused cfg s.trace
  Awaited fuel l (waiting s) =
      (calls s.trace ≡ replicate fuel thread_yield ++ l)
      × Counts cfg s
      × (s.initialized < cfg.corelist_size)

  one_more :
      (fuel : ℕ) (l : List Call) (r : Init)
      → Awaited fuel (thread_yield ∷ l) r
      → Awaited (suc fuel) l r
  one_more fuel l (returns e s) (k, z, c, n, m) =
      (suc k, z, c ∙ replicate-step k thread_yield l, n, m)
  one_more fuel l (system_error s) h = h
  one_more fuel l (aborted s) h = h
  one_more fuel l (waiting s) (c, n, m) = (c ∙ replicate-step fuel thread_yield l, n, m)

  await_cores-Awaited :
      (sys : System) (fuel : ℕ) (s : Sys) (l : List Call)
      → calls s.trace ≡ l
      → Counts cfg s
      → Awaited fuel l (await_cores sys cfg fuel s)
  unfolding await_cores
  await_cores-Awaited sys zero s l e c =
      if_cases (Awaited zero l) (ltb s.initialized cfg.corelist_size) (λ g. (e, c, ltb→lt _ _ g))
        (λ g. (0, refl, e, c, ground arith))
  await_cores-Awaited sys (suc fuel) s l e c =
      let s' = (ask sys cfg thread_yield s).1 in
      if_cases (Awaited (suc fuel) l) (ltb s.initialized cfg.corelist_size)
        (λ g. one_more fuel l (await_cores sys cfg fuel s') (
          await_cores-Awaited sys fuel s' (thread_yield ∷ l) (ap (λ t. thread_yield ∷ t) e)
            (omega (arith, c))))
        (λ g. (0, refl, e, c, ground arith))

  -- The calls of the connection and of the dispatchers.
  abbrev pub opening : List Call
  opening = dispatchers cfg cfg.corelist_size ++ (cnode_create_raw ∷ (skb_client_connect ∷ []))

  -- How plat_init ends, with what it has called, the latest call first.
  abbrev pub Spanned : (fuel : ℕ) → Init → Type 0
  Spanned fuel (returns e s) =
      ((e ≡ err_init_failed) × (calls s.trace ≡ skb_client_connect ∷ []))
      ⊎ ((k : ℕ) × (e ≡ err_ok)
          × ((earlier : List Event) × (later : List Event) × (s.trace ≡ later ++ earlier)
              × (calls earlier ≡ replicate k thread_yield ++ opening)
              × (cfg.corelist_size ≤ 1 + callbacks earlier)
              × (calls later ≡ remotes cfg cfg.corelist_size)))
  Spanned fuel (system_error s) = calls s.trace ≡ cnode_create_raw ∷ (skb_client_connect ∷ [])
  Spanned fuel (aborted s) = Refused cfg s.trace
  Spanned fuel (waiting s) =
      (calls s.trace ≡ replicate fuel thread_yield ++ opening)
      × (1 + callbacks s.trace < cfg.corelist_size)

  finish :
      (fuel k : ℕ) (earlier : List Event) (r : Init)
      → calls earlier ≡ replicate k thread_yield ++ opening
      → cfg.corelist_size ≤ 1 + callbacks earlier
      → Reached cfg earlier cfg.corelist_size r
      → Spanned fuel r
  finish fuel k earlier (returns e s) c m (z, (later, t, l)) =
      inr (k, z, (earlier, later, t, c, m, l))
  finish fuel k earlier (system_error s) c m h = absurd h
  finish fuel k earlier (aborted s) c m h = h
  finish fuel k earlier (waiting s) c m h = absurd h

  after_wait :
      (sys : System) (fuel : ℕ) (r : Init)
      → Awaited fuel opening r
      → Spanned fuel (and_then r (remote_inits sys cfg cfg.corelist_size 0))
  after_wait sys fuel (returns e s) (k, z, c, n, m) =
      finish fuel k s.trace (remote_inits sys cfg cfg.corelist_size 0 s) c (omega (arith, n, m)) (
        remote_inits-Reached cfg sys cfg.corelist_size 0 cfg.corelist_size s s.trace []
          (omega arith) refl refl)
  after_wait sys fuel (system_error s) h = absurd h
  after_wait sys fuel (aborted s) h = h
  after_wait sys fuel (waiting s) (c, n, m) = (c, omega (arith, n, m))

  after_span :
      (sys : System) (fuel : ℕ) (r : Init)
      → Asked cfg opening r
      → Awaited fuel opening (and_then r (await_cores sys cfg fuel))
  after_span sys fuel (returns e s) (z, c, n) = await_cores-Awaited sys fuel s opening c n
  after_span sys fuel (system_error s) h = absurd h
  after_span sys fuel (aborted s) h = h
  after_span sys fuel (waiting s) h = absurd h

-- The initialisation of the Barrelfish backend, whatever the system replies. When it returns success
-- it has asked for a dispatcher on each core of the list, in its order, and then, after at least all
-- but one of the dispatchers have called back, for a remote thread on each core, in its order, waiting
-- for each. When the connection or the cnode fails, it has asked for no dispatcher; when an assertion
-- ends it, its last call was refused; and when the model's rounds of waiting have run out, all of them
-- were spent, and more than one of the callbacks were missing.
pub plat_init_spans :
    (sys : System) (cfg : Cfg) (fuel : ℕ) → Spanned cfg fuel (plat_init sys cfg fuel start)
unfolding plat_init
plat_init_spans sys cfg fuel =
    let (c, s1) = ask sys cfg skb_client_connect start in
    let (n, s2) = ask sys cfg cnode_create_raw s1 in
    if_rule (Spanned cfg fuel) (not c.ok) (inl (refl, refl)) (
      if_rule (Spanned cfg fuel) (not n.ok) refl (
        after_wait cfg sys fuel
          (and_then (span_cores sys cfg cfg.corelist_size 0 s2) (await_cores sys cfg fuel))
          (after_span cfg sys fuel (span_cores sys cfg cfg.corelist_size 0 s2) (
            span_cores-Asked cfg sys cfg.corelist_size 0 cfg.corelist_size s2
              (cnode_create_raw ∷ (skb_client_connect ∷ [])) (omega arith) refl (omega arith)))))
