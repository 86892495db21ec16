-- ===== src/Barrelfish/Init.antt =====
-- src/platform/barrelfish.c: plat_init, which spans the domain to all cores of the configuration.
pub mod Spans
mod Tests
use vmopsbench.Common.{
  ℕ, zero, suc, ◌+◌, Bool, true, false, not, if◌then◌else◌, ltb, Option, List, [], ◌∷◌,
}
use vmopsbench.Config.{CoreRead, Cfg}
use vmopsbench.Platform.{PlatError, err_ok, err_init_failed}
use vmopsbench.Args.{core_at}

-- The calls of the system; a core is what the read of the list gives.
pub data Call : Type 0 where
  skb_client_connect cnode_create_raw thread_yield thread_sem_wait : Call
  domain_new_dispatcher domain_thread_create_on : (core : CoreRead) → Call

-- `callbacks` is how often domain_init_done has run by the end of the call, since the last one.
pub record Reply : Type 0 where
  pub ok : Bool
  pub callbacks : ℕ

pub record Event : Type 0 where
  pub call : Call
  pub reply : Reply

abbrev pub System : Type 0
System = List Event → Call → Reply

-- The calls so far, and cores_initialized.
pub record Sys : Type 0 where
  pub trace : List Event
  pub initialized : ℕ

-- How plat_init ends: with a result of the platform, with an error of the system in its place, in a
-- failed assertion, or not within the rounds of waiting that the model gives it.
pub data Init : Type 0 where
  returns : PlatError → Sys → Init
  system_error aborted waiting : Sys → Init

abbrev pub and_then : Init → (Sys → Init) → Init
and_then (returns e s) k = k s
and_then (system_error s) k = system_error s
and_then (aborted s) k = aborted s
and_then (waiting s) k = waiting s

module _ (sys : System) (cfg : Cfg) where
  abbrev pub ask : Call → Sys → Reply × Sys
  ask c s =
      let r = sys s.trace c in
      (
        r,
        record {
          trace = record { call = c; reply = r } ∷ s.trace;
          initialized = s.initialized + r.callbacks;
        },
      )

  -- A dispatcher for each of the `n` cores from the i-th on.
  unfoldable pub span_cores : (n i : ℕ) → Sys → Init
  span_cores zero i s = returns err_ok s
  span_cores (suc n) i s =
      let (r, s') = ask (domain_new_dispatcher (core_at cfg i)) s in
      let rest = span_cores n (i + 1) s' in if not r.ok then aborted s' else rest

  -- while (cores_initialized < cfg->corelist_size) thread_yield(), for `fuel` rounds at most
  unfoldable pub await_cores : (fuel : ℕ) → Sys → Init
  await_cores zero s = if ltb s.initialized cfg.corelist_size then waiting s else returns err_ok s
  await_cores (suc fuel) s =
      let rest = await_cores fuel (ask thread_yield s).1 in
      if ltb s.initialized cfg.corelist_size then rest else returns err_ok s

  -- The remote thread of each of the `n` cores from the i-th on, and the wait for it.
  unfoldable pub remote_inits : (n i : ℕ) → Sys → Init
  remote_inits zero i s = returns err_ok s
  remote_inits (suc n) i s =
      let (r, s') = ask (domain_thread_create_on (core_at cfg i)) s in
      let rest = remote_inits n (i + 1) (ask thread_sem_wait s').1 in
      if not r.ok then aborted s' else rest

  -- plat_init; the clock frequencies are only logged
  unfoldable pub plat_init : (fuel : ℕ) → Sys → Init
  unfolding span_cores await_cores remote_inits
  plat_init fuel s =
      let (c, s1) = ask skb_client_connect s in
      let (n, s2) = ask cnode_create_raw s1 in
      if not c.ok
      then returns err_init_failed s1
      else if not n.ok
      then system_error s2
      else and_then (and_then (span_cores cfg.corelist_size 0 s2) (await_cores fuel))
          (remote_inits cfg.corelist_size 0)

-- cores_initialized is 1 at first.
abbrev pub start : Sys
start = record { trace = []; initialized = 1 }
