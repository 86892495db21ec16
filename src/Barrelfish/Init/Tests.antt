-- ===== src/Barrelfish/Init/Tests.antt =====
-- A system on which each round of waiting delivers one callback, and the theorem at it.
use vmopsbench.Common.{◌≡◌, refl, true, false, some, List, [], ◌∷◌}
use vmopsbench.Config.{Cfg}
use vmopsbench.Barrelfish.Init.{
  Call, skb_client_connect, cnode_create_raw, thread_yield, thread_sem_wait, domain_new_dispatcher,
  domain_thread_create_on, Reply, System, Init, returns, plat_init, start,
}
use vmopsbench.Barrelfish.Init.Spans.{Spanned, calls, plat_init_spans}

abbrev answer : Call → Reply
answer thread_yield = record { ok = true; callbacks = 1 }
answer _ = record { ok = true; callbacks = 0 }

abbrev sys : System
sys t c = answer c

abbrev cfg : Cfg
cfg = record {
  benchmark = [];
  coreslist = some (some 3 ∷ some 5 ∷ []);
  corelist_size = 2;
  memsize = 8192;
  nops = 0;
  time_ms = 0;
  stats = 0;
  rate = 0;
  nounmap = false;
  shared = true;
  isolated = false;
  map4k = false;
  maphuge = false;
  numainterleave = false;
}

plat_init_spans_example : Spanned cfg 4 (plat_init sys cfg 4 start)
plat_init_spans_example = plat_init_spans sys cfg 4

abbrev calls_of : Init → List Call
calls_of (returns e s) = calls s.trace
calls_of _ = []

-- One callback suffices for two dispatchers.
plat_init_calls :
    calls_of (plat_init sys cfg 4 start)
    ≡ thread_sem_wait
      ∷ domain_thread_create_on (some (some 5))
      ∷ thread_sem_wait
      ∷ domain_thread_create_on (some (some 3))
      ∷ thread_yield
      ∷ domain_new_dispatcher (some (some 5))
      ∷ domain_new_dispatcher (some (some 3))
      ∷ cnode_create_raw
      ∷ skb_client_connect
      ∷ []
unfolding plat_init
plat_init_calls = refl
