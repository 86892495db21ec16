-- ===== src/Bench/Pages/Measure.antt =====
-- The measurement of the threads on pages, for any round that keeps the array filled.
use vmopsbench.Common.{
  ℕ, suc, ◌+◌, ◌-◌, ◌*◌, ◌≤◌, ◌<◌, ◌≡◌, refl, sym, ◌∙◌, ◌⊎◌, inl, inr, Bool, true, false, ◌==◌,
  ==_iff, Option, some, none, List, length, All, arith, if_cases,
}
use mathlib.Core.Path.{subst}
use vmopsbench.Config.{Cfg}
use vmopsbench.Platform.{time_max}
use vmopsbench.Bench.World.{Plat, Worker, Cmd, now, nops_of, delta_of, end_of, sub_u64}
use vmopsbench.Bench.Loop.{
  Ended, finished, aborted, out_of_fuel, timed_loop, timed_loop-Ends, Inv, Fail, After, Ends,
}
use vmopsbench.Bench.Thread.{started}
use vmopsbench.Bench.Pages.{
  nmaps_of, Local, Result, done, trapped, no_fuel, clean_up, conclude, round, begin, set_up,
  run_pages,
}
use vmopsbench.Bench.Pages.Cells.{NonNull, in_use, All-in_use}
use vmopsbench.Bench.Pages.Moved.{now-Moved, started-Moved, Moved}
use vmopsbench.Bench.Pages.SetUp.{Ready, MapsNonNull, set_up-Ready}
use vmopsbench.Bench.Pages.CleanUp.{clean_up-Moved}

-- What a round leaves that starts with a filled array: a filled array and `m` mappings, `u` attempts
-- to unmap and `p` changes of the protection more, and no call has failed; or exactly one call has
-- failed, a mapping or a change (`e` is 1) or, where rounds unmap, an attempt to do so (`e` is 0),
-- with no mapping more, as many attempts to unmap and at most one change.
abbrev pub Round : (nmaps m u p : ℕ) → Worker → Option (ℕ × Local) × Worker → Type 0
Round nmaps m u p w (some (t, (page, addrs)), w') =
    (length addrs ≡ nmaps) × All NonNull addrs × Moved w w' m u p 0 0 0 0
Round nmaps m u p w (none, w') =
    (q : ℕ) × (e : ℕ) × (q ≤ 1) × ((e ≤ 1) × (1 ≤ e + u)) × Moved w w' 0 u q 0 e (1 - e) (1 - e)

-- How a thread ends whose round does that: all calls of the loop have succeeded; or exactly one of them
-- has failed; or a mapping of the set-up has; or there was no memory for the array. Of the clean-up,
-- which looks at no result, up to as many calls have failed as it makes.
abbrev pub Ending : (v : Worker) (memory : Bool) (nmaps nops m u p : ℕ) → Result → Type 0
Ending v memory nmaps nops m u p (done w) =
    ((memory ≡ true)
      × (Moved v (record w { count = v.count }) (nmaps + w.count * m) (w.count * u + nmaps)
            (w.count * p) 3 0 0 nmaps
          × (w.count ≤ nops)))
    ⊎ (((memory ≡ true)
          × ((c : ℕ) × (q : ℕ) × (e : ℕ) × (c < nops)
              × (q ≤ 1)
              × ((e ≤ 1) × (1 ≤ e + u))
              × Moved v w (nmaps + c * m) (c * u + u + nmaps) (c * p + q) 3 e (1 - e)
                  (1 - e + nmaps)))
        ⊎ (((memory ≡ true) × ((i : ℕ) × (i < nmaps) × Moved v w i i 0 2 1 0 i))
            ⊎ ((memory ≡ false) × (w ≡ v))))
Ending v memory nmaps nops m u p trapped = (memory ≡ true) × (nmaps ≡ 0)
Ending v memory nmaps nops m u p no_fuel = ⊥

positive : (n : ℕ) → (n == 0) ≡ false → 0 < n
positive n h = ground arith

module _ (plat : Plat) (cfg : Cfg) (memobj tid m u p : ℕ)
    (body : (t_start counter t_current : ℕ) → Local → Cmd (ℕ × Local))
    (body-Round : (t_start c t page : ℕ) (addrs : List ℕ) (w : Worker)
      → length addrs ≡ nmaps_of cfg
      → All NonNull addrs
      → 0 < nmaps_of cfg
      → Round (nmaps_of cfg) m u p w (body t_start c t (page, addrs) w)) where
  abbrev nmaps : ℕ
  nmaps = nmaps_of cfg

  abbrev nops : ℕ
  nops = nops_of time_max cfg.nops

  abbrev Good : Worker → Inv Local
  Good v c t (page, addrs) w =
      (length addrs ≡ nmaps) × All NonNull addrs × Moved v w (c * m) (c * u) (c * p) 0 0 0 0

  abbrev Bad : Worker → Fail Local
  Bad v c (page, addrs) w =
      0 < nmaps
      → (in_use addrs ≡ nmaps)
        × ((q : ℕ) × (e : ℕ) × (q ≤ 1)
            × ((e ≤ 1) × (1 ≤ e + u))
            × Moved v w (c * m) (c * u + u) (c * p + q) 0 e (1 - e) (1 - e))

  more :
      (v w w' : Worker) (c : ℕ)
      → Moved v w (c * m) (c * u) (c * p) 0 0 0 0
      → Moved w w' m u p 0 0 0 0
      → Moved v w' ((c + 1) * m) ((c + 1) * u) ((c + 1) * p) 0 0 0 0
  more v w w' c x y = record {
    maps = omega (arith, x.maps, y.maps);
    unmaps = omega (arith, x.unmaps, y.unmaps);
    protects = omega (arith, x.protects, y.protects);
    bars = omega (arith, x.bars, y.bars);
    errors = omega (arith, x.errors, y.errors);
    least = omega (arith, x.least, y.least);
    most = omega (arith, x.most, y.most);
    count = y.count ∙ x.count;
  }

  result-After :
      (v w : Worker) (c page : ℕ) (addrs : List ℕ) (r : Option (ℕ × Local) × Worker)
      → length addrs ≡ nmaps
      → All NonNull addrs
      → Moved v w (c * m) (c * u) (c * p) 0 0 0 0
      → Round nmaps m u p w r
      → After (Good v) (Bad v) c (page, addrs) r
  result-After v w c page addrs (some (t, s), w') l a x (l', a', y) = (l', a', more v w w' c x y)
  result-After v w c page addrs (none, w') l a x (q, e, h, k, y) = λ z. (
    All-in_use addrs a ∙ l,
    (
      q,
      e,
      h,
      k,
      record {
        maps = omega (arith, x.maps, y.maps);
        unmaps = omega (arith, x.unmaps, y.unmaps);
        protects = omega (arith, x.protects, y.protects);
        bars = omega (arith, x.bars, y.bars);
        errors = omega (arith, x.errors, y.errors);
        least = omega (arith, x.least, y.least);
        most = omega (arith, x.most, y.most);
        count = y.count ∙ x.count;
      },
    ),
  )

  round-After :
      (v : Worker) (t_start c t : ℕ) (s : Local) (w : Worker)
      → Good v c t s w
      → After (Good v) (Bad v) c s (round plat cfg memobj tid body t_start c t s w)
  round-After v t_start c t (page, addrs) w (l, a, x) =
      if_cases (After (Good v) (Bad v) c (page, addrs)) (nmaps == 0)
        (λ e z. absurd (omega (arith, z, (==_iff nmaps 0).0 e)))
        (λ e.
          result-After v w c page addrs (body t_start c t (page, addrs) w) l a x
            (body-Round t_start c t page addrs w l a (positive nmaps e)))

  -- From the state `v` before the set-up, through the set-up to `w` and the first barrier.
  result-Ending :
      (v w : Worker) (memory : Bool) (first : ℕ) (r : Ended Local × Worker)
      → Moved v w nmaps 0 0 0 0 0 0
      → Ends
          (Good (started plat w).1)
          (Bad (started plat w).1)
          (end_of (delta_of plat cfg.time_ms) first)
          nops
          r
      → memory ≡ true
      → Ending v memory nmaps nops m u p (conclude plat cfg memobj tid first r)
  unfolding conclude
  result-Ending v w memory first (finished c t (page, addrs), w') x ((l, a, y), h, stop) mem =
      let z =
        clean_up-Moved plat cfg memobj tid addrs
          (record (now plat w').1 { count = c; duration = sub_u64 (now plat w').0 first }) in
      let b = started-Moved plat w in
      let n = now-Moved plat w' in
      let end =
        clean_up plat cfg memobj tid addrs
          (record (now plat w').1 { count = c; duration = sub_u64 (now plat w').0 first }) in
      inl (
        mem,
        subst
            (λ k.
              Moved v (record end { count = v.count }) (nmaps + k * m) (k * u + nmaps) (k * p) 3 0 0
                nmaps
              × (k ≤ nops))
            (sym z.count)
            (
              record {
                maps = omega (arith, x.maps, b.maps, y.maps, n.maps, z.maps);
                unmaps = omega (
                  arith,
                  x.unmaps,
                  b.unmaps,
                  y.unmaps,
                  n.unmaps,
                  z.unmaps,
                  All-in_use addrs a,
                  l,
                );
                protects =
                    omega (arith, x.protects, b.protects, y.protects, n.protects, z.protects);
                bars = omega (arith, x.bars, b.bars, y.bars, n.bars, z.bars);
                errors = omega (arith, x.errors, b.errors, y.errors, n.errors, z.errors);
                least = omega (arith, x.least, b.least, y.least, n.least, z.least);
                most = omega (arith, x.most, b.most, y.most, n.most, z.most, All-in_use addrs a, l);
                count = refl;
              },
              h,
            ),
      )
  result-Ending v w memory first (aborted c (page, addrs), w') x (y, h) mem =
      if_cases (Ending v memory nmaps nops m u p) (nmaps == 0) (λ e. (mem, (==_iff nmaps 0).0 e))
        (λ e.
          let (l, (q, j, k, i, z)) = y (positive nmaps e) in
          let b = started-Moved plat w in
          let e' = clean_up-Moved plat cfg memobj tid addrs w' in
          inr (
            inl (
              mem,
              (
                c,
                q,
                j,
                h,
                k,
                i,
                record {
                  maps = omega (arith, x.maps, b.maps, z.maps, e'.maps);
                  unmaps = omega (arith, x.unmaps, b.unmaps, z.unmaps, e'.unmaps, l);
                  protects = omega (arith, x.protects, b.protects, z.protects, e'.protects);
                  bars = omega (arith, x.bars, b.bars, z.bars, e'.bars);
                  errors = omega (arith, x.errors, b.errors, z.errors, e'.errors);
                  least = omega (arith, x.least, b.least, z.least, e'.least);
                  most = omega (arith, x.most, b.most, z.most, e'.most, l);
                  count = e'.count ∙ z.count ∙ b.count ∙ x.count;
                },
              ),
            )))
  result-Ending v w memory first (out_of_fuel, w') x y mem = absurd y

  begin-Ending :
      (v : Worker) (memory : Bool) (r : Bool × List ℕ × Worker)
      → Ready v nmaps r
      → memory ≡ true
      → Ending v memory nmaps nops m u p (begin plat cfg memobj tid body r)
  unfolding begin started
  begin-Ending v memory (false, addrs, w) (i, h, e, x) mem =
      let z = clean_up-Moved plat cfg memobj tid addrs w in
      inr (
        inr (
          inl (
            mem,
            (
              i,
              h,
              record {
                maps = omega (arith, x.maps, z.maps);
                unmaps = omega (arith, x.unmaps, z.unmaps, e);
                protects = omega (arith, x.protects, z.protects);
                bars = omega (arith, x.bars, z.bars);
                errors = omega (arith, x.errors, z.errors);
                least = omega (arith, x.least, z.least);
                most = omega (arith, x.most, z.most, e);
                count = z.count ∙ x.count;
              },
            ),
          )))
  begin-Ending v memory (true, addrs, w) (l, a, x) mem =
      let first = (started plat w).0 in
      let w1 = (started plat w).1 in
      let t_end = end_of (delta_of plat cfg.time_ms) first in
      result-Ending v w memory first
        (timed_loop (round plat cfg memobj tid body first) t_end nops (suc nops) 0 first
          (tid, addrs) w1)
        x
        (timed_loop-Ends (round plat cfg memobj tid body first) t_end nops (Good w1) (Bad w1)
          (λ c t s w' g b k. round-After w1 first c t s w' g) (suc nops) 0 first (tid, addrs) w1
          (omega arith) (omega arith)
          (
            l,
            a,
            record {
              maps = omega arith;
              unmaps = omega arith;
              protects = omega arith;
              bars = omega arith;
              errors = omega arith;
              least = omega arith;
              most = omega arith;
              count = refl;
            },
          ))
        mem

  pub run_pages-Ending :
      (memory : Bool) (v : Worker)
      → MapsNonNull plat
      → tid < 16777216
      → cfg.memsize < 4611686018427387904
      → Ending v memory nmaps nops m u p (run_pages plat cfg memobj tid body memory v)
  unfolding run_pages
  run_pages-Ending memory v non_null ht hs =
      if_cases (Ending v memory nmaps nops m u p) memory
        (λ e.
          begin-Ending v memory (set_up plat cfg memobj tid v)
            (set_up-Ready plat cfg memobj tid v non_null ht hs) e)
        (λ e. inr (inr (inr (e, refl))))
