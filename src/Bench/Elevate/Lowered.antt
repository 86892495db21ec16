-- ===== src/Bench/Elevate/Lowered.antt =====
-- What the preparation of the elevation benchmark maps, and where it lowers the protection.
use vmopsbench.Common.{
  ℕ, zero, suc, ◌+◌, ◌*◌, ◌%◌, ◌≤◌, ◌<◌, ◌≡◌, refl, inl, inr, true, false, if◌then◌else◌, ltb,
  Option, some, none, List, [], ◌∷◌, ◌++◌, replicate, if_cases, arith, Bool-cases, ltb→lt, if_true,
  not, ap, ◌∙◌,
}
use mathlib.Core.Path.{subst, sym, ap₂}
use vmopsbench.Config.{Cfg}
use vmopsbench.Platform.{read_only, u64_mod}
use vmopsbench.Bench.World.{
  Plat, Cmd, Worker, Call, vm_protect, vm_map_fixed, Event, try, tell, is_ok,
}
use vmopsbench.Bench.Trace.{succeeded, failed, is_map, last_failed}
use vmopsbench.Bench.Elevate.Raise.{Change}
use vmopsbench.Bench.Elevate.{Prepared, prepared, returned, out_of_fuel, map_chunk, prepare}

abbrev with_attempt : Call → List Change → List Change
with_attempt (vm_protect a size perm) l = (a, size, perm) ∷ l
with_attempt _ l = l

-- The changes of a protection that were tried, whatever came of them, the latest first.
abbrev pub attempts : List Event → List Change
attempts [] = []
attempts (e ∷ h) = with_attempt e.call (attempts h)

module _ (plat : Plat) (cfg : Cfg) (memobj tid addr total : ℕ) (v : Worker) where
  -- In `n` rounds a mapping was made and then the protection of the region at `addr` lowered.
  pub record Lowered (w : Worker) (n : ℕ) : Type 0 where
    pub tried : attempts w.trace ≡ replicate n (addr, cfg.memsize, read_only) ++ attempts v.trace
    pub maps : succeeded is_map w.trace ≡ n + succeeded is_map v.trace

  -- The ends of the preparation: all of the memory is mapped, with no round more than needed; or a
  -- mapping failed in a round that was needed, and its protection was not touched.
  abbrev pub Lowers : Prepared × Worker → Type 0
  Lowers (prepared a, w) =
      (a ≡ addr)
      × ((n : ℕ) × Lowered w n
          × (failed is_map w.trace ≡ failed is_map v.trace)
          × (total ≤ n * cfg.memsize)
          × (n * cfg.memsize < total + cfg.memsize))
  Lowers (returned, w) =
      (n : ℕ) × Lowered w n
      × (failed is_map w.trace ≡ suc (failed is_map v.trace))
      × (last_failed w.trace ≡ true)
      × (n * cfg.memsize < total)
  Lowers (out_of_fuel, w) = ⊥

  record Mapped (w : Worker) (i n : ℕ) : Type 0 where
    done : Lowered w n
    fails : failed is_map w.trace ≡ failed is_map v.trace
    reached : i ≡ n * cfg.memsize

  -- One chunk more, before its protection is lowered.
  abbrev Chunk : (n : ℕ) → Option ℕ × Worker → Type 0
  Chunk n (some a, w) =
      (a ≡ addr)
      × (attempts w.trace ≡ replicate n (addr, cfg.memsize, read_only) ++ attempts v.trace)
      × (succeeded is_map w.trace ≡ suc n + succeeded is_map v.trace)
      × (failed is_map w.trace ≡ failed is_map v.trace)
  Chunk n (none, w) =
      Lowered w n
      × (failed is_map w.trace ≡ suc (failed is_map v.trace))
      × (last_failed w.trace ≡ true)

  module _ (isolated : cfg.isolated ≡ true) where
    chunk_event : ℕ → Worker → Event
    chunk_event i w =
        let c = vm_map_fixed ((addr + i) % u64_mod) cfg.memsize memobj 0 false in
        record { call = c; reply = plat.reply w.trace c }

    after_chunk : ℕ → Worker → Worker
    after_chunk i w = record w { trace = chunk_event i w ∷ w.trace }

    map_chunk-fixed :
        (i : ℕ) (w : Worker)
        → map_chunk plat cfg memobj tid addr i w ≡ (
            if is_ok (chunk_event i w).reply.err
            then (some addr, after_chunk i w)
            else (none, after_chunk i w))
    unfolding map_chunk try chunk_event after_chunk
    map_chunk-fixed i w = ap (λ (f : Cmd ℕ). f w) (if_true _ _ isolated) ∙ ground arith

    some-Chunk :
        (i n : ℕ) (w : Worker)
        → Mapped w i n
        → is_ok (chunk_event i w).reply.err ≡ true
        → Chunk n (some addr, after_chunk i w)
    unfolding after_chunk chunk_event
    some-Chunk i n w m e =
        (refl, m.done.tried, rw e (omega (arith, m.done.maps)), rw e (omega (arith, m.fails)))

    none-Chunk :
        (i n : ℕ) (w : Worker)
        → Mapped w i n
        → is_ok (chunk_event i w).reply.err ≡ false
        → Chunk n (none, after_chunk i w)
    unfolding after_chunk chunk_event
    none-Chunk i n w m e = (
      record { tried = m.done.tried; maps = rw e (omega (arith, m.done.maps)) },
      rw e (omega (arith, m.fails)),
      ap not e,
    )

    map_chunk-Chunk :
        (i n : ℕ) (w : Worker) → Mapped w i n → Chunk n (map_chunk plat cfg memobj tid addr i w)
    map_chunk-Chunk i n w m = subst (Chunk n) (sym (map_chunk-fixed i w)) (
        if_cases (Chunk n) (is_ok (chunk_event i w).reply.err) (some-Chunk i n w m)
          (none-Chunk i n w m))

    -- The protection is lowered, at `addr`, and the round is over.
    lower-Mapped :
        (i n : ℕ) (w : Worker)
        → Chunk n (some addr, w)
        → i ≡ n * cfg.memsize
        → Mapped (tell plat (vm_protect addr cfg.memsize read_only) w) (i + cfg.memsize) (suc n)
    unfolding tell
    lower-Mapped i n w (a, tried, maps, fails) e = record {
      done = record {
        tried = ap (λ l. (addr, cfg.memsize, read_only) ∷ l) tried;
        maps = ground (arith, maps);
      };
      fails = ground (arith, fails);
      reached = omega (arith, e);
    }

    -- What the loop does with the result of its mapping.
    abbrev Rest : ℕ → ℕ → Option ℕ × Worker → Prepared × Worker
    Rest fuel i (none, w) = (returned, w)
    Rest fuel i (some a, w) =
        prepare plat cfg memobj tid fuel total a ((i + cfg.memsize) % u64_mod)
          (tell plat (vm_protect a cfg.memsize read_only) w)

    prepare-stop :
        (fuel i : ℕ) (w : Worker)
        → ltb i total ≡ false
        → prepare plat cfg memobj tid (suc fuel) total addr i w ≡ (prepared addr, w)
    unfolding prepare
    prepare-stop fuel i w e = rw (e, prepare)

    prepare-round :
        (fuel i : ℕ) (w : Worker)
        → ltb i total ≡ true
        → prepare plat cfg memobj tid (suc fuel) total addr i w
          ≡ Rest fuel i (map_chunk plat cfg memobj tid addr i w)
    unfolding prepare
    prepare-round fuel i w e = rw (e, prepare) (by_result (map_chunk plat cfg memobj tid addr i w))
      where
        by_result :
            (r : Option ℕ × Worker)
            → elim r.0 [
              | none ↦ (returned, r.1)
              | some a ↦
                  prepare plat cfg memobj tid fuel total a
                    ((i + cfg.memsize) % u64_mod)
                    (tell plat (vm_protect a cfg.memsize read_only) r.1)
            ]
              ≡ Rest fuel i r
        by_result (none, w') = refl
        by_result (some a, w') = refl

    module _ (positive : 0 < cfg.memsize) (fits : total + cfg.memsize < u64_mod) where
      continue-Lowers :
          (fuel i n : ℕ) (r : Option ℕ × Worker)
          → ((w : Worker)
              → Mapped w (i + cfg.memsize) (suc n)
              → Lowers (prepare plat cfg memobj tid fuel total addr (i + cfg.memsize) w))
          → i < total
          → i ≡ n * cfg.memsize
          → Chunk n r
          → Lowers (Rest fuel i r)
      continue-Lowers fuel i n (none, w) ih h at c = (n, c.0, c.1, c.2, omega (arith, h, at))
      continue-Lowers fuel i n (some a, w) ih h at c =
          subst Lowers
            (ap₂
              (λ (x k : ℕ).
                prepare plat cfg memobj tid fuel total x k
                  (tell plat (vm_protect x cfg.memsize read_only) w))
              (sym c.0) (sym no_wrap))
            (ih (tell plat (vm_protect addr cfg.memsize read_only) w)
              (lower-Mapped i n w (refl, c.1, c.2, c.3) at))
        where
          no_wrap : (i + cfg.memsize) % u64_mod ≡ i + cfg.memsize
          no_wrap = ground arith

      prepare-Lowers :
          (fuel i n : ℕ) (w : Worker)
          → 0 < fuel
          → total < i + fuel
          → i < total + cfg.memsize
          → Mapped w i n
          → Lowers (prepare plat cfg memobj tid fuel total addr i w)
      prepare-Lowers zero i n w p f b m = absurd (omega (arith, p))
      prepare-Lowers (suc fuel) i n w p f b m = elim (Bool-cases (ltb i total)) [
        | inr e ↦
            subst Lowers (sym (prepare-stop fuel i w e))
              (refl, (n, m.done, m.fails, ground (arith, m.reached), omega (arith, b, m.reached)))
        | inl e ↦ subst Lowers (sym (prepare-round fuel i w e)) (
            continue-Lowers fuel i n (map_chunk plat cfg memobj tid addr i w)
              (λ w' m'.
                prepare-Lowers fuel (i + cfg.memsize) (suc n) w' (omega (arith, ltb→lt i total e))
                  (omega (arith, ltb→lt i total e)) (omega (arith, ltb→lt i total e)) m')
              (ltb→lt i total e) m.reached (map_chunk-Chunk i n w m))
      ]

-- With isolated memory of a size that is not 0 and far enough from the end of the address space, the
-- preparation of the elevation benchmark ends, after as many rounds as the operations need and no
-- more, or in one of them at the first mapping that failed. In each round it makes a mapping and
-- then tries to set the protection of the first region to read only, whatever region was mapped;
-- nothing else is tried on a protection, and nothing after a mapping that failed.
pub preparation_ends :
    (plat : Plat) (cfg : Cfg) (memobj tid addr total : ℕ) (v : Worker)
    → cfg.isolated ≡ true
    → 0 < cfg.memsize
    → total + cfg.memsize < u64_mod
    → Lowers plat cfg memobj tid addr total v
        (prepare plat cfg memobj tid (suc total) total addr 0 v)
preparation_ends plat cfg memobj tid addr total v isolated positive fits =
    prepare-Lowers plat cfg memobj tid addr total v isolated positive fits (suc total) 0 0 v
      (omega arith) (omega arith) (omega (arith, positive))
      (record {
        done = record { tried = refl; maps = omega arith };
        fails = refl;
        reached = omega arith;
      })
