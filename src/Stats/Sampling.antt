-- ===== src/Stats/Sampling.antt =====
-- vmops_utils_add_stats over a whole run: which operations end up in the buffer.
use vmopsbench.Common.{
  ℕ, zero, suc, ◌+◌, ◌-◌, ◌<◌, ◌≡◌, refl, ap, inl, inr, true, false, List, [], ◌∷◌, ◌++◌, map,
  arith, length, none, some, ltb, set, take, drop, replicate, All, Bool-cases, take-nil,
  sub-length-take, length-append,
}
use mathlib.Core.Path.{sym, subst, subst₂}
use mathlib.Core.List.{append_assoc, append-nil}
use vmopsbench.Platform.{u64_mod}
use vmopsbench.Stats.{Statval, Stats, add_stats, fresh}

-- One call: the four arguments, which are also the four fields of what it would store.
abbrev pub run : Stats → List Statval → Stats
run s [] = s
run s (c ∷ cs) = run (add_stats s c.tid c.counter c.t_elapsed c.val) cs

-- The specification: the calls at least `delta` after the last one kept, by their elapsed times.
unfoldable pub pick : (delta next : ℕ) → List Statval → List Statval
pick delta next [] = []
pick delta next (c ∷ cs) = elim (ltb c.t_elapsed next) [
  | true ↦ pick delta next cs
  | false ↦ c ∷ pick delta (c.t_elapsed + delta) cs
]

-- A buffer of `room` free cells behind the samples kept so far.
pub record Holds (s : Stats) (kept : List Statval) (room : ℕ) : Type 0 where
  pub cells : s.values ≡ map some kept ++ replicate room none
  pub index : s.idx ≡ length kept
  pub limit : s.idx_max ≡ length kept + room
  pub small : s.idx_max < u64_mod

-- No end of a sampling interval wraps.
abbrev pub InTime : ℕ → List Statval → Type 0
InTime delta = All (λ c. c.t_elapsed + delta < u64_mod)

abbrev pub add : Stats → Statval → Stats
add s c = add_stats s c.tid c.counter c.t_elapsed c.val

cells-set :
    (kept : List Statval) (room : ℕ) (c : Statval)
    → set (map some kept ++ replicate (suc room) none) (length kept) (some c)
      ≡ map some (kept ++ c ∷ []) ++ replicate room none
cells-set [] room c = refl
cells-set (k ∷ kept) room c = ap (λ t. some k ∷ t) (cells-set kept room c)

-- What one stored sample changes.
record Stored (s t : Stats) (c : Statval) (kept : List Statval) (room : ℕ) : Type 0 where
  holds : Holds t (kept ++ c ∷ []) room
  delta : t.sampling_delta ≡ s.sampling_delta
  next : t.sampling_next ≡ c.t_elapsed + s.sampling_delta
  still : t.dryrun ≡ 0

module _ (c : Statval) (s : Stats) (ready : s.dryrun ≡ 0) where
  add-early : ltb c.t_elapsed s.sampling_next ≡ true → add s c ≡ s
  unfolding add_stats
  add-early e = ground arith

  add-full : s.idx ≡ s.idx_max → add s c ≡ s
  unfolding add_stats
  add-full e = ground arith

  add-Stored :
      (kept : List Statval) (room : ℕ)
      → Holds s kept (suc room)
      → ltb c.t_elapsed s.sampling_next ≡ false
      → c.t_elapsed + s.sampling_delta < u64_mod
      → Stored s (add s c) c kept room
  unfolding add_stats
  add-Stored kept room h e fits = ground (arith, cells-set kept room c, length-append kept (c ∷ []))

-- Once the warm-up is over, and with the buffer full, nothing changes.
run-full : (cs : List Statval) (s : Stats) → s.dryrun ≡ 0 → s.idx ≡ s.idx_max → run s cs ≡ s
run-full [] s ready full = refl
run-full (c ∷ cs) s ready full = rw (add-full c s ready full) (run-full cs s ready full)

module _ (delta next : ℕ) (c : Statval) (cs : List Statval) where
  pick-skip : ltb c.t_elapsed next ≡ true → pick delta next (c ∷ cs) ≡ pick delta next cs
  unfolding pick
  pick-skip e = ground arith

  pick-keep :
      ltb c.t_elapsed next ≡ false
      → pick delta next (c ∷ cs) ≡ c ∷ pick delta (c.t_elapsed + delta) cs
  unfolding pick
  pick-keep e = ground arith

-- The buffer after a run that offered the samples `ps`.
abbrev pub Took : Stats → List Statval → ℕ → List Statval → Type 0
Took t kept room ps = Holds t (kept ++ take room ps) (room - length ps)

Took-full : {t : Stats} (kept ps : List Statval) → Holds t kept 0 → Took t kept 0 ps
Took-full kept ps h = rw append-nil (subst (Holds _ kept) (omega arith) h)

Took-cons :
    {t : Stats} (kept ps : List Statval) (room : ℕ) (c : Statval)
    → Took t (kept ++ c ∷ []) room ps
    → Took t kept (suc room) (c ∷ ps)
Took-cons kept ps room c h =
    subst₂ (Holds _) (append_assoc kept (c ∷ []) (take room ps)) (omega arith) h

Took-nil :
    {t : Stats} (kept : List Statval) (room delta next : ℕ)
    → Holds t kept room
    → Took t kept room (pick delta next [])
unfolding pick
Took-nil kept room delta next h = rw (take-nil, append-nil) (subst (Holds _ kept) (omega arith) h)

run-Took :
    (cs kept : List Statval) (room : ℕ) (s : Stats)
    → s.dryrun ≡ 0
    → Holds s kept room
    → InTime s.sampling_delta cs
    → Took (run s cs) kept room (pick s.sampling_delta s.sampling_next cs)
run-Took [] kept room s ready h fits = Took-nil kept room _ _ h
run-Took (c ∷ cs) kept zero s ready h fits =
    rw (run-full (c ∷ cs) s ready (omega (arith, h.index, h.limit))) (Took-full kept _ h)
run-Took (c ∷ cs) kept (suc room) s ready h fits =
    elim (Bool-cases (ltb c.t_elapsed s.sampling_next)) [
      | inl e ↦
          rw (pick-skip s.sampling_delta s.sampling_next c cs e, add-early c s ready e)
            (run-Took cs kept (suc room) s ready h fits.1)
      | inr e ↦ rw (pick-keep s.sampling_delta s.sampling_next c cs e) (
          Took-cons kept _ room c (
            let st = add-Stored c s ready kept room h e fits.0 in
            subst₂ (λ d n. Took (run (add s c) cs) (kept ++ c ∷ []) room (pick d n cs)) st.delta
              st.next
              (run-Took cs (kept ++ c ∷ []) room (add s c) st.still st.holds
                (subst (λ d. InTime d cs) (sym st.delta) fits.1))))
    ]

-- The warm-up calls are counted down and leave the rest of the state alone.
add-warm : (c : Statval) (s : Stats) {d : ℕ} → s.dryrun ≡ suc d → add s c ≡ record s { dryrun = d }
unfolding add_stats
add-warm c s e = ground arith

run-warm :
    (cs kept : List Statval) (room d : ℕ) (s : Stats)
    → s.dryrun ≡ d
    → Holds s kept room
    → InTime s.sampling_delta cs
    → Took (run s cs) kept room (pick s.sampling_delta s.sampling_next (drop d cs))
run-warm cs kept room zero s e h fits = run-Took cs kept room s e h fits
run-warm [] kept room (suc d) s e h fits = Took-nil kept room _ _ h
run-warm (c ∷ cs) kept room (suc d) s e h fits = rw (add-warm c s e) (
    run-warm cs kept room d (record s { dryrun = d }) refl
      (record { cells = h.cells; index = h.index; limit = h.limit; small = h.small }) fits.1)

fresh-Holds : (n delta : ℕ) → n < u64_mod → Holds (fresh n delta) [] n
unfolding fresh
fresh-Holds n delta h = record { cells = refl; index = refl; limit = omega arith; small = h }

-- A thread's buffer of `n` cells after any run of calls, as vmops_utils_prepare_args sets it up: the
-- first ten calls are skipped, then a call is kept when at least the sampling interval has passed
-- since the last one kept, until the buffer is full; the cells behind are untouched. The condition
-- is that no elapsed time plus the interval reaches 2^64.
pub run-fresh :
    (n delta : ℕ) (cs : List Statval)
    → n < u64_mod
    → InTime delta cs
    → let kept = take n (pick delta 0 (drop 10 cs)) in
      ((run (fresh n delta) cs).values ≡ map some kept ++ replicate (n - length kept) none)
      × ((run (fresh n delta) cs).idx ≡ length kept)
unfolding fresh
run-fresh n delta cs small fits =
    let h = run-warm cs [] n 10 (fresh n delta) refl (fresh-Holds n delta small) fits in
    (rw (sub-length-take n (pick delta 0 (drop 10 cs))) h.cells, h.index)
