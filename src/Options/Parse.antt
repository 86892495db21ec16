-- ===== src/Options/Parse.antt =====
-- vmops_utils_parse_options against the token grammar.
use vmopsbench.Common.{
  ℕ, zero, suc, ◌<◌, ◌≡◌, refl, ◌≢◌, ◌||◌, List, [], ◌∷◌, ◌++◌, arith, length, length-drop, drop,
  Bool-cases, if-ne, if_cases, true, ◌&&◌, inl, inr, ◌↔◌, strncmp_eq, strncmp_eq-split,
}
use vmopsbench.Config.{Cfg, Status, failure}
use vmopsbench.Options.{
  Flags, no_flags, Scanned, scanned, unknown_option, out_of_fuel, scan, apply_flags, finish,
  parse_options,
}
use vmopsbench.Options.Grammar.{
  Token, shared, independent, four_k, isolated, text, render, has, meaning,
}

-- The flags after a sequence of tokens.
abbrev add_tokens : List Token → Flags → Flags
add_tokens ts f = record {
  shared = f.shared || has shared ts;
  independent = f.independent || has independent ts;
  isolated = f.isolated || has isolated ts;
  map4k = f.map4k || has four_k ts;
}

scan-render :
    (fuel : ℕ) (ts : List Token) (f : Flags)
    → length (render ts) < fuel
    → scan fuel (render ts) f ≡ scanned (add_tokens ts f)
unfolding scan render has
scan-render zero ts f h = absurd (omega arith)
scan-render (suc fuel) [] f h = ground arith
scan-render (suc fuel) (shared ∷ ts) f h =
    ground (arith, scan-render fuel ts (record f { shared = true }))
scan-render (suc fuel) (independent ∷ ts) f h =
    ground (arith, scan-render fuel ts (record f { independent = true }))
scan-render (suc fuel) (four_k ∷ ts) f h =
    ground (arith, scan-render fuel ts (record f { map4k = true }))
scan-render (suc fuel) (isolated ∷ ts) f h =
    ground (arith, scan-render fuel ts (record f { isolated = true }))

unknown-ne : unknown_option ≢ out_of_fuel
unknown-ne h = cc

-- The fuel is enough: on any string each round takes away at least one byte.
scan-ends : (fuel : ℕ) (s : List ℕ) (f : Flags) → length s < fuel → scan fuel s f ≢ out_of_fuel
unfolding scan
scan-ends zero s f h = absurd (omega arith)
scan-ends (suc fuel) [] f h = cc
scan-ends (suc fuel) (c ∷ s) f h =
    if-ne _ (scan-ends fuel (drop 6 s) _ (omega (arith, length-drop 6 s))) (
      if-ne _ (scan-ends fuel (drop 11 s) _ (omega (arith, length-drop 11 s))) (
        if-ne _ (scan-ends fuel (drop 2 s) _ (omega (arith, length-drop 2 s)))
          (if-ne _ (scan-ends fuel (drop 8 s) _ (omega (arith, length-drop 8 s))) unknown-ne)))

-- One more token at the head of a string that splits into tokens.
Rendered-cons :
    (t : Token) (s rest : List ℕ)
    → s ≡ text t ++ rest
    → (ts : List Token) × (rest ≡ render ts)
    → (ts : List Token) × (s ≡ render ts)
unfolding render
Rendered-cons t s rest e (ts, r) = (t ∷ ts, ground arith)

not_unknown : (g : Flags) → unknown_option ≡ scanned g → ⊥
not_unknown g h = cc

scan_sound :
    (fuel : ℕ) (s : List ℕ) (f g : Flags)
    → scan fuel s f ≡ scanned g
    → (ts : List Token) × (s ≡ render ts)
unfolding scan render
scan_sound zero s f g h = cc
scan_sound (suc fuel) [] f g h = ([], refl)
scan_sound (suc fuel) (c ∷ s) f g h =
    let w = c ∷ s in
    elim (Bool-cases (strncmp_eq w (text shared) 7)) [
      | inl e ↦
          Rendered-cons shared w (drop 7 w) (strncmp_eq-split w (text shared) e)
            (scan_sound fuel (drop 6 s) (record f { shared = true }) g (rw e at h))
      | inr n1 ↦ elim (Bool-cases (strncmp_eq w (text independent) 12)) [
        | inl e ↦
            Rendered-cons independent w (drop 12 w) (strncmp_eq-split w (text independent) e)
              (scan_sound fuel (drop 11 s) (record f { independent = true }) g (rw (n1, e) at h))
        | inr n2 ↦ elim (Bool-cases (strncmp_eq w (text four_k) 3)) [
          | inl e ↦
              Rendered-cons four_k w (drop 3 w) (strncmp_eq-split w (text four_k) e)
                (scan_sound fuel (drop 2 s) (record f { map4k = true }) g (rw (n1, n2, e) at h))
          | inr n3 ↦ elim (Bool-cases (strncmp_eq w (text isolated) 9)) [
            | inl e ↦ Rendered-cons isolated w (drop 9 w) (strncmp_eq-split w (text isolated) e) (
                scan_sound fuel (drop 8 s) (record f { isolated = true }) g
                  (rw (n1, n2, n3, e) at h))
            | inr n4 ↦ absurd (not_unknown g (rw (n1, n2, n3, n4) at h))
          ]
        ]
      ]
    ]

-- On every sequence of tokens, in any order and with repetitions, vmops_utils_parse_options returns
-- what the tokens mean: -1 and an unchanged configuration where both "-shared" and "-independent"
-- are named, and otherwise 0, with `shared` unless "-independent" is named, and `isolated` and
-- `map4k` set exactly as named.
pub parse_options-render :
    (ts : List Token) (cfg : Cfg) → parse_options (render ts) cfg ≡ meaning ts cfg
unfolding parse_options finish apply_flags meaning
parse_options-render ts cfg =
    rw (scan-render (suc (length (render ts))) ts no_flags (omega arith)) (ground arith)

-- A string that is no sequence of the four tokens is refused with -1, and the configuration is
-- left as it was.
pub parse_options-unknown :
    (s : List ℕ) (cfg : Cfg)
    → ((ts : List Token) → s ≢ render ts)
    → parse_options s cfg ≡ (failure, cfg)
unfolding parse_options finish
parse_options-unknown s cfg none_of = go (scan (suc (length s)) s no_flags) refl
  where
    go : (r : Scanned) → scan (suc (length s)) s no_flags ≡ r → finish r cfg ≡ (failure, cfg)
    go (scanned g) e =
        let (ts, q) = scan_sound (suc (length s)) s no_flags g e in absurd (none_of ts q)
    go unknown_option e = refl
    go out_of_fuel e = refl

-- The scan ends on every string within the fuel that vmops_utils_parse_options gives it, and it
-- succeeds exactly on the sequences of tokens.
pub scan_iff :
    (s : List ℕ)
    → (scan (suc (length s)) s no_flags ≢ out_of_fuel)
      × (((g : Flags) × (scan (suc (length s)) s no_flags ≡ scanned g))
          ↔ ((ts : List Token) × (s ≡ render ts)))
scan_iff s = (
  scan-ends (suc (length s)) s no_flags (omega arith),
  (
    λ p. scan_sound (suc (length s)) s no_flags p.0 p.1,
    λ q. (
      add_tokens q.0 no_flags,
      rw (q.1) (scan-render (suc (length (render q.0))) q.0 no_flags (omega arith)),
    ),
  ),
)

-- The number of cores is not among the options.
pub parse_options-size :
    (opts : List ℕ) (cfg : Cfg) → (parse_options opts cfg).1.corelist_size ≡ cfg.corelist_size
unfolding parse_options finish apply_flags
parse_options-size opts cfg = by_scan (scan _ opts _)
  where
    by_scan : (s : Scanned) → (finish s cfg).1.corelist_size ≡ cfg.corelist_size
    by_scan (scanned f) =
        if_cases (λ (r : Status × Cfg). r.1.corelist_size ≡ cfg.corelist_size)
          (f.shared && f.independent) (λ e. refl) (λ e. refl)
    by_scan unknown_option = refl
    by_scan out_of_fuel = refl
