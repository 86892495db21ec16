-- ===== src/Cores/Accepted.antt =====
-- Which strings parse_cores_list accepts.
use vmopsbench.Common.{
  not, ℕ, zero, suc, ◌+◌, ◌≡◌, refl, ◌≢◌, ◌⊎◌, inl, inr, true, List, [], ◌∷◌, ◌++◌, map, isdigit,
  ◌↔◌, ltb, ==_iff, length, drop, set, replicate, Option, some, none, All, Bool-cases, if-ne,
}
use mathlib.Core.List.{append-nil}
use vmopsbench.Cores.{
  Outcome, parsed, exits, no_memory, out_of_bounds, out_of_fuel, digits, after_digits, at_separator,
  is_nil, count_cores, core_id, fill, parse_cores_list,
}
use vmopsbench.Cores.Written.{
  parse_cores_list-join, parse_cores_list-trailing, IsNumber, with_commas, join,
}
use vmopsbench.Cores.Bounds.{split, parse_cores_list-IsProper}

-- One number or more, joined by commas, with or without a comma at the end.
abbrev pub IsListed : List ℕ → Type 0
IsListed s =
    (d : List ℕ) × (ds : List (List ℕ)) × IsNumber d
    × All IsNumber ds
    × ((s ≡ join d ds) ⊎ (s ≡ with_commas (d ∷ ds)))

abbrev Rest : List ℕ → Type 0
Rest s = (s ≡ []) ⊎ IsListed s

-- One more number in front.
IsListed-cons : (d s : List ℕ) → IsNumber d → Rest s → IsListed (d ++ (b',' ∷ s))
unfolding join with_commas
IsListed-cons d s num (inl e) = (d, [], num, tt, inr (rw e))
IsListed-cons d s num (inr (e, es, n, ns, inl q)) = (d, e ∷ es, num, (n, ns), inl (rw q))
IsListed-cons d s num (inr (e, es, n, ns, inr q)) = (d, e ∷ es, num, (n, ns), inr (rw q))

IsListed-one : (d : List ℕ) → IsNumber d → IsListed (d ++ [])
unfolding join
IsListed-one d num = (d, [], num, tt, inl (append-nil d))

-- A number and a separator, with what the loop makes of the string behind.
after : (d a : List ℕ) → IsNumber d → at_separator a ≡ true → Rest (drop 1 a) → IsListed (d ++ a)
after d [] num e r = IsListed-one d num
after d (c ∷ s) num e r = rw ((==_iff c b',').0 e) (IsListed-cons d s num r)

exits-ne : (cores : List (Option ℕ)) (n : ℕ) → exits ≢ parsed cores n
exits-ne cores n h = cc

out_of_bounds-ne : (cores : List (Option ℕ)) (n : ℕ) → out_of_bounds ≢ parsed cores n
out_of_bounds-ne cores n h = cc

fill-IsListed :
    (fuel : ℕ) (s : List ℕ) (idx : ℕ) (cores out : List (Option ℕ)) (n m : ℕ)
    → fill fuel s idx cores n ≡ parsed out m
    → Rest s
unfolding fill
fill-IsListed zero s idx cores out n m h = cc
fill-IsListed (suc fuel) [] idx cores out n m h = inl refl
fill-IsListed (suc fuel) (c ∷ s) idx cores out n m h =
    let p = split (c ∷ s) in
    let a = after_digits (c ∷ s) in
    let v = some (core_id (digits (c ∷ s))) in
    elim (Bool-cases (at_separator a)) [
      | inr e ↦ absurd (exits-ne out m (rw e at h))
      | inl e ↦ elim (Bool-cases (is_nil (digits (c ∷ s)))) [
        | inl g ↦ absurd (exits-ne out m (rw (e, g) at h))
        | inr g ↦ elim (Bool-cases (ltb idx (length cores))) [
          | inr l ↦ absurd (out_of_bounds-ne out m (rw (e, g, l) at h))
          | inl l ↦ inr (
              rw p.whole (
                after (digits (c ∷ s)) a (record { digits = p.run; nonempty = g }) e
                  (fill-IsListed fuel (drop 1 a) (idx + 1) (set cores idx v) out n m
                    (rw (e, g, l) at h))))
        ]
      ]
    ]

no_nil : (c : ℕ) (s : List ℕ) → Rest (c ∷ s) → IsListed (c ∷ s)
no_nil c s (inl e) = cc
no_nil c s (inr l) = l

accepted :
    (s : List ℕ) (out : List (Option ℕ)) (n : ℕ)
    → parse_cores_list true s ≡ parsed out n
    → IsListed s
unfolding parse_cores_list
accepted [] out n e = absurd (exits-ne out n e)
accepted (c ∷ s) out n e = elim (Bool-cases (isdigit c)) [
  | inr d ↦ absurd (exits-ne out n (rw d at e))
  | inl d ↦
      let k = count_cores (c ∷ s) in
      no_nil c s
        (fill-IsListed (suc (length (c ∷ s))) (c ∷ s) 0 (replicate k none) out k n (rw d at e))
]

exits-ne-no_memory : exits ≢ no_memory
exits-ne-no_memory h = cc

out_of_bounds-ne-no_memory : out_of_bounds ≢ no_memory
out_of_bounds-ne-no_memory h = cc

fill-ne-no_memory :
    (fuel : ℕ) (s : List ℕ) (idx : ℕ) (cores : List (Option ℕ)) (n : ℕ)
    → fill fuel s idx cores n ≢ no_memory
unfolding fill
fill-ne-no_memory zero s idx cores n = λ h. cc
fill-ne-no_memory (suc fuel) [] idx cores n = λ h. cc
fill-ne-no_memory (suc fuel) (c ∷ s) idx cores n =
    let ds = digits (c ∷ s) in
    let a = after_digits (c ∷ s) in
    if-ne (not (at_separator a)) exits-ne-no_memory (
      if-ne (is_nil ds) exits-ne-no_memory (
        if-ne (ltb idx (length cores))
          (fill-ne-no_memory fuel (drop 1 a) (idx + 1) (set cores idx (some (core_id ds))) n)
          out_of_bounds-ne-no_memory))

parse_cores_list-ne-no_memory : (s : List ℕ) → parse_cores_list true s ≢ no_memory
unfolding parse_cores_list
parse_cores_list-ne-no_memory [] = λ h. cc
parse_cores_list-ne-no_memory (c ∷ s) =
    let n = count_cores (c ∷ s) in
    if-ne (not (isdigit c)) exits-ne-no_memory
      (fill-ne-no_memory (suc (length (c ∷ s))) (c ∷ s) 0 (replicate n none) n)

exits_of_refused :
    (s : List ℕ) → (¬ IsListed s) → (r : Outcome) → parse_cores_list true s ≡ r → r ≡ exits
exits_of_refused s no_list (parsed out n) e = absurd (no_list (accepted s out n e))
exits_of_refused s no_list no_memory e = absurd (parse_cores_list-ne-no_memory s e)
exits_of_refused s no_list exits e = refl
exits_of_refused s no_list out_of_bounds e = absurd ((parse_cores_list-IsProper true s).0 e)
exits_of_refused s no_list out_of_fuel e = absurd ((parse_cores_list-IsProper true s).1 e)

abbrev Accepts : List ℕ → Type 0
Accepts s = (out : List (Option ℕ)) × (n : ℕ) × (parse_cores_list true s ≡ parsed out n)

Accepts-IsListed : (s : List ℕ) → IsListed s → Accepts s
Accepts-IsListed s (d, ds, num, nums, inl e) = (
  map (λ x. some (core_id x)) (d ∷ ds),
  length (d ∷ ds),
  rw e (parse_cores_list-join d ds num nums),
)
Accepts-IsListed s (d, ds, num, nums, inr e) = (
  map (λ x. some (core_id x)) (d ∷ ds) ++ none ∷ [],
  length (d ∷ ds) + 1,
  rw e (parse_cores_list-trailing d ds num nums),
)

-- When malloc succeeds, parse_cores_list accepts exactly the lists of one number or more joined by
-- commas, and the same lists with one more comma at the end; on any other string the process exits.
pub parse_cores_list_iff :
    (s : List ℕ)
    → (((out : List (Option ℕ)) × (n : ℕ) × (parse_cores_list true s ≡ parsed out n)) ↔ IsListed s)
      × ((¬ IsListed s) → parse_cores_list true s ≡ exits)
parse_cores_list_iff s = (
  (λ p. accepted s p.0 p.1 p.2, Accepts-IsListed s),
  λ no_list. exits_of_refused s no_list (parse_cores_list true s) refl,
)
