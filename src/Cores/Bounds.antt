-- ===== src/Cores/Bounds.antt =====
-- parse_cores_list writes inside its array, and its loops end.
use vmopsbench.Common.{
  ℕ, zero, suc, ◌+◌, ◌≤◌, ◌<◌, ◌≡◌, refl, ap, ◌≢◌, inl, inr, Bool, true, false, List, [], ◌∷◌, ◌++◌,
  isdigit, lt→ltb, length, drop, set, replicate, Option, some, none, All, arith, length-set,
  length-replicate, Bool-cases,
}
use vmopsbench.Cores.{
  Outcome, parsed, exits, no_memory, out_of_bounds, out_of_fuel, digits, after_digits, at_separator,
  is_nil, count_cores, core_id, fill, parse_cores_list,
}

-- The string splits at the end of its digits.
pub record Split (s : List ℕ) : Type 0 where
  pub whole : s ≡ digits s ++ after_digits s
  pub run : All (λ c. isdigit c ≡ true) (digits s)
  pub count : count_cores s ≡ count_cores (after_digits s)
  pub size : length s ≡ length (digits s) + length (after_digits s)

pub split : (s : List ℕ) → Split s
unfolding digits after_digits count_cores
split [] = record { whole = refl; run = tt; count = refl; size = refl }
split (c ∷ s) = elim (Bool-cases (isdigit c)) [
  | inl e ↦
      let r = split s in
      record {
        whole = rw e (ap (λ t. c ∷ t) r.whole);
        run = rw e (e, r.run);
        count = ground (arith, r.count);
        size = rw e (omega (arith, r.size));
      }
  | inr e ↦ record { whole = rw e; run = rw e tt; count = ground arith; size = rw e (omega arith) }
]

-- The cells that the rest of the string still needs.
need : List ℕ → ℕ
need [] = 0
need (c ∷ s) = count_cores (c ∷ s)

need-le : (s : List ℕ) → need s ≤ count_cores s
unfolding need
need-le [] = omega arith
need-le (c ∷ s) = omega arith

need-drop : (a : List ℕ) → at_separator a ≡ true → need (drop 1 a) + 1 ≤ count_cores a
unfolding count_cores need
need-drop [] h = omega arith
need-drop (c ∷ s) h = rw h (omega (arith, need-le s))

is_nil-length : (s : List ℕ) → is_nil s ≡ false → 0 < length s
is_nil-length [] h = cc
is_nil-length (c ∷ s) h = omega arith

length-drop-one : (s : List ℕ) → length (drop 1 s) ≤ length s
length-drop-one [] = omega arith
length-drop-one (c ∷ s) = omega arith

abbrev IsProper : Outcome → Type 0
IsProper r = (r ≢ out_of_bounds) × (r ≢ out_of_fuel)

IsProper-parsed : (cores : List (Option ℕ)) (n : ℕ) → IsProper (parsed cores n)
IsProper-parsed cores n = (λ h. cc, λ h. cc)

IsProper-exits : IsProper exits
IsProper-exits = (λ h. cc, λ h. cc)

IsProper-no_memory : IsProper no_memory
IsProper-no_memory = (λ h. cc, λ h. cc)

fill-IsProper :
    (fuel : ℕ) (s : List ℕ) (idx : ℕ) (cores : List (Option ℕ)) (n : ℕ)
    → length s < fuel
    → idx + need s ≤ length cores
    → IsProper (fill fuel s idx cores n)
unfolding fill need
fill-IsProper zero s idx cores n f h = absurd (omega arith)
fill-IsProper (suc fuel) [] idx cores n f h = IsProper-parsed cores n
fill-IsProper (suc fuel) (c ∷ s) idx cores n f h =
    let p = split (c ∷ s) in
    let a = after_digits (c ∷ s) in
    let v = some (core_id (digits (c ∷ s))) in
    elim (Bool-cases (at_separator a)) [
      | inr e ↦ rw e IsProper-exits
      | inl e ↦ elim (Bool-cases (is_nil (digits (c ∷ s)))) [
        | inl g ↦ rw (e, g) IsProper-exits
        | inr g ↦
            let room = need-drop a e in
            rw (e, g, lt→ltb idx (length cores) (omega (arith, p.count, room)))
              (fill-IsProper fuel (drop 1 a) (idx + 1) (set cores idx v) n
                (omega (arith, p.size, is_nil-length (digits (c ∷ s)) g, length-drop-one a))
                (omega (arith, length-set cores idx v, p.count, room)))
      ]
    ]

length-blank : (n : ℕ) → length (replicate {A = Option ℕ} n none) ≡ n
length-blank n = length-replicate n none

-- On every string, and whether or not malloc succeeds, parse_cores_list never writes outside the
-- array that it allocated, and its loops end.
pub parse_cores_list-IsProper :
    (granted : Bool) (s : List ℕ)
    → (parse_cores_list granted s ≢ out_of_bounds) × (parse_cores_list granted s ≢ out_of_fuel)
unfolding parse_cores_list need
parse_cores_list-IsProper granted [] = IsProper-exits
parse_cores_list-IsProper granted (c ∷ s) = elim (Bool-cases (isdigit c)) [
  | inr e ↦ rw e IsProper-exits
  | inl e ↦ elim (Bool-cases granted) [
    | inr g ↦ rw (e, g) IsProper-no_memory
    | inl g ↦
        let n = count_cores (c ∷ s) in
        rw (e, g)
          (fill-IsProper (suc (length (c ∷ s))) (c ∷ s) 0 (replicate n none) n (omega arith)
            (omega (arith, length-blank n)))
  ]
]
