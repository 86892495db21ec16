-- ===== src/Cores/Written.antt =====
-- What parse_cores_list makes of well-formed lists, with and without a comma at the end.
use vmopsbench.Common.{
  ℕ, zero, suc, ◌+◌, ◌<◌, ◌≡◌, refl, ap, ◌∙◌, true, false, List, [], ◌∷◌, ◌++◌, map, isdigit,
  length, drop, set, replicate, Option, some, none, All, arith, lt→ltb, length-append,
  length-replicate,
}
use mathlib.Core.Path.{ap₂, sym}
use mathlib.Core.List.{append_assoc, append-nil}
use vmopsbench.Cores.{
  parsed, digits, after_digits, at_separator, is_nil, count_cores, core_id, fill, parse_cores_list,
}

-- A core id as it is written: one digit or more.
pub record IsNumber (d : List ℕ) : Type 0 where
  pub digits : All (λ c. isdigit c ≡ true) d
  pub nonempty : is_nil d ≡ false

IsNumber-length : (d : List ℕ) → IsNumber d → 0 < length d
IsNumber-length [] num = cc (num.nonempty)
IsNumber-length (c ∷ d) num = omega arith

-- The ids with a comma behind each, and behind each but the last.
unfoldable pub with_commas : List (List ℕ) → List ℕ
with_commas [] = []
with_commas (d ∷ ds) = d ++ (b',' ∷ with_commas ds)

unfoldable pub join : List ℕ → List (List ℕ) → List ℕ
join d [] = d
join d (e ∷ ds) = d ++ (b',' ∷ join e ds)

digits-split :
    (d rest : List ℕ)
    → All (λ c. isdigit c ≡ true) d
    → at_separator rest ≡ true
    → (digits (d ++ rest) ≡ d) × (after_digits (d ++ rest) ≡ rest)
unfolding digits after_digits
digits-split [] [] h e = (refl, refl)
digits-split [] (c ∷ rest) h e = ground arith
digits-split (c ∷ d) rest h e = ground (arith, digits-split d rest h.1 e)

count_cores-split :
    (d rest : List ℕ) → All (λ c. isdigit c ≡ true) d → count_cores (d ++ rest) ≡ count_cores rest
unfolding count_cores
count_cores-split [] rest h = refl
count_cores-split (c ∷ d) rest h = ground (arith, count_cores-split d rest h.1)

-- One round of the loop at a number that a separator follows.
fill-number :
    (fuel : ℕ) (d rest : List ℕ) (idx : ℕ) (cores : List (Option ℕ)) (n : ℕ)
    → IsNumber d
    → at_separator rest ≡ true
    → idx < length cores
    → fill (suc fuel) (d ++ rest) idx cores n
      ≡ fill fuel (drop 1 rest) (idx + 1) (set cores idx (some (core_id d))) n
unfolding fill
fill-number fuel [] rest idx cores n num sep h = cc (num.nonempty)
fill-number fuel (c ∷ d) rest idx cores n num sep h =
    let (p, q) = digits-split (c ∷ d) rest num.digits sep in
    rw (p, q, sep) (rw (lt→ltb idx (length cores) h))

-- The array with the ids read so far, and cells that are not written yet.
abbrev partly : List (Option ℕ) → ℕ → List (Option ℕ)
partly pre k = pre ++ replicate k none

set-partly :
    (pre : List (Option ℕ)) (k : ℕ) (v : Option ℕ)
    → set (partly pre (suc k)) (length pre) v ≡ partly (pre ++ v ∷ []) k
set-partly [] k v = refl
set-partly (x ∷ pre) k v = ap (λ t. x ∷ t) (set-partly pre k v)

length-partly : (pre : List (Option ℕ)) (k : ℕ) → length (partly pre k) ≡ length pre + k
length-partly [] k = length-replicate k none ∙ omega arith
length-partly (x ∷ pre) k = omega (arith, length-partly pre k)

fill-end :
    (fuel idx : ℕ) (cores : List (Option ℕ)) (n : ℕ)
    → fill (suc fuel) [] idx cores n ≡ parsed cores n
unfolding fill
fill-end fuel idx cores n = refl

-- A round of the loop over a partly written array.
fill-step :
    (fuel : ℕ) (d rest : List ℕ) (pre : List (Option ℕ)) (k n : ℕ)
    → IsNumber d
    → at_separator rest ≡ true
    → fill (suc fuel) (d ++ rest) (length pre) (partly pre (suc k)) n
      ≡ fill fuel
          (drop 1 rest)
          (length (pre ++ some (core_id d) ∷ []))
          (partly (pre ++ some (core_id d) ∷ []) k)
          n
fill-step fuel d rest pre k n num sep =
    fill-number fuel d rest (length pre) (partly pre (suc k)) n num sep
      (omega (arith, length-partly pre (suc k)))
    ∙ ap₂ (λ i cs. fill fuel (drop 1 rest) i cs n)
        (omega (arith, length-append pre (some (core_id d) ∷ [])))
        (set-partly pre k (some (core_id d)))

fill-with_commas :
    (fuel : ℕ) (ds : List (List ℕ)) (pre : List (Option ℕ)) (n : ℕ)
    → All IsNumber ds
    → length (with_commas ds) < fuel
    → fill fuel (with_commas ds) (length pre) (partly pre (suc (length ds))) n
      ≡ parsed (pre ++ (map (λ d. some (core_id d)) ds ++ none ∷ [])) n
unfolding with_commas
fill-with_commas zero ds pre n nums h = absurd (omega arith)
fill-with_commas (suc fuel) [] pre n nums h = fill-end fuel (length pre) (partly pre 1) n
fill-with_commas (suc fuel) (d ∷ ds) pre n nums h =
    fill-step fuel d (b',' ∷ with_commas ds) pre (suc (length ds)) n nums.0 refl
    ∙ fill-with_commas fuel ds (pre ++ some (core_id d) ∷ []) n nums.1
        (omega (arith, length-append d (b',' ∷ with_commas ds)))
    ∙ ap (λ t. parsed t n) (append_assoc pre (some (core_id d) ∷ []) _)

fill-join :
    (fuel : ℕ) (d : List ℕ) (ds : List (List ℕ)) (pre : List (Option ℕ)) (n : ℕ)
    → IsNumber d
    → All IsNumber ds
    → length (join d ds) < fuel
    → fill fuel (join d ds) (length pre) (partly pre (suc (length ds))) n
      ≡ parsed (pre ++ map (λ e. some (core_id e)) (d ∷ ds)) n
unfolding join
fill-join zero d ds pre n num nums h = absurd (omega arith)
fill-join (suc zero) d [] pre n num nums h = absurd (omega (arith, IsNumber-length d num))
fill-join (suc (suc fuel)) d [] pre n num nums h =
    let ids = pre ++ some (core_id d) ∷ [] in
    ap (λ t. fill (suc (suc fuel)) t (length pre) (partly pre 1) n) (sym (append-nil d))
    ∙ fill-step (suc fuel) d [] pre 0 n num refl
    ∙ fill-end fuel (length ids) (partly ids 0) n
    ∙ ap (λ t. parsed t n) (append-nil ids)
fill-join (suc fuel) d (e ∷ ds) pre n num nums h =
    fill-step fuel d (b',' ∷ join e ds) pre (suc (length ds)) n num refl
    ∙ fill-join fuel e ds (pre ++ some (core_id d) ∷ []) n nums.0 nums.1
        (omega (arith, length-append d (b',' ∷ join e ds)))
    ∙ ap (λ t. parsed t n) (append_assoc pre (some (core_id d) ∷ []) _)

count_cores-nil : count_cores [] ≡ 1
unfolding count_cores
count_cores-nil = refl

count_cores-comma : (s : List ℕ) → count_cores (b',' ∷ s) ≡ count_cores s + 1
unfolding count_cores
count_cores-comma s = refl

count_cores-with_commas :
    (ds : List (List ℕ)) → All IsNumber ds → count_cores (with_commas ds) ≡ length ds + 1
unfolding with_commas
count_cores-with_commas [] nums = rw count_cores-nil
count_cores-with_commas (d ∷ ds) nums =
    count_cores-split d (b',' ∷ with_commas ds) nums.0.digits
    ∙ count_cores-comma (with_commas ds)
    ∙ omega (arith, count_cores-with_commas ds nums.1)

count_cores-join :
    (d : List ℕ) (ds : List (List ℕ))
    → IsNumber d
    → All IsNumber ds
    → count_cores (join d ds) ≡ length ds + 1
unfolding join
count_cores-join d [] num nums =
    ap count_cores (sym (append-nil d)) ∙ count_cores-split d [] num.digits ∙ count_cores-nil
count_cores-join d (e ∷ ds) num nums =
    count_cores-split d (b',' ∷ join e ds) num.digits
    ∙ count_cores-comma (join e ds)
    ∙ omega (arith, count_cores-join e ds nums.0 nums.1)

-- The call at a string that starts with a number, on a granted allocation.
parse_cores_list-number :
    (d rest s : List ℕ) (n : ℕ)
    → IsNumber d
    → s ≡ d ++ rest
    → count_cores s ≡ n
    → parse_cores_list true s ≡ fill (suc (length s)) s 0 (replicate n none) n
unfolding parse_cores_list
parse_cores_list-number [] rest s n num e f = cc (num.nonempty)
parse_cores_list-number (c ∷ d) rest s n num e f = rw (e, num.digits.0) (rw (← e, f))

join-head : (d : List ℕ) (ds : List (List ℕ)) → (rest : List ℕ) × (join d ds ≡ d ++ rest)
unfolding join
join-head d [] = ([], sym (append-nil d))
join-head d (e ∷ ds) = (b',' ∷ join e ds, refl)

with_commas-cons :
    (d : List ℕ) (ds : List (List ℕ)) → with_commas (d ∷ ds) ≡ d ++ (b',' ∷ with_commas ds)
unfolding with_commas
with_commas-cons d ds = refl

-- A list of numbers joined by commas gives exactly their ids, each as strtoul reads it modulo
-- 2^32, in the order written, with their number as the count.
pub parse_cores_list-join :
    (d : List ℕ) (ds : List (List ℕ))
    → IsNumber d
    → All IsNumber ds
    → parse_cores_list true (join d ds)
      ≡ parsed (map (λ e. some (core_id e)) (d ∷ ds)) (length (d ∷ ds))
parse_cores_list-join d ds num nums =
    let (rest, e) = join-head d ds in
    let s = join d ds in
    parse_cores_list-number d rest s (suc (length ds)) num e
      (omega (arith, count_cores-join d ds num nums))
    ∙ fill-join (suc (length s)) d ds [] (suc (length ds)) num nums (omega arith)

-- With one more comma at the end the list is accepted too: the count is one too high, and the last
-- cell of the array is never written.
pub parse_cores_list-trailing :
    (d : List ℕ) (ds : List (List ℕ))
    → IsNumber d
    → All IsNumber ds
    → parse_cores_list true (with_commas (d ∷ ds))
      ≡ parsed (map (λ e. some (core_id e)) (d ∷ ds) ++ none ∷ []) (length (d ∷ ds) + 1)
parse_cores_list-trailing d ds num nums =
    let s = with_commas (d ∷ ds) in
    let n = suc (length ds) + 1 in
    let cells : n ≡ suc (length (d ∷ ds)) = omega arith in
    parse_cores_list-number d (b',' ∷ with_commas ds) s n num (with_commas-cons d ds)
      (count_cores-with_commas (d ∷ ds) (num, nums))
    ∙ ap (λ k. fill (suc (length s)) s 0 (replicate k none) n) cells
    ∙ fill-with_commas (suc (length s)) (d ∷ ds) [] n (num, nums) (omega arith)
