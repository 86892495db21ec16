-- ===== src/Cores/Tests.antt =====
-- Core lists on concrete strings, and the theorems at them.
use vmopsbench.Common.{ℕ, ◌≡◌, refl, ◌↔◌, true, List, [], ◌∷◌, some, none, codes, strtoul, Option}
use vmopsbench.Cores.{parsed, exits, parse_cores_list, fill, digits, after_digits, count_cores}
use vmopsbench.Cores.Written.{
  IsNumber, with_commas, join, parse_cores_list-join, parse_cores_list-trailing,
}
use vmopsbench.Cores.Accepted.{IsListed, parse_cores_list_iff}

runs :
    (parse_cores_list true (codes "0,12,3") ≡ parsed (some 0 ∷ some 12 ∷ some 3 ∷ []) 3)
    × (parse_cores_list true (codes "4,") ≡ parsed (some 4 ∷ none ∷ []) 2)
    × (parse_cores_list true (codes "4,,5") ≡ exits)
    × (parse_cores_list true (codes "4-5") ≡ exits)
unfolding parse_cores_list fill digits after_digits count_cores strtoul
runs = (refl, refl, refl, refl)

abbrev twelve : List ℕ
twelve = codes "12"

twelve-IsNumber : IsNumber twelve
twelve-IsNumber = record { digits = (refl, (refl, tt)); nonempty = refl }

parse_cores_list-join_example :
    parse_cores_list true (join twelve (twelve ∷ [])) ≡ parsed (some 12 ∷ some 12 ∷ []) 2
unfolding strtoul
parse_cores_list-join_example =
    parse_cores_list-join twelve (twelve ∷ []) twelve-IsNumber (twelve-IsNumber, tt)

parse_cores_list-trailing_example :
    parse_cores_list true (with_commas (twelve ∷ [])) ≡ parsed (some 12 ∷ none ∷ []) 2
unfolding strtoul
parse_cores_list-trailing_example = parse_cores_list-trailing twelve [] twelve-IsNumber tt

parse_cores_list_iff_example :
    (((out : List (Option ℕ)) × (n : ℕ) × (parse_cores_list true (codes "7,") ≡ parsed out n))
      ↔ IsListed (codes "7,"))
    × ((¬ IsListed (codes "7,")) → parse_cores_list true (codes "7,") ≡ exits)
parse_cores_list_iff_example = parse_cores_list_iff (codes "7,")
