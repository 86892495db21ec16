-- ===== src/Main/Dispatch.antt =====
-- src/main.c, the comparisons at the end of main: which benchmark a name selects.
use vmopsbench.Common.{
  ℕ, ◌≡◌, ◌↔◌, refl, Option, some, List, ◌++◌, codes, strncmp_eq, strncmp_eq-split, drop, if_cases,
}
use vmopsbench.Main.{Benchmark, mapunmap, maponly, protect, elevate, tlbshoot, select}

-- The names that the messages and the documentation use.
abbrev pub name_of : Benchmark → List ℕ
name_of mapunmap = codes "mapunmap"
name_of maponly = codes "maponly"
name_of protect = codes "protect"
name_of elevate = codes "elevate"
name_of tlbshoot = codes "tlbshoot"

select-name_of : (b : Benchmark) (opts : List ℕ) → select (name_of b ++ opts) ≡ some (b, opts)
unfolding select
select-name_of mapunmap opts = refl
select-name_of maponly opts = refl
select-name_of protect opts = refl
select-name_of elevate opts = refl
select-name_of tlbshoot opts = refl

module _ (name : List ℕ) (b : Benchmark) (opts : List ℕ) where
  abbrev Names : Option (Benchmark × List ℕ) → Type 0
  Names r = r ≡ some (b, opts) → name ≡ name_of b ++ opts

  found : (c : Benchmark) (rest : List ℕ) → name ≡ name_of c ++ rest → Names (some (c, rest))
  found c rest e h = cc

  select-Names : Names (select name)
  unfolding select
  select-Names =
      if_cases Names (strncmp_eq name (codes "mapunmap") 8)
        (λ e. found mapunmap (drop 8 name) (strncmp_eq-split name (codes "mapunmap") e))
        (λ _.
          if_cases Names (strncmp_eq name (codes "maponly") 7)
            (λ e. found maponly (drop 7 name) (strncmp_eq-split name (codes "maponly") e))
            (λ _.
              if_cases Names (strncmp_eq name (codes "protect") 7)
                (λ e. found protect (drop 7 name) (strncmp_eq-split name (codes "protect") e))
                (λ _.
                  if_cases Names (strncmp_eq name (codes "elevate") 7)
                    (λ e. found elevate (drop 7 name) (strncmp_eq-split name (codes "elevate") e))
                    (λ _.
                      if_cases Names (strncmp_eq name (codes "tlbshoot") 8)
                        (λ e.
                          found tlbshoot (drop 8 name) (strncmp_eq-split name (codes "tlbshoot") e))
                        (λ _ h. cc)))))

-- A benchmark name selects a benchmark with options exactly when it is the name of that benchmark
-- followed by these options; a name that is no such text selects none.
pub select_iff :
    (name : List ℕ) (b : Benchmark) (opts : List ℕ)
    → (select name ≡ some (b, opts)) ↔ (name ≡ name_of b ++ opts)
select_iff name b opts = (select-Names name b opts, λ e. rw e (select-name_of b opts))
