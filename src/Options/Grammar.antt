-- ===== src/Options/Grammar.antt =====
-- The option strings that vmops_utils_parse_options is meant to take: sequences of four tokens.
use vmopsbench.Common.{
  ℕ, Bool, true, false, ◌&&◌, ◌||◌, not, List, [], ◌∷◌, ◌++◌, if◌then◌else◌, codes,
}
use vmopsbench.Config.{Cfg, Status, success, failure}

pub data Token : Type 0 where
  shared independent four_k isolated : Token

abbrev pub text : Token → List ℕ
text shared = codes "-shared"
text independent = codes "-independent"
text four_k = codes "-4k"
text isolated = codes "-isolated"

unfoldable pub render : List Token → List ℕ
render [] = []
render (t ∷ ts) = text t ++ render ts

abbrev pub same : Token → Token → Bool
same shared shared = true
same independent independent = true
same four_k four_k = true
same isolated isolated = true
same _ _ = false

unfoldable pub has : Token → List Token → Bool
has t [] = false
has t (u ∷ us) = same t u || has t us

-- What a sequence of tokens asks for: sharing is the default, and excludes independence.
unfoldable pub meaning : List Token → Cfg → Status × Cfg
meaning ts cfg = if has shared ts && has independent ts then (failure, cfg) else (
  success,
  record cfg {
    shared = not (has independent ts);
    isolated = has isolated ts;
    map4k = has four_k ts;
  },
)
