-- ===== src/Tests/Openalias.antt =====
-- The record `a=x; b="y; z"; `, and a split of a body that ends in a pair.
use zcash_sdk_kmp.Base.{ℕ, ◌≡◌, refl, List, [], ◌∷◌}
use zcash_sdk_kmp.Openalias.{is_whitespace, mark_of, split_from, split_oa1_pairs}
use zcash_sdk_kmp.Openalias.Pairs.{closes, print_pairs, split_oa1_pairs-print_pairs}

-- a=x
abbrev unquoted : List ℕ
unquoted = 97 ∷ 61 ∷ 120 ∷ []

-- b="y; z"
abbrev quoted : List ℕ
quoted = 98 ∷ 61 ∷ 34 ∷ 121 ∷ 59 ∷ 32 ∷ 122 ∷ 34 ∷ []

-- `;  a=x; ;a=x` has two pairs.
blank_pairs :
    split_oa1_pairs (59 ∷ 32 ∷ 32 ∷ 97 ∷ 61 ∷ 120 ∷ 59 ∷ 32 ∷ 59 ∷ 97 ∷ 61 ∷ 120 ∷ [])
    ≡ unquoted ∷ unquoted ∷ []
unfolding split_oa1_pairs split_from mark_of is_whitespace
blank_pairs = refl

split_oa1_pairs-print_pairs_example :
    split_oa1_pairs (print_pairs (unquoted ∷ quoted ∷ [])) ≡ unquoted ∷ quoted ∷ []
unfolding is_whitespace closes
split_oa1_pairs-print_pairs_example =
    split_oa1_pairs-print_pairs (unquoted ∷ quoted ∷ []) ((refl, refl), ((refl, refl), tt))
