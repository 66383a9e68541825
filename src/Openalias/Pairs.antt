-- ===== src/Openalias/Pairs.antt =====
-- The split of an OA1 record, and the printing of its pairs.
use zcash_sdk_kmp.Base.{
  ℕ, ◌≡◌, refl, sym, ap, ◌∙◌, ◌⊎◌, inl, inr, Bool, true, false, not, ◌&&◌, ◌==◌, if◌then◌else◌,
  Bool-cases, List, [], ◌∷◌, ◌++◌, All,
}
use mathlib.Core.List.{append_assoc, append-nil}
use zcash_sdk_kmp.Openalias.{
  is_whitespace, trim_start, quote, plain, mark_of, pushed, split_from, split_oa1_pairs,
}

-- The characters have no semicolon outside quotes, and end outside quotes.
unfoldable pub closes : Bool → List ℕ → Bool
closes in_quotes [] = not in_quotes
closes in_quotes (c ∷ cs) =
    let closing = closes (not in_quotes) cs in
    let within = closes in_quotes cs in
    if c == 34 then closing else (if c == 59 then in_quotes && within else within)

-- A pair begins with a character that is no space, and its quotes are closed.
abbrev pub IsPair : List ℕ → Type 0
IsPair [] = ⊥
IsPair (c ∷ cs) = (is_whitespace c ≡ false) × (closes false (c ∷ cs) ≡ true)

-- Each pair is followed by a semicolon and a space.
abbrev pub print_pairs : List (List ℕ) → List ℕ
print_pairs [] = []
print_pairs (p ∷ ps) = p ++ 59 ∷ 32 ∷ print_pairs ps

-- What a closed run begins with, and that its rest is closed.
Begins : Bool → ℕ → List ℕ → Type 0
Begins in_quotes c cs =
    ((mark_of in_quotes c ≡ quote) × (closes (not in_quotes) cs ≡ true))
    ⊎ ((mark_of in_quotes c ≡ plain) × (closes in_quotes cs ≡ true))

closes-Begins :
    (in_quotes : Bool) (c : ℕ) (cs : List ℕ)
    → closes in_quotes (c ∷ cs) ≡ true
    → Begins in_quotes c cs
unfolding Begins closes mark_of
closes-Begins in_quotes c cs h = elim (Bool-cases (c == 34)) [
  | inl e ↦ inl (rw e refl, rw e at h)
  | inr n ↦ elim (Bool-cases (c == 59)) [
    | inl e ↦ elim (Bool-cases in_quotes) [
      | inl q ↦ inr (rw (n, e, q) refl, rw q (rw (n, e, q) at h))
      | inr q ↦ let never : false ≡ true = rw (n, e, q) at h in cc
    ]
    | inr n' ↦ inr (rw (n, n') refl, rw (n, n') at h)
  ]
]

at_semicolon :
    (pair rest : List ℕ)
    → split_from false pair (59 ∷ rest) ≡ pushed (trim_start pair) (split_from false [] rest)
unfolding split_from mark_of
at_semicolon pair rest = refl

-- The split reads a closed run of characters up to the semicolon behind it.
split_from-closes :
    (in_quotes : Bool) (pair cs rest : List ℕ)
    → closes in_quotes cs ≡ true
    → split_from in_quotes pair (cs ++ 59 ∷ rest)
      ≡ pushed (trim_start (pair ++ cs)) (split_from false [] rest)
unfolding split_from closes Begins
split_from-closes true pair [] rest h = cc
split_from-closes false pair [] rest h = rw (append-nil pair) (at_semicolon pair rest)
split_from-closes in_quotes pair (c ∷ cs) rest h =
    let snoc : (pair ++ c ∷ []) ++ cs ≡ pair ++ c ∷ cs = append_assoc pair (c ∷ []) cs in
    elim (closes-Begins in_quotes c cs h) [
      | inl (quoted, closed) ↦
          rw (split_from, quoted, sym snoc)
            (split_from-closes (not in_quotes) (pair ++ c ∷ []) cs rest closed)
      | inr (other, closed) ↦
          rw (split_from, other, sym snoc)
            (split_from-closes in_quotes (pair ++ c ∷ []) cs rest closed)
    ]

trim-space : (p : List ℕ) → trim_start (32 ∷ p) ≡ trim_start p
unfolding is_whitespace
trim-space p = refl

-- The split of what is printed, when the characters since `start` are trimmed away.
from_gap :
    (gap : List ℕ)
    → ((p : List ℕ) → trim_start (gap ++ p) ≡ trim_start p)
    → (ps : List (List ℕ)) → All IsPair ps
    → split_from false gap (print_pairs ps) ≡ ps
unfolding split_from mark_of
from_gap gap trims [] v =
    let all_trimmed : trim_start gap ≡ [] = ap trim_start (sym (append-nil gap)) ∙ trims [] in
    rw all_trimmed refl
from_gap gap trims ([] ∷ ps) v = absurd v.0
from_gap gap trims ((c ∷ cs) ∷ ps) v =
    split_from-closes false gap (c ∷ cs) (32 ∷ print_pairs ps) v.0.1
    ∙ rw (trims (c ∷ cs), v.0.0)
        (ap (λ (qs : List (List ℕ)). (c ∷ cs) ∷ qs) (from_gap (32 ∷ []) trim-space ps v.1))

-- Pairs that are printed are the ones that are split off again, whatever quotes and spaces they hold,
-- when each begins with a character that is no space and has no semicolon outside closed quotes.
pub split_oa1_pairs-print_pairs :
    (ps : List (List ℕ)) → All IsPair ps → split_oa1_pairs (print_pairs ps) ≡ ps
unfolding split_oa1_pairs
split_oa1_pairs-print_pairs ps v = from_gap [] (λ p. refl) ps v
