-- ===== src/Openalias.antt =====
-- rust/rlz/src/openalias.rs: the pairs of an OA1 record. A string is the list of its code points;
-- the bytes that are compared are ASCII, so they stand for themselves in UTF-8.
use zcash_sdk_kmp.Base.{
  ℕ, Bool, true, false, not, ◌&&◌, ◌||◌, List, [], ◌∷◌, ◌++◌, leb, ◌==◌, if◌then◌else◌,
}
pub mod Pairs

-- `char::is_whitespace`
unfoldable pub is_whitespace : ℕ → Bool
is_whitespace c =
    (leb 9 c && leb c 13)
    || c == 32
    || c == 133
    || c == 160
    || c == 5760
    || (leb 8192 c && leb c 8202)
    || c == 8232
    || c == 8233
    || c == 8239
    || c == 8287
    || c == 12288

abbrev pub trim_start : List ℕ → List ℕ
trim_start [] = []
trim_start (c ∷ cs) = let rest = trim_start cs in if is_whitespace c then rest else c ∷ cs

-- What a character is to the split, by whether it stands in quotes.
pub data Mark : Type 0 where
  quote : Mark
  separator : Mark
  plain : Mark

unfoldable pub mark_of : Bool → ℕ → Mark
mark_of in_quotes c =
    if c == 34 then quote else if c == 59 && not in_quotes then separator else plain

-- A pair that is not empty is pushed.
abbrev pub pushed : List ℕ → List (List ℕ) → List (List ℕ)
pushed [] pairs = pairs
pushed (c ∷ cs) pairs = (c ∷ cs) ∷ pairs

-- The loop, with the characters since `start`.
unfoldable pub split_from : Bool → List ℕ → List ℕ → List (List ℕ)
split_from in_quotes pair [] = pushed (trim_start pair) []
split_from in_quotes pair (c ∷ cs) = elim (mark_of in_quotes c) [
  | quote ↦ split_from (not in_quotes) (pair ++ c ∷ []) cs
  | separator ↦ pushed (trim_start pair) (split_from in_quotes [] cs)
  | plain ↦ split_from in_quotes (pair ++ c ∷ []) cs
]

unfoldable pub split_oa1_pairs : List ℕ → List (List ℕ)
split_oa1_pairs body = split_from false [] body
