-- ===== src/Migrate/Split.antt =====
-- rust/rlz/src/migrate/mod.rs: `plan_split`, which decides what a split transaction sends.
pub mod Sort
pub mod Counts
pub mod Trim
pub mod Plan
use zcash_sdk_kmp.Base.{
  ℕ, zero, suc, ◌+◌, ◌-◌, ◌*◌, ◌/◌, ◌%◌, ◌^◌, Bool, true, false, ◌||◌, Option, some, none, List, [],
  ◌∷◌, ◌++◌, ltb, leb, ◌==◌, if◌then◌else◌, take, length, sum,
}
use zcash_sdk_kmp.Base.Partial.{◌>>=◌}
use zcash_sdk_kmp.Pay.Fee.{FeeManager, empty, add_input, add_output, remove_output, fee}
use zcash_sdk_kmp.Migrate.{Digits, decompose_to_sd, min_sd, max_split_inputs}

pub record SplitPlan : Type 0 where
  pub digits : Digits
  pub remainder : ℕ
  pub total : ℕ

-- `sort_unstable_by(|a, b| b.cmp(a))`: equal numbers cannot be told apart, so that any sort that
-- puts the larger first gives the same list.
unfoldable pub insert_desc : ℕ → List ℕ → List ℕ
insert_desc v [] = v ∷ []
insert_desc v (x ∷ xs) = if ltb v x then x ∷ insert_desc v xs else v ∷ x ∷ xs

unfoldable pub sort_desc : List ℕ → List ℕ
sort_desc [] = []
sort_desc (x ∷ xs) = insert_desc x (sort_desc xs)

-- `digits.iter().map(|&(_, c)| c as u64).sum()`
abbrev pub count_outputs : Digits → ℕ
count_outputs [] = 0
count_outputs ((d, c) ∷ ds) = c + count_outputs ds

-- `for _ in 0..n { fm.add_…(2) }`
unfoldable pub add_times : (FeeManager → Option FeeManager) → ℕ → FeeManager → Option FeeManager
add_times add zero fm = some fm
add_times add (suc n) fm = do fm' ← add fm; add_times add n fm'

-- What `digits.last_mut()`, `*count -= 1` and the `pop` of an exhausted entry do: the
-- denomination of the last entry and the new list, or `none` on an empty list. `count` is a `u8`.
unfoldable pub take_last : Digits → Option (ℕ × Digits)
take_last [] = none
take_last ((denom, count) ∷ []) =
    let count' = (count + 255) % 256 in
    some (denom, if count' == 0 then [] else (denom, count') ∷ [])
take_last (entry ∷ next ∷ rest) = do
  (denom, rest') ← take_last (next ∷ rest)
  some (denom, entry ∷ rest')

pub record TrimState : Type 0 where
  pub digits : Digits
  pub remainder : ℕ
  pub num_outputs : ℕ
  pub fm : FeeManager

-- One round of the loop below its test. A round on an empty list changes nothing.
unfoldable pub trim_round : TrimState → Option TrimState
trim_round s = elim (take_last s.digits) [
  | none ↦ some s
  | some (denom, digits') ↦ do
    fm' ← remove_output s.fm 2
    some (record {
      digits = digits';
      remainder = s.remainder + denom;
      num_outputs = s.num_outputs - 1;
      fm = fm';
    })
]

-- The loop that trims the lowest denomination; `none` means that the rounds given ran out, or a
-- panic.
unfoldable pub trim : ℕ → TrimState → Option TrimState
trim zero s = none
trim (suc f) s =
    let next = (do s' ← trim_round s; trim f s') in
    if leb (fee s.fm) s.remainder || s.num_outputs == 0 then some s else next

-- The remainder is carved out of the total when it is too small to pay a fee.
unfoldable pub choose_digits : ℕ → Digits × ℕ
choose_digits total =
    let natural = decompose_to_sd total in
    let carved = decompose_to_sd (total - min_sd) in
    if ltb natural.1 (min_sd / 2) then (carved.0, carved.1 + min_sd) else natural

-- The fee manager of the planned transaction, its change output included.
unfoldable pub planned_fees : ℕ → ℕ → Option FeeManager
planned_fees num_inputs num_outputs = do
  spends ← add_times (λ fm. add_input fm 2) num_inputs (record empty { migration = true })
  sends ← add_times (λ fm. add_output fm 2) num_outputs spends
  add_output sends 2

-- What the loop leaves as a plan.
abbrev pub to_plan : ℕ → TrimState → Option SplitPlan
to_plan total s =
    if ltb 0 s.num_outputs
    then some (record { digits = s.digits; remainder = s.remainder; total = total })
    else none

-- The outer `Option` is as for `trim`, the inner one is the result of the code. The rounds are one
-- more than the outputs, since each takes one away.
unfoldable pub plan_split : List ℕ → Option (Option SplitPlan)
plan_split values =
    let sorted = take max_split_inputs (sort_desc values) in
    let total = sum sorted % 2 ^ 64 in
    let chosen = choose_digits total in
    let num_outputs = count_outputs chosen.0 in
    if ltb total min_sd then some none else do
      fm ← planned_fees (length sorted) num_outputs
      s ←
          trim (suc num_outputs)
            (record { digits = chosen.0; remainder = chosen.1; num_outputs = num_outputs; fm = fm })
      some (to_plan total s)

-- `plan_split(&values).is_some()`
unfoldable pub has_split_transaction : List ℕ → Option Bool
has_split_transaction values = do
  plan ← plan_split values
  some (elim plan [ none ↦ false | some _ ↦ true ])
