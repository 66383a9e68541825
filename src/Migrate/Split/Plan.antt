-- ===== src/Migrate/Split/Plan.antt =====
-- What `plan_split` promises of the plan that it returns.
use native.Mathlib.Decide.{dec_lt}
use zcash_sdk_kmp.Base.{
  ℕ, suc, ◌+◌, ◌-◌, ◌*◌, ◌/◌, ◌≤◌, ◌<◌, ◌%◌, ◌^◌, ◌≡◌, refl, true, Option, some, none, List, [],
  ◌∷◌, arith, All, ltb, lt→ltb, ap, Bool-cases, inl, inr, ◌⊎◌, take, length, length-take, sum,
}
use zcash_sdk_kmp.Base.Partial.{◌>>=◌}
use zcash_sdk_kmp.Migrate.{Digits, decompose_to_sd, min_sd, max_split_inputs}
use zcash_sdk_kmp.Migrate.Decompose.{
  value, outputs, IsSdDigit, decompose_to_sd_sound, decompose_to_sd_small, outputs-pos,
}
use zcash_sdk_kmp.Migrate.Split.{
  SplitPlan, TrimState, sort_desc, count_outputs, choose_digits, planned_fees, trim, to_plan,
  plan_split,
}
use zcash_sdk_kmp.Migrate.Split.Counts.{orchard_only, planned_fees_lem}
use zcash_sdk_kmp.Migrate.Split.Trim.{Inv, Ends, trim-Ends, fee-Inv}

-- The notes that a split spends: the largest fifty.
abbrev pub spent : List ℕ → List ℕ
spent values = take max_split_inputs (sort_desc values)

-- A plan for the notes `inputs`: the denominations and the remainder are their amount, every
-- output is a standard denomination, there is one at least, and the remainder pays the fee of the
-- inputs, the outputs and the change.
pub record IsSplit (inputs : List ℕ) (p : SplitPlan) : Type 0 where
  pub total : p.total ≡ sum inputs
  pub amount : value p.digits + p.remainder ≡ sum inputs
  pub denominations : All IsSdDigit p.digits
  pub some_output : 0 < outputs p.digits
  pub fee_paid : (length inputs + (outputs p.digits + 1)) * 5000 ≤ p.remainder

count_outputs-eq : (ds : Digits) → count_outputs ds ≡ outputs ds
count_outputs-eq [] = refl
count_outputs-eq ((d, c) ∷ ds) = omega (arith, count_outputs-eq ds)

-- The natural remainder is always below half of the reserve, so that the reserve is always carved
-- out: the digits are those of the rest.
choose_digits_lem :
    (total : ℕ)
    → total ≤ 10 ^ 16
    → choose_digits total
      ≡ ((decompose_to_sd (total - min_sd)).0, (decompose_to_sd (total - min_sd)).1 + min_sd)
unfolding choose_digits
choose_digits_lem total high =
    let carve : ltb (decompose_to_sd total).1 (min_sd / 2) ≡ true =
      lt→ltb _ _ (omega (arith, (decompose_to_sd_sound total high).1)) in
    rw carve

-- What the loop starts from.
start : ℕ → ℕ → TrimState
start total inputs = record {
  digits = (choose_digits total).0;
  remainder = (choose_digits total).1;
  num_outputs = count_outputs (choose_digits total).0;
  fm = orchard_only inputs (count_outputs (choose_digits total).0 + 1);
}

module _ (total inputs : ℕ) (few : inputs ≤ 50) (low : min_sd ≤ total)
    (high : total ≤ 10 ^ 16) where
  start-Inv : Inv total inputs few (start total inputs)
  unfolding start
  start-Inv =
      let s = decompose_to_sd_sound (total - min_sd) (omega arith) in
      let counted = count_outputs-eq (decompose_to_sd (total - min_sd)).0 in
      rw (choose_digits_lem total high) (record {
        amount = omega (arith, s.0);
        denominations = s.2;
        counted = counted;
        fees = refl;
        small = omega (arith, counted, s.3);
        reserve = omega arith;
      })

  -- The loop has something to send exactly when the reserve leaves a denomination.
  start_outputs :
      ((start total inputs).num_outputs ≡ 0) × (total < 620000)
      ⊎ (0 < (start total inputs).num_outputs) × (620000 ≤ total)
  unfolding start
  start_outputs =
      let rest = total - min_sd in
      let s = decompose_to_sd_sound rest (omega arith) in
      let counted = count_outputs-eq (decompose_to_sd rest).0 in
      rw (choose_digits_lem total high) (elim (dec_lt rest 120000) [
        | yes small ↦ inl (
          ap (λ (r : Digits × ℕ). count_outputs r.0) (decompose_to_sd_small rest small),
          omega arith,
        )
        | no large ↦ inr (
          omega
              (arith, counted, outputs-pos (decompose_to_sd rest).0 s.2 (omega (arith, s.0, s.1))),
          omega arith,
        )
      ])

-- What `plan_split` makes of the notes `inputs`: below 620,000 zatoshis no plan, and from there on
-- a plan as above.
abbrev pub IsPlanFor : List ℕ → Option SplitPlan → Type 0
IsPlanFor inputs none = sum inputs < 620000
IsPlanFor inputs (some p) = (620000 ≤ sum inputs) × IsSplit inputs p

module _ (inputs : List ℕ) (few : length inputs ≤ 50) where
  to_plan-IsPlanFor :
      (before : ℕ) (s : TrimState)
      → (before ≡ 0) × (sum inputs < 620000) ⊎ (0 < before) × (620000 ≤ sum inputs)
      → Ends (sum inputs) (length inputs) few before s
      → IsPlanFor inputs (to_plan (sum inputs) s)
  to_plan-IsPlanFor before s c e = elim (Bool-cases (ltb 0 s.num_outputs)) [
    | inl sends ↦ rw sends (
      ground arith,
      record {
        total = refl;
        amount = e.0.amount;
        denominations = e.0.denominations;
        some_output = ground (arith, e.0.counted);
        fee_paid = omega (arith, e.1, fee-Inv (sum inputs) (length inputs) few s e.0, e.0.counted);
      },
    )
    | inr nothing ↦ rw nothing (ground arith)
  ]

  -- The body of `plan_split` above the threshold.
  run_plan :
      (low : min_sd ≤ sum inputs) (high : sum inputs ≤ 10 ^ 16)
      → (s : TrimState) × ((do
        fm ← planned_fees (length inputs) (count_outputs (choose_digits (sum inputs)).0)
        s' ← trim (suc (count_outputs (choose_digits (sum inputs)).0)) (record {
          digits = (choose_digits (sum inputs)).0;
          remainder = (choose_digits (sum inputs)).1;
          num_outputs = count_outputs (choose_digits (sum inputs)).0;
          fm = fm;
        })
        some (to_plan (sum inputs) s'))
          ≡ some (to_plan (sum inputs) s))
        × IsPlanFor inputs (to_plan (sum inputs) s)
  unfolding start
  run_plan low high =
      let v = start-Inv (sum inputs) (length inputs) few low high in
      let outs = (start (sum inputs) (length inputs)).num_outputs in
      let (s, loop, ends) =
        trim-Ends (sum inputs) (length inputs) few (suc outs) (start (sum inputs) (length inputs))
          (omega arith) v in
      (
        s,
        rw (planned_fees_lem (length inputs) outs (omega arith) v.small, loop),
        to_plan-IsPlanFor outs s (start_outputs (sum inputs) (length inputs) few low high) ends,
      )

-- Up to a hundred million coins `plan_split` ends with no panic. Below 620,000 zatoshis in the
-- largest fifty notes it makes no plan. From there on it makes one: its outputs and its remainder
-- add up to those notes, every output is a standard denomination, there is one at least, and the
-- remainder pays the fee of the inputs, the outputs and the change.
pub plan_split_sound :
    (values : List ℕ)
    → sum (spent values) ≤ 10 ^ 16
    → (plan : Option SplitPlan) × (plan_split values ≡ some plan) × IsPlanFor (spent values) plan
unfolding plan_split
plan_split_sound values high =
    let wrap : sum (spent values) % 2 ^ 64 ≡ sum (spent values) = omega arith in
    let few : length (spent values) ≤ 50 = omega (arith, length-take 50 (sort_desc values)) in
    elim (Bool-cases (ltb (sum (spent values)) min_sd)) [
      | inl poor ↦ (none, rw (wrap, poor), ground arith)
      | inr rich ↦
          let low : min_sd ≤ sum (spent values) = ground arith in
          let (s, run, found) = run_plan (spent values) few low high in
          (to_plan (sum (spent values)) s, rw (wrap, rich) run, found)
    ]
