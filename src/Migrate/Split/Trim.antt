-- ===== src/Migrate/Split/Trim.antt =====
-- The trimming loop of `plan_split`: it ends within its rounds, keeps the amount, and stops at a
-- remainder that pays the fee or with nothing to send.
use zcash_sdk_kmp.Base.{
  ℕ, zero, suc, ◌+◌, ◌-◌, ◌*◌, ◌≤◌, ◌<◌, ◌%◌, max, ◌≡◌, refl, ap, ◌∙◌, ◌||◌, some, [], ◌∷◌, arith,
  All, leb, ◌==◌, Bool-cases, inl, inr, ◌⊎◌,
}
use zcash_sdk_kmp.Base.Partial.{◌>>=◌}
use zcash_sdk_kmp.Pay.Fee.{FeeManager, fee, remove_output}
use zcash_sdk_kmp.Migrate.{Digits}
use zcash_sdk_kmp.Migrate.Decompose.{value, outputs, IsSdDigit}
use zcash_sdk_kmp.Migrate.Split.{TrimState, take_last, trim_round, trim}
use zcash_sdk_kmp.Migrate.Split.Counts.{orchard_only, remove_output_once, fee-orchard_only}

-- What one removal does to the list.
abbrev Removes : Digits → ℕ × Digits → Type 0
Removes ds (denom, ds') =
    (value ds ≡ value ds' + denom) × (outputs ds ≡ outputs ds' + 1) × All IsSdDigit ds'

take_last_one :
    (d c : ℕ)
    → IsSdDigit (d, c)
    → (r : ℕ × Digits) × (take_last ((d, c) ∷ []) ≡ some r) × Removes ((d, c) ∷ []) r
unfolding take_last
take_last_one d zero h = absurd (omega (arith, h.1))
take_last_one d (suc zero) h = ((d, []), refl, (omega arith, omega arith, tt))
take_last_one d (suc (suc k)) h =
    let e : (suc (suc k) + 255) % 256 ≡ suc k = omega arith in
    let small : suc k < 256 = omega arith in
    (
      (d, (d, suc k) ∷ []),
      rw (e, take_last) (ground arith),
      (omega arith, omega arith, ((h.0, omega arith, small), tt)),
    )

take_last_lem :
    (ds : Digits)
    → All IsSdDigit ds
    → 0 < outputs ds
    → (r : ℕ × Digits) × (take_last ds ≡ some r) × Removes ds r
unfolding take_last
take_last_lem [] h pos = absurd (omega arith)
take_last_lem (e ∷ []) h pos = take_last_one e.0 e.1 h.0
take_last_lem (e ∷ n ∷ rest) h pos =
    let (r, eq, removes) = take_last_lem (n ∷ rest) h.1 (omega (arith, h.1.0)) in
    (
      (r.0, e ∷ r.1),
      ap (λ m. m >>= λ (x : ℕ × Digits). some (x.0, e ∷ x.1)) eq,
      (omega (arith, removes.0), omega (arith, removes.1), (h.0, removes.2)),
    )

abbrev trimmed : TrimState → ℕ × Digits → FeeManager → TrimState
trimmed s r fm' = record {
  digits = r.1;
  remainder = s.remainder + r.0;
  num_outputs = s.num_outputs - 1;
  fm = fm';
}

trim_round_found :
    (s : TrimState) (r : ℕ × Digits) (fm' : FeeManager)
    → take_last s.digits ≡ some r
    → remove_output s.fm 2 ≡ some fm'
    → trim_round s ≡ some (trimmed s r fm')
unfolding trim_round
trim_round_found s r fm' found removed = rw (found, trim_round, removed)

-- The loop over a plan of `total` with at most fifty inputs.
module _ (total inputs : ℕ) (few : inputs ≤ 50) where
  pub record Inv (s : TrimState) : Type 0 where
    pub amount : value s.digits + s.remainder ≡ total
    pub denominations : All IsSdDigit s.digits
    pub counted : s.num_outputs ≡ outputs s.digits
    pub fees : s.fm ≡ orchard_only inputs (s.num_outputs + 1)
    pub small : s.num_outputs < 255
    pub reserve : 500000 ≤ s.remainder

  next_count : (n : ℕ) → suc n + 1 ≡ n + 1 + 1
  next_count n = omega arith

  trim_round_lem :
      (s : TrimState) (n : ℕ)
      → s.num_outputs ≡ suc n
      → Inv s
      → (s' : TrimState) × (trim_round s ≡ some s') × (s'.num_outputs ≡ n) × Inv s'
  unfolding trim_round
  trim_round_lem s n e v =
      let (r, found, removes) =
        take_last_lem s.digits v.denominations (omega (arith, v.counted, e)) in
      let removed : remove_output s.fm 2 ≡ some (orchard_only inputs (n + 1)) =
        rw (v.fees, e, next_count n)
          (remove_output_once inputs (n + 1) (omega (arith, v.small, e))) in
      let counted : s.num_outputs - 1 ≡ n = omega (arith, e) in
      (
        trimmed s r (orchard_only inputs (n + 1)),
        trim_round_found s r _ found removed,
        omega (arith, e),
        record {
          amount = omega (arith, v.amount, removes.0);
          denominations = removes.2;
          counted = omega (arith, v.counted, removes.1);
          fees = rw counted refl;
          small = omega (arith, v.small);
          reserve = omega (arith, v.reserve);
        },
      )

  -- How the loop ends: the remainder pays the fee, and something is left to send if there was.
  abbrev pub Ends : ℕ → TrimState → Type 0
  Ends before s =
      Inv s
      × (fee s.fm ≤ s.remainder)
      × (s.num_outputs ≤ before)
      × ((before ≡ 0) ⊎ (0 < s.num_outputs))

  pub fee-Inv : (s : TrimState) → Inv s → fee s.fm ≡ max (inputs + (s.num_outputs + 1)) 2 * 5000
  fee-Inv s v = ap fee v.fees ∙ fee-orchard_only inputs (s.num_outputs + 1) (omega arith)

  -- With a round for each output and one more the loop ends.
  pub trim-Ends :
      (f : ℕ) (s : TrimState)
      → s.num_outputs < f
      → Inv s
      → (s' : TrimState) × (trim f s ≡ some s') × Ends s.num_outputs s'
  unfolding trim
  trim-Ends zero s h v = absurd (omega arith)
  trim-Ends (suc f) s h v = elim (Bool-cases (leb (fee s.fm) s.remainder || s.num_outputs == 0)) [
    | inl stop ↦
        (s, rw stop, (v, ground (arith, fee-Inv s v, v.reserve, few), omega arith, ground arith))
    | inr more ↦
        let positive : s.num_outputs ≡ suc (s.num_outputs - 1) = ground arith in
        let several : 1 < s.num_outputs = ground (arith, fee-Inv s v, v.reserve, few) in
        let (s', round, count, v') = trim_round_lem s (s.num_outputs - 1) positive v in
        let (end, rest, ends) = trim-Ends f s' (omega (arith, count, h, positive)) v' in
        (
          end,
          rw (more, round) rest,
          (
            ends.0,
            ends.1,
            omega (arith, ends.2, count, positive),
            inr (omega (arith, ends.3, count, several)),
          ),
        )
  ]
