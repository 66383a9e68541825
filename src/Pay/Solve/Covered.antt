-- ===== src/Pay/Solve/Covered.antt =====
-- A state that is chosen covers its outputs and its fee.
use zcash_sdk_kmp.Base.{
  ℕ, zero, suc, ◌-◌, ◌≤◌, ◌≡◌, refl, ◌⊎◌, inl, inr, true, false, not, ◌&&◌, List, [], ◌∷◌, length,
  ltb, ◌==◌, if◌then◌else◌, u64_max, arith, Bool-cases,
}
use zcash_sdk_kmp.Pay.Solve.{
  State, Context, Best, zec_of, zsa_of, zec_needed, covers, is_feasible, fee_for_change_pool,
  turnstile_of, try_pool, is_better_solution, evaluate_privacy, evaluate,
}

-- `xs[i]`, of a vector that is nothing beyond its end.
abbrev pub entry : List ℕ → ℕ → ℕ
entry [] i = 0
entry (x ∷ xs) zero = x
entry (x ∷ xs) (suc i) = entry xs i

covers-entry :
    (sums amounts : List ℕ)
    → length sums ≡ length amounts
    → covers sums amounts ≡ true
    → (i : ℕ) → entry amounts i ≤ entry sums i
covers-entry [] [] l h i = omega arith
covers-entry [] (a ∷ more) l h i = ground arith
covers-entry (s ∷ ss) [] l h i = ground arith
covers-entry (s ∷ ss) (a ∷ more) l h zero = ground arith
covers-entry (s ∷ ss) (a ∷ more) l h (suc i) = elim (Bool-cases (ltb s a)) [
  | inl less ↦ ground arith
  | inr enough ↦ covers-entry ss more (omega arith) (ground arith) i
]

module _ (ctx : Context) where
  -- A pool whose fee the state can pay, beside the outputs.
  pub record IsPayable (st : State) (pool : ℕ) : Type 0 where
    pub feasible : is_feasible st ctx (fee_for_change_pool st ctx pool) ≡ true
    pub recipient :
        ctx.recipient_pays_fee ≡ true → fee_for_change_pool st ctx pool ≤ ctx.first_recipient_amount

  abbrev pub IsBest : State → Best → Type 0
  IsBest st b = (b.turnstile ≡ u64_max) ⊎ IsPayable st b.pool

  try_pool-IsBest :
      (st : State) (cp : ℕ) (b : Best) → IsBest st b → IsBest st (try_pool st ctx cp b)
  unfolding try_pool
  try_pool-IsBest st cp b v =
      elim (Bool-cases (
        ctx.recipient_pays_fee && ltb ctx.first_recipient_amount (fee_for_change_pool st ctx cp))) [
          | inl dear ↦ rw dear v
          | inr cheap ↦
              rw cheap
                (elim (Bool-cases (not (is_feasible st ctx (fee_for_change_pool st ctx cp)))) [
                  | inl short ↦ rw short v
                  | inr enough ↦
                      rw enough
                        (elim (Bool-cases (
                          is_better_solution
                            (turnstile_of st cp (
                              zec_of st.asset_sums
                              - zec_needed ctx (fee_for_change_pool st ctx cp)))
                            (fee_for_change_pool st ctx cp) b.turnstile b.fee)) [
                              | inl better ↦ rw better (
                                  inr (record {
                                    feasible = ground arith;
                                    recipient = λ pays. ground arith;
                                  }))
                              | inr worse ↦ rw worse v
                            ])
                ])
        ]

  IsBest-IsPayable :
      (st : State) (b : Best) → IsBest st b → (b.turnstile == u64_max) ≡ false → IsPayable st b.pool
  IsBest-IsPayable st b (inl none_found) h = ground arith
  IsBest-IsPayable st b (inr payable) h = payable

  -- The pool that is chosen at a cost that is not the largest number is payable.
  pub evaluate-IsPayable :
      (st : State) → ((evaluate st ctx).0 == u64_max) ≡ false → IsPayable st (evaluate st ctx).1
  unfolding evaluate evaluate_privacy
  evaluate-IsPayable st h =
      let start : Best = record { turnstile = u64_max; fee = u64_max; pool = 0 } in
      let first =
        try_pool-IsBest st 1 (try_pool st ctx 0 start) (try_pool-IsBest st 0 start (inl refl)) in
      let second = try_pool-IsBest st 2 (try_pool st ctx 1 (try_pool st ctx 0 start)) first in
      let third =
        try_pool-IsBest st 3 (try_pool st ctx 2 (try_pool st ctx 1 (try_pool st ctx 0 start)))
          second in
      IsBest-IsPayable st
        (try_pool st ctx 3 (try_pool st ctx 2 (try_pool st ctx 1 (try_pool st ctx 0 start)))) third
        h

  -- The sums reach the amounts of each asset, and of ZEC the fee too.
  pub is_feasible-entry :
      (st : State) (fee : ℕ)
      → length st.asset_sums ≡ length ctx.asset_output_amounts
      → is_feasible st ctx fee ≡ true
      → (zec_needed ctx fee ≤ entry st.asset_sums 0)
        × ((i : ℕ) → entry ctx.asset_output_amounts (suc i) ≤ entry st.asset_sums (suc i))
  unfolding is_feasible
  is_feasible-entry st fee l h = by_lists st.asset_sums ctx.asset_output_amounts l h
    where
      by_lists :
          (sums amounts : List ℕ)
          → length sums ≡ length amounts
          → (if ltb (zec_of sums) (zec_needed ctx fee)
              then false
              else covers (zsa_of sums) (zsa_of amounts))
            ≡ true
          → (zec_needed ctx fee ≤ entry sums 0)
            × ((i : ℕ) → entry amounts (suc i) ≤ entry sums (suc i))
      by_lists [] [] l h = (ground arith, λ i. omega arith)
      by_lists [] (a ∷ more) l h = ground arith
      by_lists (s ∷ ss) [] l h = ground arith
      by_lists (s ∷ ss) (a ∷ more) l h = elim (Bool-cases (ltb s (zec_needed ctx fee))) [
        | inl less ↦ ground arith
        | inr enough ↦ (ground arith, covers-entry ss more (omega arith) (ground arith))
      ]
