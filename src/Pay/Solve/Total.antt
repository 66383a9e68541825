-- ===== src/Pay/Solve/Total.antt =====
-- With pools and assets in range no index panics, and the fuel of the search is enough.
use zcash_sdk_kmp.Base.{
  ℕ, zero, suc, ◌+◌, ◌<◌, ◌≡◌, refl, ◌∙◌, subst, inl, inr, Option, some, none, List, [], ◌∷◌,
  length, leb, ◌==◌, arith, All, Bool-cases, length-replicate, wrapping_add,
}
use zcash_sdk_kmp.Base.Partial.{◌>>=◌}
use zcash_sdk_kmp.Base.Integers.{◌+ℤ◌, as_i64, wrap_i64}
use zcash_sdk_kmp.Pay.PerPool.{PerPool, filled, at, modify}
use zcash_sdk_kmp.Pay.Solve.{Note, State, Context}
use zcash_sdk_kmp.Pay.Solve.Search.{
  modify_at, numbered, initial_state, one_more, add_value, add_orchard_input, apply, contains,
  unselected, remaining_notes, remaining_by_pool, lower_bound, local_score, scores,
  top_k_by_local_heuristic,
}

-- The function gives something, which is in P.
abbrev pub Ok {ℓ} : {A : Type ℓ} → (A → Type 0) → Option A → Type 0
Ok P none = ⊥
Ok P (some a) = P a

pub Ok-bind {ℓ κ} :
    {A : Type ℓ} {B : Type κ} (P : A → Type 0) (Q : B → Type 0) (m : Option A) (f : A → Option B)
    → Ok P m
    → ((a : A) → P a → Ok Q (f a))
    → Ok Q (m >>= f)
Ok-bind P Q none f v h = absurd v
Ok-bind P Q (some a) f v h = h a v

pub modify_at-Ok :
    (f : ℕ → ℕ) (xs : List ℕ) (i : ℕ)
    → i < length xs
    → Ok (λ ys. length ys ≡ length xs) (modify_at f xs i)
modify_at-Ok f [] i h = ground arith
modify_at-Ok f (x ∷ xs) zero h = refl
modify_at-Ok f (x ∷ xs) (suc i) h =
    Ok-bind (λ ys. length ys ≡ length xs) (λ ys. length ys ≡ length (x ∷ xs)) (modify_at f xs i) _
      (modify_at-Ok f xs i (omega arith)) (λ ys e. omega (arith, e))

pub modify-Ok {ℓ} :
    {A : Type ℓ} (f : A → A) (a : PerPool A) (pool : ℕ)
    → pool < 4
    → Ok (λ _. Unit {0}) (modify f a pool)
modify-Ok f a zero h = tt
modify-Ok f a (suc zero) h = tt
modify-Ok f a (suc (suc zero)) h = tt
modify-Ok f a (suc (suc (suc zero))) h = tt
modify-Ok f a (suc (suc (suc (suc n)))) h = ground arith

at-Ok {ℓ} : {A : Type ℓ} (a : PerPool A) (pool : ℕ) → pool < 4 → Ok (λ _. Unit {0}) (at a pool)
at-Ok a zero h = tt
at-Ok a (suc zero) h = tt
at-Ok a (suc (suc zero)) h = tt
at-Ok a (suc (suc (suc zero))) h = tt
at-Ok a (suc (suc (suc (suc n)))) h = ground arith

module _ (ctx : Context) where
  abbrev pub InRange : Note → Type 0
  InRange n = (n.pool < 4) × (n.asset_index < ctx.n_assets)

  abbrev pub AreInRange : List (ℕ × Note) → Type 0
  AreInRange ns = All (λ n. InRange n.1) ns

  -- The vectors have an entry for each asset.
  abbrev pub IsSized : State → Type 0
  IsSized st =
      (length st.asset_sums ≡ ctx.n_assets) × (length st.orchard_asset_inputs ≡ ctx.n_assets)

  add_value-Ok : (n : Note) (st : State) → InRange n → IsSized st → Ok IsSized (add_value n st)
  add_value-Ok n st r s = elim (Bool-cases (n.pool == 0)) [
    | inl here ↦ rw here s
    | inr there ↦ rw there (
        Ok-bind (λ _. Unit {0}) IsSized
          (modify (λ b. wrap_i64 (b +ℤ as_i64 n.amount)) st.balance n.pool)
          (λ balance. some (record st { balance = balance }))
          (modify-Ok (λ b. wrap_i64 (b +ℤ as_i64 n.amount)) st.balance n.pool r.0) (λ balance _. s))
  ]

  add_orchard_input-Ok :
      (n : Note) (inputs : List ℕ)
      → InRange n
      → length inputs ≡ ctx.n_assets
      → Ok (λ ys. length ys ≡ ctx.n_assets) (add_orchard_input n inputs)
  add_orchard_input-Ok n inputs r s = elim (Bool-cases (n.pool == 2)) [
    | inl here ↦ rw here (
        subst (λ k. Ok (λ ys. length ys ≡ k) (modify_at one_more inputs n.asset_index)) s
          (modify_at-Ok one_more inputs n.asset_index (omega (arith, r.1, s))))
    | inr there ↦ rw there s
  ]

  pub apply-Ok :
      (st : State) (i : ℕ) (n : Note) → InRange n → IsSized st → Ok IsSized (apply st i n)
  unfolding apply
  apply-Ok st i n r s =
      Ok-bind (λ ys. length ys ≡ length st.asset_sums) IsSized
        (modify_at (λ s. wrapping_add s n.amount) st.asset_sums n.asset_index) _
        (modify_at-Ok (λ s. wrapping_add s n.amount) st.asset_sums n.asset_index
          (omega (arith, r.1, s.0)))
        (λ sums e.
          Ok-bind (λ _. Unit {0}) IsSized (modify one_more st.n_inputs n.pool) _
            (modify-Ok one_more st.n_inputs n.pool r.0)
            (λ inputs _.
              Ok-bind (λ ys. length ys ≡ ctx.n_assets) IsSized
                (add_orchard_input n st.orchard_asset_inputs) _
                (add_orchard_input-Ok n st.orchard_asset_inputs r s.1)
                (λ orchard e'. add_value-Ok n _ r (e ∙ s.0, e'))))

  pub initial_state-IsSized : IsSized (initial_state ctx)
  unfolding initial_state
  initial_state-IsSized = (length-replicate ctx.n_assets 0, length-replicate ctx.n_assets 0)

  unselected-AreInRange :
      (chosen : List ℕ) (ns : List (ℕ × Note)) → AreInRange ns → AreInRange (unselected chosen ns)
  unselected-AreInRange chosen [] v = tt
  unselected-AreInRange chosen (n ∷ ns) v = elim (Bool-cases (contains n.0 chosen)) [
    | inl old ↦ rw old (unselected-AreInRange chosen ns v.1)
    | inr new ↦ rw new (v.0, unselected-AreInRange chosen ns v.1)
  ]

  pub numbered-AreInRange : (k : ℕ) (ns : List Note) → All InRange ns → AreInRange (numbered k ns)
  numbered-AreInRange k [] v = tt
  numbered-AreInRange k (n ∷ ns) v = (v.0, numbered-AreInRange (k + 1) ns v.1)

  remaining_by_pool-Ok :
      (ns : List (ℕ × Note)) (values : PerPool ℕ)
      → AreInRange ns
      → Ok (λ _. Unit {0}) (remaining_by_pool ns values)
  remaining_by_pool-Ok [] values v = tt
  remaining_by_pool-Ok (n ∷ ns) values v =
      Ok-bind (λ _. Unit {0}) (λ _. Unit {0})
        (modify (λ v. wrapping_add v n.1.amount) values n.1.pool) (remaining_by_pool ns)
        (modify-Ok (λ v. wrapping_add v n.1.amount) values n.1.pool v.0.0)
        (λ values' _. remaining_by_pool-Ok ns values' v.1)

  scores-Ok :
      (st : State) (ns : List (ℕ × Note)) → AreInRange ns → Ok (λ _. Unit {0}) (scores st ns)
  unfolding local_score
  scores-Ok st [] v = tt
  scores-Ok st (n ∷ ns) v =
      Ok-bind (λ _. Unit {0}) (λ _. Unit {0}) (local_score n.1 st) _
        (Ok-bind (λ _. Unit {0}) (λ _. Unit {0}) (at st.balance n.1.pool) _
          (at-Ok st.balance n.1.pool v.0.0) (λ bal _. tt))
        (λ score _.
          Ok-bind (λ _. Unit {0}) (λ _. Unit {0}) (scores st ns) _ (scores-Ok st ns v.1)
            (λ later _. tt))

  module _ (range : All InRange ctx.notes) where
    pub remaining_notes-AreInRange : (st : State) → AreInRange (remaining_notes ctx st)
    unfolding remaining_notes
    remaining_notes-AreInRange st =
        unselected-AreInRange st.selected (numbered 0 ctx.notes)
          (numbered-AreInRange 0 ctx.notes range)

    pub lower_bound-Ok : (st : State) → Ok (λ _. Unit {0}) (lower_bound st ctx)
    unfolding lower_bound
    lower_bound-Ok st =
        Ok-bind (λ _. Unit {0}) (λ _. Unit {0})
          (remaining_by_pool (remaining_notes ctx st) (filled 0)) _
          (remaining_by_pool-Ok (remaining_notes ctx st) (filled 0) (remaining_notes-AreInRange st))
          (λ values _. tt)

    pub top_k-Ok :
        (st : State) (k : ℕ)
        → Ok (λ _. Unit {0}) (top_k_by_local_heuristic (remaining_notes ctx st) st k)
    unfolding top_k_by_local_heuristic
    top_k-Ok st k = elim (Bool-cases (leb (length (remaining_notes ctx st)) k)) [
      | inl few ↦ rw few tt
      | inr many ↦ rw many (
          Ok-bind (λ _. Unit {0}) (λ _. Unit {0}) (scores st (remaining_notes ctx st)) _
            (scores-Ok st (remaining_notes ctx st) (remaining_notes-AreInRange st))
            (λ scored _. tt))
    ]
