-- ===== src/Pay/Solve/Reached.antt =====
-- The states that the search reaches: their sums are those of the notes that they selected.
use zcash_sdk_kmp.Base.{
  ℕ, zero, suc, ◌+◌, ◌≤◌, ◌≡◌, refl, sym, ap, subst, inl, inr, Bool, true, false, some, List, [],
  ◌∷◌, ◌++◌, length, get_elem?, replicate, ◌==◌, if◌then◌else◌, arith, All, Bool-cases,
  length-replicate, wrapping_add, IsSum, wrapping_add-IsSum,
}
use zcash_sdk_kmp.Base.Partial.{◌>>=◌, >>=-eq-some}
use zcash_sdk_kmp.Base.Integers.{◌+ℤ◌, as_i64, wrap_i64}
use zcash_sdk_kmp.Pay.PerPool.{modify}
use zcash_sdk_kmp.Pay.Solve.{Note, State, Context}
use zcash_sdk_kmp.Pay.Solve.Search.{
  modify_at, contains, numbered, initial_state, one_more, add_value, add_orchard_input, apply,
  unselected, remaining_notes,
}
use zcash_sdk_kmp.Pay.Solve.Select.{inputs_of}
use zcash_sdk_kmp.Pay.Solve.Covered.{entry}
use zcash_sdk_kmp.Pay.Solve.Distinct.{Distinct, Distinct-snoc}

-- The value of the notes of an asset.
abbrev pub given : ℕ → List Note → ℕ
given asset [] = 0
given asset (n ∷ ns) = (if n.asset_index == asset then n.amount else 0) + given asset ns

given-append :
    (asset : ℕ) (ns : List Note) (n : Note)
    → given asset (ns ++ n ∷ []) ≡ given asset ns + (if n.asset_index == asset then n.amount else 0)
given-append asset [] n = omega arith
given-append asset (x ∷ xs) n = omega (arith, given-append asset xs n)

inputs_of-append :
    (ctx : Context) (chosen : List ℕ) (i : ℕ) (ns : List Note) (n : Note)
    → inputs_of ctx chosen ≡ some ns
    → get_elem? ctx.notes i ≡ some n
    → inputs_of ctx (chosen ++ i ∷ []) ≡ some (ns ++ n ∷ [])
unfolding inputs_of
inputs_of-append ctx [] i ns n e h = rw h (ground arith)
inputs_of-append ctx (j ∷ js) i ns n e h =
    let (m, at_j, e') = >>=-eq-some (get_elem? ctx.notes j) _ e in
    let (ms, later, e'') = >>=-eq-some (inputs_of ctx js) _ e' in
    rw (at_j, inputs_of-append ctx js i ms n later h) (ground arith)

pub modify_at-entry :
    (c k : ℕ) (xs ys : List ℕ)
    → modify_at (λ s. wrapping_add s c) xs k ≡ some ys
    → (length ys ≡ length xs)
      × ((i : ℕ) → IsSum (entry ys i) (entry xs i + (if k == i then c else 0)))
modify_at-entry c k [] ys e = ground arith
modify_at-entry c zero (x ∷ xs) ys e =
    let whole : (wrapping_add x c ∷ xs) ≡ ys = cc in
    subst
      (λ (ys : List ℕ).
        (length ys ≡ length (x ∷ xs))
        × ((i : ℕ) → IsSum (entry ys i) (entry (x ∷ xs) i + (if zero == i then c else 0))))
      whole (refl, λ i. at i)
  where
    at :
        (i : ℕ)
        → IsSum (entry (wrapping_add x c ∷ xs) i) (entry (x ∷ xs) i + (if zero == i then c else 0))
    at zero = wrapping_add-IsSum x c
    at (suc j) = (ground arith, λ h. ground arith)
modify_at-entry c (suc k) (x ∷ xs) ys e =
    let (zs, later, e') = >>=-eq-some (modify_at (λ s. wrapping_add s c) xs k) _ e in
    let whole : (x ∷ zs) ≡ ys = cc in
    let (size, step) = modify_at-entry c k xs zs later in
    subst
      (λ (ys : List ℕ).
        (length ys ≡ length (x ∷ xs))
        × ((i : ℕ) → IsSum (entry ys i) (entry (x ∷ xs) i + (if suc k == i then c else 0))))
      whole (omega (arith, size), λ i. at zs step i)
  where
    at :
        (zs : List ℕ)
        → ((i : ℕ) → IsSum (entry zs i) (entry xs i + (if k == i then c else 0)))
        → (i : ℕ) → IsSum (entry (x ∷ zs) i) (entry (x ∷ xs) i + (if suc k == i then c else 0))
    at zs step zero = (ground arith, λ h. ground arith)
    at zs step (suc j) = let same : (suc k == suc j) ≡ (k == j) = ground arith in rw same (step j)

module _ (ctx : Context) where
  pub record Reached (st : State) : Type 0 where
    pub notes : List Note
    pub picked : inputs_of ctx st.selected ≡ some notes
    pub sums : (asset : ℕ) → entry st.asset_sums asset ≤ given asset notes
    pub size : length st.asset_sums ≡ ctx.n_assets
    pub distinct : Distinct st.selected

  -- A note beside its index.
  abbrev pub IsNote : ℕ × Note → Type 0
  IsNote n = get_elem? ctx.notes n.0 ≡ some n.1

  entry-replicate : (n i : ℕ) → entry (replicate n 0) i ≡ 0
  entry-replicate zero i = refl
  entry-replicate (suc n) zero = refl
  entry-replicate (suc n) (suc i) = entry-replicate n i

  pub initial_state-Reached : Reached (initial_state ctx)
  unfolding initial_state inputs_of
  initial_state-Reached = record {
    notes = [];
    picked = refl;
    sums = λ asset. omega (arith, entry-replicate ctx.n_assets asset);
    size = length-replicate ctx.n_assets 0;
    distinct = tt;
  }

  -- The value that is added changes neither the sums nor the selection.
  add_value-same :
      (n : Note) (st st' : State)
      → add_value n st ≡ some st'
      → (st'.selected ≡ st.selected) × (st'.asset_sums ≡ st.asset_sums)
  add_value-same n st st' e = by_test (n.pool == 0) e
    where
      by_test :
          (b : Bool)
          → (if b
              then some (record st { tin = wrapping_add st.tin n.amount })
              else (modify (λ b. wrap_i64 (b +ℤ as_i64 n.amount)) st.balance n.pool
                  >>= (λ balance. some (record st { balance = balance }))))
            ≡ some st'
          → (st'.selected ≡ st.selected) × (st'.asset_sums ≡ st.asset_sums)
      by_test true e =
          let whole : record st { tin = wrapping_add st.tin n.amount } ≡ st' = cc in
          (ap (λ (s : State). s.selected) (sym whole), ap (λ (s : State). s.asset_sums) (sym whole))
      by_test false e =
          let (balance, e1, e') =
            >>=-eq-some (modify (λ b. wrap_i64 (b +ℤ as_i64 n.amount)) st.balance n.pool) _ e in
          let whole : record st { balance = balance } ≡ st' = cc in
          (ap (λ (s : State). s.selected) (sym whole), ap (λ (s : State). s.asset_sums) (sym whole))

  pub apply-Reached :
      (st : State) (n : ℕ × Note) (st' : State)
      → Reached st
      → IsNote n
      → contains n.0 st.selected ≡ false
      → apply st n.0 n.1 ≡ some st'
      → Reached st' × (st'.selected ≡ st.selected ++ n.0 ∷ [])
  unfolding apply
  apply-Reached st n st' v h fresh e =
      let (sums, e1, e') =
        >>=-eq-some (modify_at (λ s. wrapping_add s n.1.amount) st.asset_sums n.1.asset_index) _
          e in
      let (inputs, e2, e'') = >>=-eq-some (modify one_more st.n_inputs n.1.pool) _ e' in
      let (orchard, e3, e''') = >>=-eq-some (add_orchard_input n.1 st.orchard_asset_inputs) _ e'' in
      let same = add_value-same n.1 _ st' e''' in
      let grown = modify_at-entry n.1.amount n.1.asset_index st.asset_sums sums e1 in
      (
        record {
          notes = v.notes ++ n.1 ∷ [];
          picked = rw same.0 (inputs_of-append ctx st.selected n.0 v.notes n.1 v.picked h);
          sums = λ asset.
              rw same.1
                (omega (arith, given-append asset v.notes n.1, grown.1 asset, v.sums asset));
          size = rw same.1 (omega (arith, grown.0, v.size));
          distinct = rw same.0 (Distinct-snoc n.0 st.selected v.distinct fresh);
        },
        same.0,
      )

  -- The lists that the search draws its notes from hold only notes beside their indices.
  numbered-IsNote :
      (k : ℕ) (ns : List Note)
      → ((i : ℕ) → get_elem? ctx.notes (k + i) ≡ get_elem? ns i)
      → All IsNote (numbered k ns)
  numbered-IsNote k [] h = tt
  numbered-IsNote k (n ∷ ns) h = (
    subst (λ i. get_elem? ctx.notes i ≡ some n) (omega arith) (h 0),
    numbered-IsNote (k + 1) ns
        (λ i. subst (λ j. get_elem? ctx.notes j ≡ get_elem? ns i) (omega arith) (h (suc i))),
  )

  pub notes-IsNote : All IsNote (numbered 0 ctx.notes)
  notes-IsNote =
      numbered-IsNote 0 ctx.notes
        (λ i. subst (λ j. get_elem? ctx.notes j ≡ get_elem? ctx.notes i) (omega arith) refl)

  -- A note beside its index, which is not selected.
  abbrev pub IsCandidate : List ℕ → ℕ × Note → Type 0
  IsCandidate selected n = IsNote n × (contains n.0 selected ≡ false)

  unselected-IsCandidate :
      (chosen : List ℕ) (ns : List (ℕ × Note))
      → All IsNote ns
      → All (IsCandidate chosen) (unselected chosen ns)
  unselected-IsCandidate chosen [] v = tt
  unselected-IsCandidate chosen (n ∷ ns) v = elim (Bool-cases (contains n.0 chosen)) [
    | inl old ↦ rw old (unselected-IsCandidate chosen ns v.1)
    | inr new ↦ rw new ((v.0, new), unselected-IsCandidate chosen ns v.1)
  ]

  pub remaining_notes-IsCandidate :
      (st : State) → All (IsCandidate st.selected) (remaining_notes ctx st)
  unfolding remaining_notes
  remaining_notes-IsCandidate st =
      unselected-IsCandidate st.selected (numbered 0 ctx.notes) notes-IsNote
