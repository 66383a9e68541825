-- ===== src/Pay/Solve/Search.antt =====
-- rust/rlz/src/pay/solve.rs: the state transitions, the lower bound, and the order and the keys of
-- the states. An index out of range panics, and is `none`.
use zcash_sdk_kmp.Base.{
  list_eq, ℕ, zero, suc, ◌+◌, ◌-◌, Bool, true, false, ◌&&◌, ◌||◌, Option, some, none, List, [], ◌∷◌,
  ◌++◌, map, length, take, replicate, leb, ◌==◌, if◌then◌else◌, saturating_add, wrapping_add,
  u32_max,
}
use zcash_sdk_kmp.Base.Partial.{◌>>=◌}
use zcash_sdk_kmp.Base.Integers.{
  ℤ, ◌+ℤ◌, negate, as_i64, wrap_i64, divided, unsigned_abs, rounded, lt_int, int_eq,
}
use zcash_sdk_kmp.Pay.PerPool.{PerPool, filled, at, modify}
use zcash_sdk_kmp.Pay.Solve.{Note, State, Context}

-- `xs[i] = f(xs[i])`
abbrev pub modify_at : {A : Type 0} → (A → A) → List A → ℕ → Option (List A)
modify_at f [] i = none
modify_at f (x ∷ xs) zero = some (f x ∷ xs)
modify_at f (x ∷ xs) (suc i) = do ys ← modify_at f xs i; some (x ∷ ys)

abbrev pub contains : ℕ → List ℕ → Bool
contains i [] = false
contains i (x ∷ xs) = i == x || contains i xs

abbrev pub numbered : {A : Type 0} → ℕ → List A → List (ℕ × A)
numbered i [] = []
numbered i (x ∷ xs) = (i, x) ∷ numbered (i + 1) xs

-- A stable sort, by what stands strictly before what.
abbrev pub insert_by : {A : Type 0} → (A → A → Bool) → A → List A → List A
insert_by before x [] = x ∷ []
insert_by before x (y ∷ ys) = if before y x then y ∷ insert_by before x ys else x ∷ y ∷ ys

abbrev pub sort_by : {A : Type 0} → (A → A → Bool) → List A → List A
sort_by before [] = []
sort_by before (x ∷ xs) = insert_by before x (sort_by before xs)

-- `-(amount as i64)`
abbrev pub owed : ℕ → ℤ
owed amount = wrap_i64 (negate (as_i64 amount))

unfoldable pub initial_state : Context → State
initial_state ctx = record {
  asset_sums = replicate ctx.n_assets 0;
  balance = record {
    transparent = owed ctx.output_amounts.transparent;
    sapling = owed ctx.output_amounts.sapling;
    orchard = owed ctx.output_amounts.orchard;
    ironwood = owed ctx.output_amounts.ironwood;
  };
  n_inputs = filled 0;
  orchard_asset_inputs = replicate ctx.n_assets 0;
  tin = 0;
  tout = ctx.output_amounts.transparent;
  selected = [];
}

abbrev pub one_more : ℕ → ℕ
one_more n = saturating_add u32_max n 1

-- The transparent input value, or the balance of a shielded pool.
abbrev pub add_value : Note → State → Option State
add_value note st =
    if note.pool == 0 then some (record st { tin = wrapping_add st.tin note.amount }) else do
      balance ← modify (λ b. wrap_i64 (b +ℤ as_i64 note.amount)) st.balance note.pool
      some (record st { balance = balance })

abbrev pub add_orchard_input : Note → List ℕ → Option (List ℕ)
add_orchard_input note inputs =
    if note.pool == 2 then modify_at one_more inputs note.asset_index else some inputs

unfoldable pub apply : State → ℕ → Note → Option State
apply st note_idx note = do
  asset_sums ← modify_at (λ s. wrapping_add s note.amount) st.asset_sums note.asset_index
  n_inputs ← modify one_more st.n_inputs note.pool
  orchard_asset_inputs ← add_orchard_input note st.orchard_asset_inputs
  add_value note (record st {
    selected = st.selected ++ note_idx ∷ [];
    asset_sums = asset_sums;
    n_inputs = n_inputs;
    orchard_asset_inputs = orchard_asset_inputs;
  })

abbrev pub unselected : List ℕ → List (ℕ × Note) → List (ℕ × Note)
unselected chosen [] = []
unselected chosen (n ∷ ns) =
    if contains n.0 chosen then unselected chosen ns else n ∷ unselected chosen ns

unfoldable pub remaining_notes : Context → State → List (ℕ × Note)
remaining_notes ctx st = unselected st.selected (numbered 0 ctx.notes)

-- The value that remains in each pool, added to what was counted.
abbrev pub remaining_by_pool : List (ℕ × Note) → PerPool ℕ → Option (PerPool ℕ)
remaining_by_pool [] values = some values
remaining_by_pool (n ∷ ns) values = do
  values' ← modify (λ v. wrapping_add v n.1.amount) values n.1.pool
  remaining_by_pool ns values'

unfoldable pub lower_bound : State → Context → Option ℕ
lower_bound st ctx = do
  remaining ← remaining_by_pool (remaining_notes ctx st) (filled 0)
  some (
      wrapping_add
        (wrapping_add
          (wrapping_add (wrapping_add st.tin st.tout)
            (unsigned_abs st.balance.sapling - remaining.sapling))
          (unsigned_abs st.balance.orchard - remaining.orchard))
        (unsigned_abs st.balance.ironwood - remaining.ironwood))

unfoldable pub local_score : Note → State → Option ℤ
local_score note st = do
  bal ← at st.balance note.pool
  let old_abs = as_i64 (unsigned_abs bal)
  let new_abs = as_i64 (unsigned_abs (wrap_i64 (bal +ℤ as_i64 note.amount)))
  let reduction = wrap_i64 (old_abs +ℤ negate new_abs)
  some (wrap_i64 (reduction +ℤ negate (divided (as_i64 note.amount) 1000)))

abbrev pub scores : State → List (ℕ × Note) → Option (List (ℤ × (ℕ × Note)))
scores st [] = some []
scores st (n ∷ ns) = do score ← local_score n.1 st; later ← scores st ns; some ((score, n) ∷ later)

abbrev pub by_score : ℤ × (ℕ × Note) → ℤ × (ℕ × Note) → Bool
by_score a b = lt_int b.0 a.0

unfoldable pub top_k_by_local_heuristic : List (ℕ × Note) → State → ℕ → Option (List (ℕ × Note))
top_k_by_local_heuristic remaining st k = if leb (length remaining) k then some remaining else do
  scored ← scores st remaining
  some (take k (map (λ (s : ℤ × (ℕ × Note)). s.1) (sort_by by_score scored)))

-- What `state_key` makes of a state.
pub record StateKey : Type 0 where
  pub asset_sums : List ℤ
  pub balance : PerPool ℤ
  pub tout : ℕ
  pub n_inputs : PerPool ℕ
  pub orchard_asset_inputs : List ℕ

abbrev pub quant : ℕ
quant = 1000

unfoldable pub state_key : State → StateKey
state_key st = record {
  asset_sums = map (λ s. rounded quant (as_i64 s)) st.asset_sums;
  balance = record {
    transparent = rounded quant st.balance.transparent;
    sapling = rounded quant st.balance.sapling;
    orchard = rounded quant st.balance.orchard;
    ironwood = rounded quant st.balance.ironwood;
  };
  tout = st.tout;
  n_inputs = st.n_inputs;
  orchard_asset_inputs = st.orchard_asset_inputs;
}

abbrev pub pools_eq : {A : Type 0} → (A → A → Bool) → PerPool A → PerPool A → Bool
pools_eq eq a b =
    eq a.transparent b.transparent
    && eq a.sapling b.sapling
    && eq a.orchard b.orchard
    && eq a.ironwood b.ironwood

abbrev pub ints_eq : List ℤ → List ℤ → Bool
ints_eq [] [] = true
ints_eq (x ∷ xs) (y ∷ ys) = int_eq x y && ints_eq xs ys
ints_eq _ _ = false

abbrev pub key_eq : StateKey → StateKey → Bool
key_eq a b =
    ints_eq a.asset_sums b.asset_sums
    && pools_eq int_eq a.balance b.balance
    && a.tout == b.tout
    && pools_eq (λ n m. n == m) a.n_inputs b.n_inputs
    && list_eq a.orchard_asset_inputs b.orchard_asset_inputs
