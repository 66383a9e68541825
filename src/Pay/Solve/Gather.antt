-- ===== src/Pay/Solve/Gather.antt =====
-- rust/rlz/src/pay/solve.rs: the first steps of `select_notes`, which make the context of the search
-- from the notes and the outputs. An index out of range panics, and is `none`.
use zcash_sdk_kmp.Base.{
  ℕ, ◌+◌, ◌%◌, ◌^◌, max, Bool, not, ◌&&◌, ◌||◌, Option, some, List, [], ◌∷◌, replicate, ltb, leb,
  ◌==◌, if◌then◌else◌, saturating_add, wrapping_add, u64_max,
}
use zcash_sdk_kmp.Base.Partial.{◌>>=◌}
use zcash_sdk_kmp.Pay.PerPool.{PerPool, filled, modify}
use zcash_sdk_kmp.Pay.Solve.{Note, Output, Context}
use zcash_sdk_kmp.Pay.Solve.Search.{modify_at, sort_by, one_more}

-- ZEC notes that cannot pay for their own action are left out.
abbrev pub without_dust : ℕ → List Note → List Note
without_dust f_unit [] = []
without_dust f_unit (n ∷ ns) =
    if not (n.asset_index == 0) || leb f_unit n.amount
    then n ∷ without_dust f_unit ns
    else without_dust f_unit ns

abbrev pub max_asset : List Output → ℕ
max_asset [] = 0
max_asset (o ∷ os) = max o.asset_index (max_asset os)

-- The totals of the outputs.
pub record Totals : Type 0 where
  pub output_amounts : PerPool ℕ
  pub n_outputs : PerPool ℕ
  pub asset_output_amounts : List ℕ
  pub orchard_asset_outputs : List ℕ

-- The totals of the output's pool, if it is one of the four.
unfoldable pub add_to_pool : Output → Totals → Option Totals
add_to_pool o t = if leb 4 o.pool then some t else do
  amounts ← modify (λ a. saturating_add u64_max a o.amount) t.output_amounts o.pool
  counts ← modify one_more t.n_outputs o.pool
  orchard ←
      (if o.pool == 2
        then modify_at one_more t.orchard_asset_outputs o.asset_index
        else some t.orchard_asset_outputs)
  some (record t { output_amounts = amounts; n_outputs = counts; orchard_asset_outputs = orchard })

unfoldable pub add_outputs : List Output → Totals → Option Totals
add_outputs [] t = some t
add_outputs (o ∷ os) t = do
  t' ← add_to_pool o t
  amounts ← modify_at (λ a. wrapping_add a o.amount) t'.asset_output_amounts o.asset_index
  add_outputs os (record t' { asset_output_amounts = amounts })

-- Shielded notes first, then the larger amounts.
abbrev pub preferred : Note → Note → Bool
preferred a b =
    if a.pool == 0
    then b.pool == 0 && ltb b.amount a.amount
    else b.pool == 0 || ltb b.amount a.amount

-- What the caller asks of the selection besides the notes and the outputs.
pub record Request : Type 0 where
  pub f_unit : ℕ
  pub migration : Bool
  pub recipient_pays_fee : Bool
  pub first_recipient_amount : ℕ

unfoldable pub context_of : List Note → List Output → Request → Option Context
context_of notes outputs q = do
  let n_assets = (max_asset outputs + 1) % 2 ^ 8
  totals ← add_outputs outputs (record {
    output_amounts = filled 0;
    n_outputs = filled 0;
    asset_output_amounts = replicate n_assets 0;
    orchard_asset_outputs = replicate n_assets 0;
  })
  some (record {
    notes = sort_by preferred notes;
    n_assets = n_assets;
    asset_output_amounts = totals.asset_output_amounts;
    output_amounts = totals.output_amounts;
    n_outputs = totals.n_outputs;
    orchard_asset_outputs = totals.orchard_asset_outputs;
    f_unit = q.f_unit;
    migration = q.migration;
    recipient_pays_fee = q.recipient_pays_fee;
    first_recipient_amount = q.first_recipient_amount;
  })
