-- ===== src/Pay/Fee/Step.antt =====
-- What one more input or output does to the fee.
use zcash_sdk_kmp.Base.{ℕ, zero, suc, ◌+◌, ◌≤◌, ◌<◌, ◌≡◌, refl, max, Bool, true, false, some, arith}
use zcash_sdk_kmp.Pay.PerPool.{at}
use zcash_sdk_kmp.Pay.Fee.{
  FeeManager, fee, padded, orchard_actions, add_input, add_output, remove_output, increment,
}
use zcash_sdk_kmp.Base.Partial.{◌>>=◌}

-- The second count is the first, or one more.
abbrev Within : ℕ → ℕ → Type 0
Within a b = (a ≤ b) × (b ≤ a + 2)

transparent_step : (n o : ℕ) → n < 255 → Within (max n o) (max (increment n) o)
transparent_step n o h = omega arith

padded_step : (n o : ℕ) → n < 255 → Within (padded n o) (padded (increment n) o)
padded_step n o h = ground arith

orchard_step :
    (m : Bool) (n o : ℕ)
    → n < 255
    → Within (orchard_actions m n o) (orchard_actions m (increment n) o)
orchard_step true n o h = ground arith
orchard_step false n o h = ground arith

below : {x n : ℕ} → some x ≡ some n → n < 255 → x < 255
below e h = ground arith

-- Adding an input to a pool of the four whose counter is below 255 succeeds; the fee does not
-- fall, and rises by at most two actions.
pub fee-add_input :
    (fm : FeeManager) (pool n : ℕ)
    → at fm.num_inputs pool ≡ some n
    → n < 255
    → (fm' : FeeManager) × (add_input fm pool ≡ some fm')
      × (fee fm ≤ fee fm')
      × (fee fm' ≤ fee fm + 10000)
unfolding add_input fee
fee-add_input fm zero n e h =
    let s = transparent_step fm.num_inputs.transparent fm.num_outputs.transparent (below e h) in
    (_, refl, omega (arith, s), omega (arith, s))
fee-add_input fm (suc zero) n e h =
    let s = padded_step fm.num_inputs.sapling fm.num_outputs.sapling (below e h) in
    (_, refl, omega (arith, s), omega (arith, s))
fee-add_input fm (suc (suc zero)) n e h =
    let s = orchard_step fm.migration fm.num_inputs.orchard fm.num_outputs.orchard (below e h) in
    (_, refl, omega (arith, s), omega (arith, s))
fee-add_input fm (suc (suc (suc zero))) n e h =
    let s = padded_step fm.num_inputs.ironwood fm.num_outputs.ironwood (below e h) in
    (_, refl, omega (arith, s), omega (arith, s))
fee-add_input fm (suc (suc (suc (suc p)))) n e h = cc

-- Removing the output that was just added restores the counters.
remove_output-add_output :
    (fm : FeeManager) (pool n : ℕ)
    → at fm.num_outputs pool ≡ some n
    → n < 256
    → (do fm' ← add_output fm pool; remove_output fm' pool) ≡ some fm
unfolding add_output remove_output
remove_output-add_output fm zero n e h = ground arith
remove_output-add_output fm (suc zero) n e h = ground arith
remove_output-add_output fm (suc (suc zero)) n e h = ground arith
remove_output-add_output fm (suc (suc (suc zero))) n e h = ground arith
remove_output-add_output fm (suc (suc (suc (suc p)))) n e h = cc
