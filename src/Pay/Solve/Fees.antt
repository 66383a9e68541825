-- ===== src/Pay/Solve/Fees.antt =====
-- The fee of the selection is the one of the fee manager.
use zcash_sdk_kmp.Base.{
  ℕ, zero, suc, ◌<◌, ◌≡◌, refl, Bool, true, false, none, u32_max, saturating_add, arith,
}
use zcash_sdk_kmp.Base.Partial.{Gives}
use zcash_sdk_kmp.Pay.Fee.{FeeManager, add_output, fee, cost_per_action, orchard_actions, increment}
use zcash_sdk_kmp.Pay.Solve.{compute_fee, orchard_or}

-- The output counters have room for one more.
abbrev pub HasRoom : FeeManager → Type 0
HasRoom fm =
    (fm.num_outputs.transparent < 255)
    × (fm.num_outputs.sapling < 255)
    × (fm.num_outputs.orchard < 255)
    × (fm.num_outputs.ironwood < 255)

-- The wrapping and the saturating counter agree below their limits.
increment-saturating_add : (n : ℕ) → n < 255 → increment n ≡ saturating_add u32_max n 1
increment-saturating_add n h = ground arith

orchard_actions-orchard_or : (m : Bool) (n o : ℕ) → orchard_actions m n o ≡ orchard_or none m n o
orchard_actions-orchard_or true n o = refl
orchard_actions-orchard_or false n o = refl

-- When no counter is full, the fee that the selection computes for a change pool, with the counts
-- of a fee manager and no other asset, is the fee of that manager with one more output there.
pub compute_fee-fee :
    (fm : FeeManager) (change_pool : ℕ)
    → HasRoom fm
    → Gives
        (λ fm'.
          fee fm'
          ≡ compute_fee fm.num_inputs fm.num_outputs change_pool cost_per_action fm.migration none)
        (add_output fm change_pool)
unfolding add_output fee compute_fee
compute_fee-fee fm zero r =
    rw
      (
        increment-saturating_add fm.num_outputs.transparent r.0,
        orchard_actions-orchard_or fm.migration fm.num_inputs.orchard fm.num_outputs.orchard,
      )
      refl
compute_fee-fee fm (suc zero) r =
    rw
      (
        increment-saturating_add fm.num_outputs.sapling r.1,
        orchard_actions-orchard_or fm.migration fm.num_inputs.orchard fm.num_outputs.orchard,
      )
      refl
compute_fee-fee fm (suc (suc zero)) r =
    rw
      (
        increment-saturating_add fm.num_outputs.orchard r.2,
        orchard_actions-orchard_or fm.migration fm.num_inputs.orchard
            (saturating_add u32_max fm.num_outputs.orchard 1),
      )
      refl
compute_fee-fee fm (suc (suc (suc zero))) r =
    rw
      (
        increment-saturating_add fm.num_outputs.ironwood r.3,
        orchard_actions-orchard_or fm.migration fm.num_inputs.orchard fm.num_outputs.orchard,
      )
      refl
compute_fee-fee fm (suc (suc (suc (suc p)))) r = tt
