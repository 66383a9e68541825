-- ===== src/Tests/Pay.antt =====
-- Runs of the fee and pool models, and their theorems at concrete inputs.
use zcash_sdk_kmp.Base.{
  ◌+◌, ◌*◌, ◌≤◌, max, ◌≡◌, refl, ◌↔◌, ◌⊎◌, true, false, ◌&&◌, ◌||◌, some, arith,
}
use zcash_sdk_kmp.Pay.Fee.{FeeManager, empty, fee, add_input}
use zcash_sdk_kmp.Pay.Fee.Rule.{logical_actions, fee_rule}
use zcash_sdk_kmp.Pay.Fee.Step.{fee-add_input}
use zcash_sdk_kmp.Pay.Pool.{
  Receivers, has_pool, to_best_pool, single_pool, intersect, union, trim_transparent, from_address,
}
use zcash_sdk_kmp.Pay.Pool.Sets.{
  count_pools, to_best_pool_highest, single_pool_iff, has_pool-intersect-union, IsRecipientMask,
  from_address-trim_transparent, search_down,
}

-- One sapling spend, a transparent output and a migration bundle of three actions.
abbrev mixed : FeeManager
mixed = record {
  num_inputs = record { transparent = 0; sapling = 1; orchard = 2; ironwood = 0 };
  num_outputs = record { transparent = 1; sapling = 0; orchard = 1; ironwood = 0 };
  issuance_actions = 0;
  migration = true;
}

fee-mixed : fee mixed ≡ 30000
unfolding fee
fee-mixed = refl

fee-empty : fee empty ≡ 10000
unfolding fee
fee-empty = refl

fee_rule_example : fee mixed ≡ max (logical_actions mixed) 2 * 5000
fee_rule_example = fee_rule mixed

fee-add_input_example :
    (fm' : FeeManager) × (add_input mixed 2 ≡ some fm')
    × (fee mixed ≤ fee fm')
    × (fee fm' ≤ fee mixed + 10000)
fee-add_input_example = fee-add_input mixed 2 2 refl (omega arith)

to_best_pool_highest_example : to_best_pool 7 ≡ search_down 4 7
to_best_pool_highest_example = to_best_pool_highest 7 (omega arith)

single_pool_iff_example : (single_pool 12 ≡ true) ↔ (count_pools 12 ≡ 1)
single_pool_iff_example = single_pool_iff 12 (omega arith)

has_pool-intersect-union_example :
    (has_pool (intersect 14 5) 2 ≡ (has_pool 14 2 && has_pool 5 2))
    × (has_pool (union 14 5) 2 ≡ (has_pool 14 2 || has_pool 5 2))
has_pool-intersect-union_example =
    has_pool-intersect-union 14 5 2 (omega arith) (omega arith) (omega arith)

-- A unified address with a transparent and an orchard receiver.
abbrev unified : Receivers
unified = record { as_transparent = true; as_sapling = false; as_orchard = true }

from_address-trim_transparent_example :
    IsRecipientMask 12 × ((has_pool 12 0 ≡ false) ⊎ ((false ≡ false) × (true ≡ false)))
unfolding from_address trim_transparent
from_address-trim_transparent_example = from_address-trim_transparent unified 12 refl
