-- ===== src/Pay/Fee/Rule.antt =====
-- The fee of fee.rs against the ZIP-317 rule.
use zcash_sdk_kmp.Base.{ℕ, ◌+◌, ◌*◌, max, ◌≡◌, Bool, true, false, arith, if◌then◌else◌}
use zcash_sdk_kmp.Pay.Fee.{FeeManager, padded, orchard_actions, fee, min_actions_padding}

-- The rule: five thousand zatoshis an action, two actions at least. A transparent bundle has as
-- many actions as its larger side, a shielded one is padded to two, and an Orchard bundle in
-- migration mode has an action for each spend and each output.
abbrev pub logical_actions : FeeManager → ℕ
logical_actions fm =
    max fm.num_inputs.transparent fm.num_outputs.transparent
    + min_actions_padding (max fm.num_inputs.sapling fm.num_outputs.sapling)
    + min_actions_padding (
        if fm.migration
        then fm.num_inputs.orchard + fm.num_outputs.orchard
        else max fm.num_inputs.orchard fm.num_outputs.orchard)
    + min_actions_padding (max fm.num_inputs.ironwood fm.num_outputs.ironwood)

sapling_rule : (n o : ℕ) → (padded n o ≡ min_actions_padding (max n o))
unfolding min_actions_padding
sapling_rule n o = ground arith

orchard_rule :
    (m : Bool) (n o : ℕ)
    → orchard_actions m n o ≡ min_actions_padding (if m then n + o else max n o)
unfolding min_actions_padding
orchard_rule true n o = ground arith
orchard_rule false n o = ground arith

-- The fee that the code computes is the ZIP-317 fee of the counted inputs and outputs.
pub fee_rule : (fm : FeeManager) → fee fm ≡ max (logical_actions fm) 2 * 5000
unfolding fee
fee_rule fm = rw (
  sapling_rule fm.num_inputs.sapling fm.num_outputs.sapling,
  sapling_rule fm.num_inputs.ironwood fm.num_outputs.ironwood,
  orchard_rule fm.migration fm.num_inputs.orchard fm.num_outputs.orchard,
)
