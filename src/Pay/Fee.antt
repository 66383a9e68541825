-- ===== src/Pay/Fee.antt =====
-- rust/rlz/src/pay/fee.rs: the ZIP-317 fee of a transaction under construction. The counters are
-- `u8` and wrap, as a release build does.
pub mod Rule
pub mod Step
use zcash_sdk_kmp.Base.{
  ℕ, ◌+◌, ◌-◌, ◌*◌, ◌%◌, ◌^◌, max, Bool, true, false, ◌||◌, Option, ltb, ◌==◌, if◌then◌else◌,
}
use zcash_sdk_kmp.Pay.PerPool.{PerPool, filled, modify}
use mathlib.Core.Option

abbrev pub cost_per_action : ℕ
cost_per_action = 5000

abbrev pub creation_cost : ℕ
creation_cost = 0

pub record FeeManager : Type 0 where
  pub num_inputs : PerPool ℕ
  pub num_outputs : PerPool ℕ
  pub issuance_actions : ℕ
  pub migration : Bool

-- `FeeManager::default()`
abbrev pub empty : FeeManager
empty = record {
  num_inputs = filled 0;
  num_outputs = filled 0;
  issuance_actions = 0;
  migration = false;
}

abbrev pub increment : ℕ → ℕ
increment n = (n + 1) % 256

abbrev pub decrement : ℕ → ℕ
decrement n = (n + 255) % 256

unfoldable pub add_input : FeeManager → ℕ → Option FeeManager
add_input fm pool =
    Option.map (λ a. record fm { num_inputs = a }) (modify increment fm.num_inputs pool)

unfoldable pub add_output : FeeManager → ℕ → Option FeeManager
add_output fm pool =
    Option.map (λ a. record fm { num_outputs = a }) (modify increment fm.num_outputs pool)

unfoldable pub remove_output : FeeManager → ℕ → Option FeeManager
remove_output fm pool =
    Option.map (λ a. record fm { num_outputs = a }) (modify decrement fm.num_outputs pool)

unfoldable pub add_issuance_actions : FeeManager → ℕ → ℕ → FeeManager
add_issuance_actions fm issue_note_count asset_creation_count = record fm {
  issuance_actions =
      (fm.issuance_actions + (issue_note_count + creation_cost * asset_creation_count)) % 2 ^ 64;
}

-- The actions of a bundle that is padded to two when there is any input or output.
abbrev pub padded : ℕ → ℕ → ℕ
padded n o = if ltb 0 n || ltb 0 o then max (max n o) 2 else 0

-- An Orchard bundle in migration mode pairs no spend with an output.
abbrev pub orchard_actions : Bool → ℕ → ℕ → ℕ
orchard_actions migration n o =
    if ltb 0 n || ltb 0 o then if migration then max (n + o) 2 else max (max n o) 2 else 0

-- The sums are of five `u64` values below 512, so they cannot wrap.
unfoldable pub fee : FeeManager → ℕ
fee fm =
    let t = max fm.num_inputs.transparent fm.num_outputs.transparent in
    let s = padded fm.num_inputs.sapling fm.num_outputs.sapling in
    let o = orchard_actions fm.migration fm.num_inputs.orchard fm.num_outputs.orchard in
    let i = padded fm.num_inputs.ironwood fm.num_outputs.ironwood in
    max (t + s + o + i) 2 * cost_per_action

unfoldable pub min_actions_padding : ℕ → ℕ
min_actions_padding a = if a == 0 then 0 else max a 2
