-- ===== src/Pay/Solve.antt =====
-- rust/rlz/src/pay/solve.rs: the notes, the outputs and the states of the coin selection, the fee
-- and the privacy cost of a state. Amounts are u64, in zatoshis for ZEC; the sums of u64 and i64 wrap as in a
-- release build. The vectors that are indexed by asset have one entry for each asset, and are walked
-- side by side.
pub mod Search
pub mod Gather
pub mod Select
pub mod Covered
pub mod Distinct
pub mod Ranked
pub mod Reached
pub mod Winner
pub mod Loop
pub mod Total
pub mod Rounds
pub mod Gathered
pub mod Cheaper
pub mod Answers
pub mod Asked
pub mod Funded
pub mod Fees
use zcash_sdk_kmp.Base.{
  ℕ, zero, suc, ◌+◌, ◌-◌, ◌*◌, max, Bool, true, false, not, ◌&&◌, ◌||◌, Option, some, none, List,
  [], ◌∷◌, ltb, leb, ◌==◌, if◌then◌else◌, saturating_add, wrapping_add, u32_max, u64_max,
}
use zcash_sdk_kmp.Base.Integers.{ℤ, negate, as_i64, wrap_i64, ◌+ℤ◌, unsigned_abs}
use zcash_sdk_kmp.Pay.PerPool.{PerPool}

pub record Note : Type 0 where
  pub pool : ℕ
  pub amount : ℕ
  pub pool_index : ℕ
  pub asset_index : ℕ

pub record Output : Type 0 where
  pub pool : ℕ
  pub amount : ℕ
  pub asset_index : ℕ

pub record Selection : Type 0 where
  pub inputs : List Note
  pub per_pool_indices : PerPool (List ℕ)
  pub change_pool : ℕ
  pub fee : ℕ

abbrev pub grace_actions : ℕ
grace_actions = 2

pub record State : Type 0 where
  pub asset_sums : List ℕ
  pub balance : PerPool ℤ
  pub n_inputs : PerPool ℕ
  pub orchard_asset_inputs : List ℕ
  pub tin : ℕ
  pub tout : ℕ
  pub selected : List ℕ

pub record Context : Type 0 where
  pub notes : List Note
  pub n_assets : ℕ
  pub asset_output_amounts : List ℕ
  pub output_amounts : PerPool ℕ
  pub n_outputs : PerPool ℕ
  pub orchard_asset_outputs : List ℕ
  pub f_unit : ℕ
  pub migration : Bool
  pub recipient_pays_fee : Bool
  pub first_recipient_amount : ℕ

-- The entry of asset 0, of a vector that has one.
abbrev pub zec_of : List ℕ → ℕ
zec_of [] = 0
zec_of (x ∷ xs) = x

-- The entries of the other assets.
abbrev pub zsa_of : List ℕ → List ℕ
zsa_of [] = []
zsa_of (x ∷ xs) = xs

-- One more output in the pool of the change.
abbrev pub with_change : PerPool ℕ → ℕ → PerPool ℕ
with_change n zero = record n { transparent = saturating_add u32_max n.transparent 1 }
with_change n (suc zero) = record n { sapling = saturating_add u32_max n.sapling 1 }
with_change n (suc (suc zero)) = record n { orchard = saturating_add u32_max n.orchard 1 }
with_change n (suc (suc (suc _))) = record n { ironwood = saturating_add u32_max n.ironwood 1 }

abbrev pub padded_actions : ℕ → ℕ → ℕ
padded_actions n o = if ltb 0 n || ltb 0 o then max (max n o) 2 else 0

abbrev pub migration_actions : ℕ → ℕ → ℕ
migration_actions n o = if ltb 0 n || ltb 0 o then max (n + o) 2 else 0

abbrev pub orchard_or : Option ℕ → Bool → ℕ → ℕ → ℕ
orchard_or (some actions) migration n o = actions
orchard_or none migration n o = if migration then migration_actions n o else padded_actions n o

-- `f_unit` is 5,000 (COST_PER_ACTION), so that the product of fewer than 2^41 actions cannot wrap.
unfoldable pub compute_fee : PerPool ℕ → PerPool ℕ → ℕ → ℕ → Bool → Option ℕ → ℕ
compute_fee n_inputs n_outputs change_pool f_unit migration orchard_actions =
    let n_outs = with_change n_outputs change_pool in
    let t = max n_inputs.transparent n_outs.transparent in
    let s = padded_actions n_inputs.sapling n_outs.sapling in
    let o = orchard_or orchard_actions migration n_inputs.orchard n_outs.orchard in
    let iw = padded_actions n_inputs.ironwood n_outs.ironwood in
    max (t + s + o + iw) grace_actions * f_unit

-- The outputs of one asset, with its change output: of asset 0 when the change is in Orchard, of
-- another asset when more of it was selected than is needed.
abbrev pub asset_outputs : ℕ → ℕ → ℕ → ℕ → ℕ → ℕ
asset_outputs change_pool asset outputs sum amount =
    let more = saturating_add u32_max outputs 1 in
    if asset == 0 && change_pool == 2
    then more
    else if ltb 0 asset && ltb amount sum
    then more
    else outputs

unfoldable pub paired_actions : ℕ → ℕ → List ℕ → List ℕ → List ℕ → List ℕ → ℕ
paired_actions cp asset (o ∷ outputs) (n ∷ inputs) (s ∷ sums) (a ∷ amounts) =
    max n (asset_outputs cp asset o s a) + paired_actions cp (asset + 1) outputs inputs sums amounts
paired_actions cp asset _ _ _ _ = 0

unfoldable pub zsa_orchard_actions : State → Context → ℕ → Option ℕ
zsa_orchard_actions st ctx change_pool =
    let actions =
      paired_actions change_pool 0 ctx.orchard_asset_outputs st.orchard_asset_inputs st.asset_sums
        ctx.asset_output_amounts in
    if leb ctx.n_assets 1 then none else some (if ltb 0 actions then max actions 2 else 0)

-- Each asset's sum reaches its amount.
abbrev pub covers : List ℕ → List ℕ → Bool
covers (s ∷ sums) (a ∷ amounts) = if ltb s a then false else covers sums amounts
covers _ _ = true

abbrev pub zec_needed : Context → ℕ → ℕ
zec_needed ctx fee =
    if ctx.recipient_pays_fee
    then zec_of ctx.asset_output_amounts
    else saturating_add u64_max (zec_of ctx.asset_output_amounts) fee

unfoldable pub is_feasible : State → Context → ℕ → Bool
is_feasible st ctx fee =
    if ltb (zec_of st.asset_sums) (zec_needed ctx fee)
    then false
    else covers (zsa_of st.asset_sums) (zsa_of ctx.asset_output_amounts)

unfoldable pub fee_for_change_pool : State → Context → ℕ → ℕ
fee_for_change_pool st ctx change_pool =
    compute_fee st.n_inputs ctx.n_outputs change_pool ctx.f_unit ctx.migration
      (zsa_orchard_actions st ctx change_pool)

-- The order of the pairs of a cost and a fee.
unfoldable pub is_better_solution : ℕ → ℕ → ℕ → ℕ → Bool
is_better_solution cost fee best_cost best_fee =
    ltb cost best_cost || (cost == best_cost && ltb fee best_fee)

unfoldable pub bound_can_beat : ℕ → ℕ → Bool
bound_can_beat bound best_cost = leb bound best_cost

abbrev pub imbalance : ℤ → ℕ → Bool → ℕ
imbalance balance change takes_change =
    if takes_change
    then unsigned_abs (wrap_i64 (balance +ℤ negate (as_i64 change)))
    else unsigned_abs balance

unfoldable pub turnstile_of : State → ℕ → ℕ → ℕ
turnstile_of st cp change = wrapping_add (wrapping_add st.tin st.tout) (
    wrapping_add
      (wrapping_add (imbalance st.balance.sapling change (cp == 1))
        (imbalance st.balance.orchard change (cp == 2)))
      (imbalance st.balance.ironwood change (cp == 3)))

-- The best pool so far.
pub record Best : Type 0 where
  pub turnstile : ℕ
  pub fee : ℕ
  pub pool : ℕ

unfoldable pub try_pool : State → Context → ℕ → Best → Best
try_pool st ctx cp best =
    let fee = fee_for_change_pool st ctx cp in
    let turnstile = turnstile_of st cp (zec_of st.asset_sums - zec_needed ctx fee) in
    if ctx.recipient_pays_fee && ltb ctx.first_recipient_amount fee
    then best
    else if not (is_feasible st ctx fee)
    then best
    else if is_better_solution turnstile fee best.turnstile best.fee
    then record { turnstile = turnstile; fee = fee; pool = cp }
    else best

unfoldable pub evaluate_privacy : State → Context → ℕ × ℕ
evaluate_privacy st ctx =
    let start : Best = record { turnstile = u64_max; fee = u64_max; pool = 0 } in
    let best =
      try_pool st ctx 3 (try_pool st ctx 2 (try_pool st ctx 1 (try_pool st ctx 0 start))) in
    (best.turnstile, best.pool)

unfoldable pub evaluate : State → Context → ℕ × ℕ
evaluate st ctx = evaluate_privacy st ctx
