-- ===== src/Migrate.antt =====
-- rust/rlz/src/migrate/mod.rs: the migration of Orchard notes to Ironwood. This file has the
-- standard denominations and the anchor heights, Split.antt the planning of a split.
pub mod Denominations
pub mod Decompose
pub mod Anchor
pub mod Split
use zcash_sdk_kmp.Base.{
  ℕ, zero, suc, ◌+◌, ◌-◌, ◌*◌, ◌/◌, ◌%◌, ◌^◌, min, max, Bool, true, false, ◌&&◌, Option, some, none,
  List, [], ◌∷◌, ltb, leb, ◌==◌, if◌then◌else◌, saturating_add, u32_max, u64_max,
}
use zcash_sdk_kmp.Pay.Fee.{cost_per_action}

abbrev pub min_sd : ℕ
min_sd = 100 * cost_per_action

abbrev pub max_split_inputs : ℕ
max_split_inputs = 50

abbrev pub anchor_bucket_size : ℕ
anchor_bucket_size = 144

abbrev pub target_block_spacing_ms : ℕ
target_block_spacing_ms = 75_000

abbrev pub sd_fee_pad : ℕ
sd_fee_pad = 4 * cost_per_action

-- `10u64.pow(k) + p` at `k = 5 + n`
abbrev pub denomination : ℕ → ℕ
denomination n = 10 ^ (5 + n) + sd_fee_pad

abbrev pub Digits : Type 0
Digits = List (ℕ × ℕ)

-- The rounds of the loop that are left: the next has `k = 5 + n`. `as u8` is taken modulo 256.
unfoldable pub decompose_from : ℕ → ℕ → Digits × ℕ
decompose_from zero remainder = ([], remainder)
decompose_from (suc n) remainder =
    let d = denomination n in
    let count = remainder / d % 256 in
    let rest = decompose_from n (remainder % d) in
    if ltb remainder (denomination 0)
    then ([], remainder)
    else (if ltb 0 count then (d, count) ∷ rest.0 else rest.0, rest.1)

-- `k` runs from 15 down to 5.
unfoldable pub decompose_to_sd : ℕ → Digits × ℕ
decompose_to_sd total = decompose_from 11 total

-- `while x % 10 == 0 { x /= 10; }`; `none` means that the rounds given ran out.
unfoldable pub strip_tens : ℕ → ℕ → Option ℕ
strip_tens zero x = none
strip_tens (suc f) x = let rest = strip_tens f (x / 10) in if x % 10 == 0 then rest else some x

abbrev pub is_one : Option ℕ → Bool
is_one none = false
is_one (some x) = x == 1

-- A `u64` has at most twenty digits, so twenty rounds are enough.
unfoldable pub is_iw_sd : ℕ → Bool
is_iw_sd value =
    leb 100_000 value && (value % 100_000 == 0 && is_one (strip_tens 20 (value / 100_000)))

unfoldable pub is_sd : ℕ → Bool
is_sd value = ltb sd_fee_pad value && is_iw_sd (value - sd_fee_pad)

unfoldable pub migration_anchor_bucket_size : ℕ → ℕ
migration_anchor_bucket_size mean_delay_ms =
    let blocks =
      saturating_add u64_max mean_delay_ms (target_block_spacing_ms - 1)
      / target_block_spacing_ms in
    min (max (if leb blocks u32_max then blocks else u32_max) 1) anchor_bucket_size

unfoldable pub next_anchor_bucket_height : ℕ → ℕ → ℕ
next_anchor_bucket_height height bucket_size =
    let remainder = height % bucket_size in
    if remainder == 0 then height else saturating_add u32_max height (bucket_size - remainder)
