-- ===== src/Pay/Pool.antt =====
-- rust/rlz/src/pay/pool.rs: the set of pools that a transaction may use, in one byte. Bit 0 is
-- transparent, 1 sapling, 2 orchard, 3 ironwood.
pub mod Sets
use zcash_sdk_kmp.Base.{
  ℕ, ◌+◌, ◌-◌, ◌*◌, ◌%◌, ◌^◌, Bool, true, false, not, Option, some, none, bit_and, bit_or, ◌==◌,
  if◌then◌else◌,
}

abbrev pub PoolMask : Type 0
PoolMask = ℕ

-- `1 << pool` on a `u8`: a release build takes the shift modulo 8.
unfoldable pub from_pool : ℕ → PoolMask
from_pool pool = 2 ^ (pool % 8)

unfoldable pub has_pool : PoolMask → ℕ → Bool
has_pool mask pool = not (bit_and mask (2 ^ (pool % 8)) == 0)

unfoldable pub to_best_pool : PoolMask → Option ℕ
to_best_pool mask =
    if not (bit_and mask 8 == 0)
    then some 3
    else if not (bit_and mask 4 == 0)
    then some 2
    else if not (bit_and mask 2 == 0)
    then some 1
    else if not (bit_and mask 1 == 0)
    then some 0
    else none

unfoldable pub single_pool : PoolMask → Bool
single_pool mask = if mask == 0 then false else bit_and mask (mask - 1) == 0

unfoldable pub is_empty : PoolMask → Bool
is_empty mask = mask == 0

unfoldable pub intersect : PoolMask → PoolMask → PoolMask
intersect a b = bit_and a b

unfoldable pub union : PoolMask → PoolMask → PoolMask
union a b = bit_or a b

-- What the address library says an address can receive as.
pub record Receivers : Type 0 where
  pub as_transparent : Bool
  pub as_sapling : Bool
  pub as_orchard : Bool

-- The address is parsed by the `zcash_address` crate: `none` is an address that it refuses.
unfoldable pub from_address : Option Receivers → Option PoolMask
from_address none = none
from_address (some a) =
    let transparent = if a.as_transparent then bit_or 0 1 else 0 in
    let sapling = if a.as_sapling then bit_or transparent 2 else transparent in
    some (if a.as_orchard then bit_or sapling (bit_or 4 8) else sapling)

-- `none` is the error `InvalidPoolMask`.
unfoldable pub trim_transparent : PoolMask → Option PoolMask
trim_transparent mask =
    if mask == 0 then none else if mask == 1 then some 1 else some (bit_and mask 0b1110)

-- `impl From<Option<u8>> for PoolMask`
unfoldable pub from_option : Option ℕ → PoolMask
from_option none = 0
from_option (some p) = 2 ^ (p % 8)
