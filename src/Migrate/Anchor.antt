-- ===== src/Migrate/Anchor.antt =====
-- The anchor heights of a migration.
use native.Mathlib.Nat.{mod-lt, div-add-mod, mul-mod_right}
use zcash_sdk_kmp.Base.{ℕ, ◌+◌, ◌-◌, ◌*◌, ◌/◌, ◌%◌, ◌≤◌, ◌<◌, ◌≡◌, ◌⊎◌, arith, u32_max, u64_max}
use zcash_sdk_kmp.Migrate.{migration_anchor_bucket_size, next_anchor_bucket_height}

-- For every delay of a u64, the interval is the least number of blocks of 75 seconds that reaches the
-- delay, brought between 1 and 144.
pub migration_anchor_bucket_size_bounds :
    (delay : ℕ)
    → delay ≤ u64_max
    → let blocks = migration_anchor_bucket_size delay in
      (1 ≤ blocks)
      × (blocks ≤ 144)
      × ((delay ≤ blocks * 75000) ⊎ (blocks ≡ 144))
      × ((blocks ≡ 1) ⊎ (blocks * 75000 < delay + 75000))
unfolding migration_anchor_bucket_size
migration_anchor_bucket_size_bounds delay h = ground arith

rounded_up : (height size : ℕ) → 0 < size → (height + (size - height % size)) % size ≡ 0
rounded_up height size pos =
    let r = mod-lt height pos in
    let e : height + (size - height % size) ≡ size * (height / size + 1) =
      omega (arith, div-add-mod height size, r) in
    rw e (mul-mod_right size (height / size + 1))

-- Where the height does not saturate, the boundary is the least multiple of the interval that is
-- not below the height.
pub next_anchor_bucket_height_least :
    (height size : ℕ)
    → 0 < size
    → height + size ≤ u32_max
    → (height ≤ next_anchor_bucket_height height size)
      × (next_anchor_bucket_height height size < height + size)
      × (next_anchor_bucket_height height size % size ≡ 0)
unfolding next_anchor_bucket_height
next_anchor_bucket_height_least height size pos fits =
    ground (arith, mod-lt height pos, rounded_up height size pos)
