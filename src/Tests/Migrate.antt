-- ===== src/Tests/Migrate.antt =====
-- Runs of the migration planner, and its theorems at concrete inputs.
use zcash_sdk_kmp.Base.{
  ◌⊎◌, ℕ, ◌+◌, ◌*◌, ◌%◌, ◌≤◌, ◌<◌, ◌≡◌, refl, ◌↔◌, true, Option, some, List, [], ◌∷◌, arith, All,
  sum,
}
use zcash_sdk_kmp.Migrate.{
  decompose_to_sd, decompose_from, is_iw_sd, migration_anchor_bucket_size,
  next_anchor_bucket_height,
}
use zcash_sdk_kmp.Migrate.Anchor.{
  migration_anchor_bucket_size_bounds, next_anchor_bucket_height_least,
}
use zcash_sdk_kmp.Migrate.Denominations.{IsPowerDenomination, is_iw_sd_iff}
use zcash_sdk_kmp.Migrate.Decompose.{value, outputs, IsSdDigit, decompose_to_sd_sound}
use zcash_sdk_kmp.Migrate.Split.{SplitPlan, plan_split, sort_desc, insert_desc}
use zcash_sdk_kmp.Migrate.Split.Plan.{spent, IsPlanFor, plan_split_sound}

anchors :
    (next_anchor_bucket_height 143 144 ≡ 144)
    × (next_anchor_bucket_height 144 144 ≡ 144)
    × (migration_anchor_bucket_size 80000 ≡ 2)
unfolding next_anchor_bucket_height migration_anchor_bucket_size
anchors = (refl, refl, refl)

migration_anchor_bucket_size_bounds_example :
    let blocks = migration_anchor_bucket_size 80000 in
    (1 ≤ blocks)
    × (blocks ≤ 144)
    × ((80000 ≤ blocks * 75000) ⊎ (blocks ≡ 144))
    × ((blocks ≡ 1) ⊎ (blocks * 75000 < 80000 + 75000))
migration_anchor_bucket_size_bounds_example =
    migration_anchor_bucket_size_bounds 80000 (omega arith)

next_anchor_bucket_height_least_example :
    (150 ≤ next_anchor_bucket_height 150 144)
    × (next_anchor_bucket_height 150 144 < 150 + 144)
    × (next_anchor_bucket_height 150 144 % 144 ≡ 0)
next_anchor_bucket_height_least_example =
    next_anchor_bucket_height_least 150 144 (omega arith) (omega arith)

is_iw_sd_iff_example : (is_iw_sd 1_000_000 ≡ true) ↔ IsPowerDenomination 1_000_000
is_iw_sd_iff_example = is_iw_sd_iff 1_000_000 (omega arith)

-- 1_240_000 is one note of 1_020_000, one of 120_000 and 100_000 over.
decompose_run : decompose_to_sd 1_240_000 ≡ ((1_020_000, 1) ∷ (120_000, 1) ∷ [], 100_000)
unfolding decompose_to_sd decompose_from
decompose_run = refl

decompose_to_sd_sound_example :
    (value (decompose_to_sd 1_240_000).0 + (decompose_to_sd 1_240_000).1 ≡ 1_240_000)
    × ((decompose_to_sd 1_240_000).1 < 120000)
    × All IsSdDigit (decompose_to_sd 1_240_000).0
    × (outputs (decompose_to_sd 1_240_000).0 ≤ 99)
decompose_to_sd_sound_example = decompose_to_sd_sound 1_240_000 (omega arith)

abbrev two_notes : List ℕ
two_notes = 700_000 ∷ 900_000 ∷ []

two_notes-sum : sum (spent two_notes) ≡ 1_600_000
unfolding sort_desc insert_desc
two_notes-sum = refl

plan_split_sound_example :
    (plan : Option SplitPlan) × (plan_split two_notes ≡ some plan)
    × IsPlanFor (spent two_notes) plan
plan_split_sound_example = plan_split_sound two_notes (omega (arith, two_notes-sum))
