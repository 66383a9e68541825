-- ===== src/Tests/Sync.antt =====
-- Walks over an account born at 100 whose marker is at 150.
use zcash_sdk_kmp.Base.{
  length-replicate, ◌≤◌, ◌⊎◌, ◌<◌, ◌≡◌, ◌≢◌, refl, some, List, [], ◌∷◌, arith, replicate,
}
use zcash_sdk_kmp.Sync.Windows.{
  Attempt, ingested, failed, elapsed, fetch, timeout, cancelled, error, backfill, finished, waiting,
  walk_windows, walk_from, step, narrow, cover, advance_backfilled_height, sync_address_range,
  commit_below, same, different, reorganised, next_uncovered,
}
use zcash_sdk_kmp.Sync.Windows.Ends.{walk_windows_ends}
use zcash_sdk_kmp.Sync.Windows.Coverage.{IsIngested}
use zcash_sdk_kmp.Sync.Windows.Seam.{sync_address_range-IsIngested}
use zcash_sdk_kmp.Sync.Windows.Finishes.{walk_windows_finishes}
use zcash_sdk_kmp.Sync.Windows.GivesUp.{walk_windows_gives_up}

-- A failure, and then two windows of half the range.
abbrev halved : List Attempt
halved = failed fetch ∷ ingested ∷ ingested ∷ []

covers_in_two : walk_windows 100 151 3150 (some 150) halved ≡ (
  record {
    lo = 3151;
    window = 1_500;
    marker_lo = 3151;
    marker = some 3150;
    windows = (151, 1650) ∷ (1651, 3150) ∷ [];
  },
  finished,
)
unfolding walk_windows walk_from step narrow cover advance_backfilled_height
covers_in_two = refl

-- From the third failure on the window is at the floor.
abbrev failing : List Attempt
failing = elapsed ∷ elapsed ∷ elapsed ∷ []

gives_up_at_the_floor :
    (walk_windows 100 151 3150 (some 150) failing).1 ≡ error (backfill (timeout 151 1150))
unfolding walk_windows walk_from step narrow
gives_up_at_the_floor = refl

walk_windows_ends_example :
    (walk_windows 100 151 160 (some 150) (replicate 20 (failed cancelled))).1 ≢ waiting
walk_windows_ends_example =
    walk_windows_ends 100 151 160 (some 150) (replicate 20 (failed cancelled)) (omega arith)
      (omega arith)

walk_windows_gives_up_example :
    let r = walk_windows 100 151 3150 (some 150) failing in
    (1_000 ≤ r.0.window) × (r.0.window ≤ 1_000)
unfolding walk_windows walk_from step narrow
walk_windows_gives_up_example =
    walk_windows_gives_up 100 151 3150 (some 150) failing (timeout 151 1150) refl refl

-- The pool is at 160 and the chain at 170: the row catches up below the seam first.
abbrev one : List Attempt
one = ingested ∷ []

catches_up :
    sync_address_range 100 (some 150) 161 160 170 one same one
    ≡ record { marker = some 170; windows = (151, 160) ∷ (161, 170) ∷ []; end = finished }
unfolding sync_address_range commit_below walk_windows walk_from step cover
    advance_backfilled_height
catches_up = refl

rolls_back :
    sync_address_range 100 (some 150) 161 160 170 one different one
    ≡ record { marker = some 150; windows = []; end = error reorganised }
unfolding sync_address_range commit_below walk_windows walk_from step cover
    advance_backfilled_height
rolls_back = refl

sync_address_range-IsIngested_example :
    let r = sync_address_range 100 (some 150) 161 160 170 one same one in
    (151 ≤ next_uncovered r.marker)
    × ((165 < 100) ⊎ ((165 < 151) ⊎ ((next_uncovered r.marker ≤ 165) ⊎ IsIngested 165 r.windows)))
sync_address_range-IsIngested_example =
    sync_address_range-IsIngested 100 161 160 170 (some 150) one same one 165 (omega arith)
      (omega arith) (omega arith) (omega arith) (λ e. cc)

-- The whole range of 1,200 heights times out, and its two windows are ingested.
abbrev served : List Attempt
served = elapsed ∷ ingested ∷ ingested ∷ replicate 2397 ingested

walk_windows_finishes_example :
    let r = walk_windows 100 151 1350 (some 150) served in
    (r.1 ≡ finished) × (1350 < next_uncovered r.0.marker)
unfolding step narrow cover
walk_windows_finishes_example =
    walk_windows_finishes 100 151 1350 (some 150) served (omega arith) (omega arith) (omega arith)
      (omega arith, (tt, (tt, tt))) (omega (arith, length-replicate 2397 ingested))
