-- ===== src/Sync/Windows.antt =====
-- The walk over one transparent address's history in windows: walk_windows and sync_address_range of
-- rust/rlz/src/sync.rs, and advance_backfilled_height of rust/rlz/src/db.rs. What the server, the
-- clock and the database answer to each window is the event of a trace.
use zcash_sdk_kmp.Base.{
  ℕ, ◌+◌, ◌-◌, ◌/◌, min, max, Bool, true, false, ◌&&◌, ◌||◌, Option, none, some, List, [], ◌∷◌,
  ◌++◌, ltb, leb, ◌==◌, if◌then◌else◌, saturating_add, u32_max,
}
pub mod Coverage
pub mod Ends
pub mod Seam
pub mod GivesUp
pub mod Finishes

pub data BackfillError : Type 0 where
  fetch : BackfillError
  db : BackfillError
  timeout : ℕ → ℕ → BackfillError
  window_full : BackfillError
  cancelled : BackfillError

-- How one window's attempt ends: it is ingested and the marker is written, its ingestion fails, the
-- deadline passes, or it is ingested and the write of the marker fails.
pub data Attempt : Type 0 where
  ingested : Attempt
  failed : BackfillError → Attempt
  elapsed : Attempt
  unmarked : Attempt

abbrev pub min_backfill_window : ℕ
min_backfill_window = 1_000

-- `COALESCE(backfilled_height + 1, 0)`.
abbrev pub next_uncovered : Option ℕ → ℕ
next_uncovered none = 0
next_uncovered (some m) = m + 1

abbrev pub is_below : Option ℕ → ℕ → Bool
is_below none through = true
is_below (some m) through = ltb m through

-- The marker of an address's row after the update.
unfoldable pub advance_backfilled_height : ℕ → ℕ → ℕ → Option ℕ → Option ℕ
advance_backfilled_height birth_height covered_from through marker =
    if leb covered_from (max (next_uncovered marker) birth_height) && is_below marker through
    then some through
    else marker

-- The variables of the walk, the marker in the database, and the windows that were ingested.
pub record Walk : Type 0 where
  pub lo : ℕ
  pub window : ℕ
  pub marker_lo : ℕ
  pub marker : Option ℕ
  pub windows : List (ℕ × ℕ)

pub data Error : Type 0 where
  backfill : BackfillError → Error
  store : Error
  reorganised : Error
  anchor_read : Error

pub data End : Type 0 where
  finished : End
  error : Error → End
  waiting : End

pub data Step : Type 0 where
  next : Walk → Step
  stop : Walk → End → Step

abbrev pub is_narrowed_for : BackfillError → Bool
is_narrowed_for fetch = true
is_narrowed_for db = false
is_narrowed_for (timeout _ _) = true
is_narrowed_for window_full = true
is_narrowed_for cancelled = false

unfoldable pub narrow : BackfillError → Walk → Step
narrow e w =
    if is_narrowed_for e && ltb min_backfill_window w.window
    then next (record {
      lo = w.lo;
      window = max (w.window / 2) min_backfill_window;
      marker_lo = w.marker_lo;
      marker = w.marker;
      windows = w.windows;
    })
    else stop w (error (backfill e))

abbrev pub hi_of : ℕ → Walk → ℕ
hi_of end_height w = min (saturating_add u32_max w.lo (w.window - 1)) end_height

-- An ingested window whose marker is written.
unfoldable pub cover : ℕ → ℕ → Walk → Walk
cover birth_height hi w = record {
  lo = hi + 1;
  window = w.window;
  marker_lo = hi + 1;
  marker = advance_backfilled_height birth_height w.marker_lo hi w.marker;
  windows = w.windows ++ (w.lo, hi) ∷ [];
}

unfoldable pub step : ℕ → ℕ → Attempt → Walk → Step
step birth_height end_height ingested w =
    let hi = hi_of end_height w in
    let w' = cover birth_height hi w in if hi == end_height then stop w' finished else next w'
step birth_height end_height (failed e) w = narrow e w
step birth_height end_height elapsed w = narrow (timeout w.lo (hi_of end_height w)) w
step birth_height end_height unmarked w =
    stop
      (record {
        lo = w.lo;
        window = w.window;
        marker_lo = w.marker_lo;
        marker = w.marker;
        windows = w.windows ++ (w.lo, hi_of end_height w) ∷ [];
      })
      (error store)

unfoldable pub walk_from : ℕ → ℕ → List Attempt → Walk → Walk × End
walk_from birth_height end_height [] w = if leb w.lo end_height then (w, waiting) else (w, finished)
walk_from birth_height end_height (a ∷ rest) w =
    let after : Walk × End = elim (step birth_height end_height a w) [
      | next w' ↦ walk_from birth_height end_height rest w'
      | stop w' e ↦ (w', e)
    ] in
    if leb w.lo end_height then after else (w, finished)

abbrev pub init : ℕ → ℕ → Option ℕ → Walk
init lo end_height marker = record {
  lo = lo;
  window = saturating_add u32_max (end_height - lo) 1;
  marker_lo = lo;
  marker = marker;
  windows = [];
}

unfoldable pub walk_windows : ℕ → ℕ → ℕ → Option ℕ → List Attempt → Walk × End
walk_windows birth_height lo end_height marker trace =
    walk_from birth_height end_height trace (init lo end_height marker)

-- The second read of the anchor: it fails, or gives the hash of the first or another.
pub data AnchorRead : Type 0 where
  unread : AnchorRead
  same : AnchorRead
  different : AnchorRead

-- What is committed at the end: the marker and the windows.
pub record Range : Type 0 where
  pub marker : Option ℕ
  pub windows : List (ℕ × ℕ)
  pub end : End

abbrev pub walk_above : ℕ → ℕ → ℕ → Option ℕ → List (ℕ × ℕ) → List Attempt → Range
walk_above birth_height lo end_height marker windows above =
    let r = walk_windows birth_height lo end_height marker above in
    record { marker = r.0.marker; windows = windows ++ r.0.windows; end = r.1 }

abbrev rolled_back : Option ℕ → End → Range
rolled_back marker e = record { marker = marker; windows = []; end = e }

-- The transaction below the seam, and the walk above it when that is committed.
unfoldable pub commit_below : ℕ → ℕ → ℕ → Option ℕ → AnchorRead → List Attempt → Walk × End → Range
commit_below birth_height lo end_height marker unread above (w, finished) =
    rolled_back marker (error anchor_read)
commit_below birth_height lo end_height marker different above (w, finished) =
    rolled_back marker (error reorganised)
commit_below birth_height lo end_height marker same above (w, finished) =
    walk_above birth_height lo end_height w.marker w.windows above
commit_below birth_height lo end_height marker anchor above (w, error e) =
    rolled_back marker (error e)
commit_below birth_height lo end_height marker anchor above (w, waiting) =
    rolled_back marker waiting

abbrev pub range_start : ℕ → Option ℕ → ℕ → ℕ
range_start birth_height none start_height = max start_height birth_height
range_start birth_height (some m) start_height = max (min start_height (m + 1)) birth_height

unfoldable pub sync_address_range :
    ℕ → Option ℕ → ℕ → ℕ → ℕ → List Attempt → AnchorRead → List Attempt → Range
sync_address_range birth_height marker start_height seam end_height below anchor above =
    let lo = range_start birth_height marker start_height in
    let lo' = max lo (seam + 1) in
    if leb lo seam
    then commit_below birth_height lo' end_height marker anchor above
        (walk_windows birth_height lo seam marker below)
    else walk_above birth_height lo' end_height marker [] above
