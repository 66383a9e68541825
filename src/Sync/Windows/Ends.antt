-- ===== src/Sync/Windows/Ends.antt =====
-- Every walk ends.
use zcash_sdk_kmp.Base.{
  ℕ, ◌+◌, ◌-◌, ◌/◌, ◌≤◌, ◌<◌, ◌≡◌, ◌≢◌, max, Bool, true, false, ◌&&◌, Option, List, [], ◌∷◌, length,
  ltb, leb, leb→le, ◌*◌, ◌==◌, u32_max, arith, inl, inr, Bool-cases,
}
use zcash_sdk_kmp.Sync.Windows.{
  Attempt, ingested, failed, elapsed, unmarked, BackfillError, Walk, End, waiting, Step, next, stop,
  is_narrowed_for, min_backfill_window, narrow, hi_of, cover, step, walk_from, walk_windows,
}

-- What is left of the range, and the width of the next window.
abbrev measure : ℕ → Walk → ℕ
measure end_height w = (end_height + 1 - w.lo) + w.window

-- A step that goes on has less to do.
abbrev Shrinks : ℕ → Walk → Step → Type 0
Shrinks end_height w (next w') = measure end_height w' < measure end_height w
Shrinks end_height w (stop w' e) = (e ≡ waiting) → ⊥

narrow-Shrinks : (end_height : ℕ) (e : BackfillError) (w : Walk) → Shrinks end_height w (narrow e w)
unfolding narrow
narrow-Shrinks end_height e w =
    elim (Bool-cases (is_narrowed_for e && ltb min_backfill_window w.window)) [
      | inl t ↦ rw t (wide (is_narrowed_for e) t)
      | inr f ↦ rw f (λ h. cc)
    ]
  where
    wide :
        (b : Bool)
        → (b && ltb min_backfill_window w.window) ≡ true
        → (end_height + 1 - w.lo) + max (w.window / 2) min_backfill_window
          < (end_height + 1 - w.lo) + w.window
    wide true h = ground arith
    wide false h = cc

-- A window is not empty and does not pass the end.
pub hi_of_bounds :
    (end_height : ℕ) (w : Walk)
    → w.lo ≤ end_height
    → end_height ≤ u32_max
    → (w.lo ≤ hi_of end_height w) × (hi_of end_height w ≤ end_height)
hi_of_bounds end_height w h u = ground arith

covered :
    (lo window end_height hi : ℕ)
    → (lo ≤ hi) × (hi ≤ end_height)
    → (end_height + 1 - (hi + 1)) + window < (end_height + 1 - lo) + window
covered lo window end_height hi b = omega (arith, b.0, b.1)

step-Shrinks :
    (birth_height end_height : ℕ) (a : Attempt) (w : Walk)
    → w.lo ≤ end_height
    → end_height ≤ u32_max
    → Shrinks end_height w (step birth_height end_height a w)
unfolding step cover
step-Shrinks birth_height end_height ingested w h u =
    elim (Bool-cases (hi_of end_height w == end_height)) [
      | inl t ↦ rw t (λ e. cc)
      | inr f ↦
          rw f
            (covered w.lo w.window end_height (hi_of end_height w) (hi_of_bounds end_height w h u))
    ]
step-Shrinks birth_height end_height (failed e) w h u = narrow-Shrinks end_height e w
step-Shrinks birth_height end_height elapsed w h u = narrow-Shrinks end_height _ w
step-Shrinks birth_height end_height unmarked w h u = λ e. cc

walk_from_ends :
    (birth_height end_height : ℕ) (trace : List Attempt) (w : Walk)
    → end_height ≤ u32_max
    → measure end_height w ≤ length trace
    → (walk_from birth_height end_height trace w).1 ≢ waiting
unfolding walk_from
walk_from_ends birth_height end_height [] w u h =
    let past : leb w.lo end_height ≡ false = ground arith in rw past (λ e. cc)
walk_from_ends birth_height end_height (a ∷ rest) w u h = elim (Bool-cases (leb w.lo end_height)) [
  | inl t ↦ rw t (
      go (walk_from_ends birth_height end_height rest) (step birth_height end_height a w)
        (step-Shrinks birth_height end_height a w (leb→le w.lo end_height t) u))
  | inr f ↦ rw f (λ e. cc)
]
  where
    after : Step → Walk × End
    after (next w') = walk_from birth_height end_height rest w'
    after (stop w' e) = (w', e)

    go :
        ((w' : Walk)
          → end_height ≤ u32_max
          → measure end_height w' ≤ length rest
          → (walk_from birth_height end_height rest w').1 ≢ waiting)
        → (s : Step) → Shrinks end_height w s
        → (after s).1 ≢ waiting
    go k (next w') v = k w' u (omega (arith, v, h))
    go k (stop w' e) v = v

-- A walk over a range of heights that fit in 32 bits has ended after twice as many attempts as the
-- range has heights, and two more, whatever the attempts end with.
pub walk_windows_ends :
    (birth_height lo end_height : ℕ) (marker : Option ℕ) (trace : List Attempt)
    → end_height ≤ u32_max
    → 2 * (end_height - lo) + 2 ≤ length trace
    → (walk_windows birth_height lo end_height marker trace).1 ≢ waiting
unfolding walk_windows
walk_windows_ends birth_height lo end_height marker trace u h =
    walk_from_ends birth_height end_height trace _ u (ground (arith, h))
