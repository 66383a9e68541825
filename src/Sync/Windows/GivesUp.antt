-- ===== src/Sync/Windows/GivesUp.antt =====
-- When a walk gives up on the server.
use zcash_sdk_kmp.Base.{
  ℕ, ◌-◌, ◌≤◌, ◌≡◌, min, Bool, true, false, ◌&&◌, Option, List, [], ◌∷◌, ltb, leb, ◌==◌, arith, inl,
  inr, Bool-cases, saturating_add, u32_max,
}
use zcash_sdk_kmp.Sync.Windows.{
  Attempt, ingested, failed, elapsed, unmarked, BackfillError, Walk, End, error, Step, next, stop,
  backfill, is_narrowed_for, min_backfill_window, narrow, hi_of, cover, step, walk_from, init,
  walk_windows,
}

-- The window of a walk that began with `first` is at the floor or above it.
abbrev IsWide : ℕ → Walk → Type 0
IsWide first w = min first min_backfill_window ≤ w.window

-- A failure that a narrower window might avoid is given up on at the floor.
abbrev Excused : Walk → End → Type 0
Excused w e =
    (b : BackfillError)
    → e ≡ error (backfill b)
    → is_narrowed_for b ≡ true
    → w.window ≤ min_backfill_window

abbrev Stepped : ℕ → Step → Type 0
Stepped first (next w) = IsWide first w
Stepped first (stop w e) = IsWide first w × Excused w e

narrow-Stepped :
    (first : ℕ) (e : BackfillError) (w : Walk) → IsWide first w → Stepped first (narrow e w)
unfolding narrow
narrow-Stepped first e w v =
    elim (Bool-cases (is_narrowed_for e && ltb min_backfill_window w.window)) [
      | inl t ↦ rw t (omega (arith, v))
      | inr f ↦ rw f (v, λ b h n. go (is_narrowed_for e) (same b h n) f)
    ]
  where
    same :
        (b : BackfillError)
        → error (backfill e) ≡ error (backfill b)
        → is_narrowed_for b ≡ true
        → is_narrowed_for e ≡ true
    same b h n = let at : e ≡ b = cc in rw at n

    go :
        (b : Bool)
        → b ≡ true
        → (b && ltb min_backfill_window w.window) ≡ false
        → w.window ≤ min_backfill_window
    go b t f = ground (arith, t, f)

step-Stepped :
    (first birth_height end_height : ℕ) (a : Attempt) (w : Walk)
    → IsWide first w
    → Stepped first (step birth_height end_height a w)
unfolding step cover
step-Stepped first birth_height end_height ingested w v =
    elim (Bool-cases (hi_of end_height w == end_height)) [
      | inl t ↦ rw t (v, λ b h. cc)
      | inr f ↦ rw f v
    ]
step-Stepped first birth_height end_height (failed e) w v = narrow-Stepped first e w v
step-Stepped first birth_height end_height elapsed w v = narrow-Stepped first _ w v
step-Stepped first birth_height end_height unmarked w v = (v, λ b h. cc)

walk_from-Excused :
    (first birth_height end_height : ℕ) (trace : List Attempt) (w : Walk)
    → IsWide first w
    → let r = walk_from birth_height end_height trace w in IsWide first r.0 × Excused r.0 r.1
unfolding walk_from
walk_from-Excused first birth_height end_height [] w v = elim (Bool-cases (leb w.lo end_height)) [
  | inl t ↦ rw t (v, λ b h. cc)
  | inr f ↦ rw f (v, λ b h. cc)
]
walk_from-Excused first birth_height end_height (a ∷ rest) w v =
    elim (Bool-cases (leb w.lo end_height)) [
      | inl t ↦ rw t (
          go (walk_from-Excused first birth_height end_height rest)
            (step birth_height end_height a w) (step-Stepped first birth_height end_height a w v))
      | inr f ↦ rw f (v, λ b h. cc)
    ]
  where
    after : Step → Walk × End
    after (next w') = walk_from birth_height end_height rest w'
    after (stop w' e) = (w', e)

    go :
        ((w' : Walk)
          → IsWide first w'
          → let r = walk_from birth_height end_height rest w' in IsWide first r.0 × Excused r.0 r.1)
        → (s : Step) → Stepped first s
        → IsWide first (after s).0 × Excused (after s).0 (after s).1
    go k (next w') u = k w' u
    go k (stop w' e) u = u

-- A walk that gives up on a request that failed, timed out or brought too much had narrowed its
-- window to at most 1,000 heights, and not below 1,000, or below its whole range when that is less.
pub walk_windows_gives_up :
    (birth_height lo end_height : ℕ) (marker : Option ℕ) (trace : List Attempt) (b : BackfillError)
    → let r = walk_windows birth_height lo end_height marker trace in
      r.1 ≡ error (backfill b)
      → is_narrowed_for b ≡ true
      → (min (saturating_add u32_max (end_height - lo) 1) min_backfill_window ≤ r.0.window)
        × (r.0.window ≤ min_backfill_window)
unfolding walk_windows
walk_windows_gives_up birth_height lo end_height marker trace b e n =
    let v =
      walk_from-Excused (saturating_add u32_max (end_height - lo) 1) birth_height end_height trace
        (init lo end_height marker) (omega arith) in
    (v.0, v.1 b e n)
