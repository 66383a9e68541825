-- ===== src/Sync/Windows/Finishes.antt =====
-- A walk against a server that answers narrow windows.
use zcash_sdk_kmp.Base.{
  ℕ, ◌+◌, ◌-◌, ◌*◌, ◌≤◌, ◌<◌, ◌≡◌, ◌⊎◌, refl, max, true, Option, List, [], ◌∷◌, length, lt→ltb, leb,
  ◌==◌, u32_max, inl, inr, Bool-cases,
}
use zcash_sdk_kmp.Sync.Windows.{
  Attempt, ingested, failed, elapsed, unmarked, BackfillError, Walk, End, finished, waiting, Step,
  next, stop, is_narrowed_for, min_backfill_window, narrow, hi_of, next_uncovered, step, walk_from,
  init, walk_windows,
}
use zcash_sdk_kmp.Sync.Windows.Ends.{walk_windows_ends}
use zcash_sdk_kmp.Sync.Windows.Coverage.{walk_windows-Covers}

-- An attempt that is ingested, or that fails in a way a narrower window might avoid while the window
-- is above the floor.
abbrev pub IsServed : Walk → Attempt → Type 0
IsServed w ingested = Unit
IsServed w (failed e) = (is_narrowed_for e ≡ true) × (min_backfill_window < w.window)
IsServed w elapsed = min_backfill_window < w.window
IsServed w unmarked = ⊥

-- Each attempt of a trace is so, where the walk makes it.
abbrev pub AreServed : ℕ → ℕ → List Attempt → Walk → Type 0
AreServed birth_height end_height [] w = Unit
AreServed birth_height end_height (a ∷ rest) w =
    IsServed w a × elim (step birth_height end_height a w) as (λ _. Type 0) [
      | next w' ↦ AreServed birth_height end_height rest w'
      | stop w' e ↦ Unit
    ]

-- A step that does not stop with an error.
abbrev IsFine : Step → Type 0
IsFine (next w) = Unit
IsFine (stop w e) = e ≡ finished

narrow-IsFine :
    (e : BackfillError) (w : Walk)
    → is_narrowed_for e ≡ true
    → min_backfill_window < w.window
    → IsFine (narrow e w)
unfolding narrow
narrow-IsFine e w n h = rw (n, lt→ltb min_backfill_window w.window h) tt

step-IsFine :
    (birth_height end_height : ℕ) (a : Attempt) (w : Walk)
    → IsServed w a
    → IsFine (step birth_height end_height a w)
unfolding step
step-IsFine birth_height end_height ingested w s =
    elim (Bool-cases (hi_of end_height w == end_height)) [ inl t ↦ rw t refl | inr f ↦ rw f tt ]
step-IsFine birth_height end_height (failed e) w s = narrow-IsFine e w s.0 s.1
step-IsFine birth_height end_height elapsed w s = narrow-IsFine _ w refl s
step-IsFine birth_height end_height unmarked w s = absurd s

walk_from_served :
    (birth_height end_height : ℕ) (trace : List Attempt) (w : Walk)
    → AreServed birth_height end_height trace w
    → let r = walk_from birth_height end_height trace w in (r.1 ≡ finished) ⊎ (r.1 ≡ waiting)
unfolding walk_from
walk_from_served birth_height end_height [] w s = elim (Bool-cases (leb w.lo end_height)) [
  | inl t ↦ rw t (inr refl)
  | inr f ↦ rw f (inl refl)
]
walk_from_served birth_height end_height (a ∷ rest) w s = elim (Bool-cases (leb w.lo end_height)) [
  | inl t ↦ rw t (
      go (walk_from_served birth_height end_height rest) (step birth_height end_height a w)
        (step-IsFine birth_height end_height a w s.0) s.1)
  | inr f ↦ rw f (inl refl)
]
  where
    after : Step → Walk × End
    after (next w') = walk_from birth_height end_height rest w'
    after (stop w' e) = (w', e)

    go :
        ((w' : Walk)
          → AreServed birth_height end_height rest w'
          → let r = walk_from birth_height end_height rest w' in (r.1 ≡ finished) ⊎ (r.1 ≡ waiting))
        → (p : Step) → IsFine p
        → elim p as (λ _. Type 0) [
          | next w' ↦ AreServed birth_height end_height rest w'
          | stop w' e ↦ Unit
        ]
        → ((after p).1 ≡ finished) ⊎ ((after p).1 ≡ waiting)
    go k (next w') f s = k w' s
    go k (stop w' e) f s = inl f

-- A walk that starts no higher than birth or the first height that the marker leaves uncovered
-- finishes, and its marker then covers the end of the range, when the server and the database serve
-- every window of at most 1,000 heights, whatever wider ones are answered with that a narrower window
-- might avoid, and there are twice as many attempts as the range has heights, and two more. The
-- start is at most the end, which fits a u32.
pub walk_windows_finishes :
    (birth_height lo end_height : ℕ) (marker : Option ℕ) (trace : List Attempt)
    → end_height ≤ u32_max
    → lo ≤ end_height
    → lo ≤ max (next_uncovered marker) birth_height
    → AreServed birth_height end_height trace (init lo end_height marker)
    → 2 * (end_height - lo) + 2 ≤ length trace
    → let r = walk_windows birth_height lo end_height marker trace in
      (r.1 ≡ finished) × (end_height < next_uncovered r.0.marker)
unfolding walk_windows
walk_windows_finishes birth_height lo end_height marker trace u h c s n =
    elim (walk_from_served birth_height end_height trace (init lo end_height marker) s) [
      | inl e ↦ (e, (walk_windows-Covers birth_height lo end_height marker trace u h c).2 e)
      | inr e ↦ absurd (walk_windows_ends birth_height lo end_height marker trace u n e)
    ]
