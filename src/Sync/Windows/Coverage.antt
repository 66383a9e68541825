-- ===== src/Sync/Windows/Coverage.antt =====
-- The marker of a walk follows the windows that were ingested.
use zcash_sdk_kmp.Base.{
  ℕ, ◌+◌, ◌≤◌, ◌<◌, ◌≡◌, refl, subst, max, true, false, ◌&&◌, ◌⊎◌, Option, none, some, List, [],
  ◌∷◌, ◌++◌, ltb, le→leb, ◌==◌, u32_max, arith, inl, inr, Bool-cases,
}
use zcash_sdk_kmp.Sync.Windows.{
  Attempt, ingested, failed, elapsed, unmarked, BackfillError, Walk, End, finished, Step, next,
  stop, is_narrowed_for, min_backfill_window, narrow, hi_of, cover, next_uncovered,
  advance_backfilled_height, step, walk_from, init, walk_windows,
}
use zcash_sdk_kmp.Sync.Windows.Ends.{hi_of_bounds}

-- A height that one of the windows has.
abbrev pub IsIngested : ℕ → List (ℕ × ℕ) → Type 0
IsIngested h [] = ⊥
IsIngested h (w ∷ ws) = ((w.0 ≤ h) × (h ≤ w.1)) ⊎ IsIngested h ws

pub IsIngested-append_left :
    (h : ℕ) (ws vs : List (ℕ × ℕ)) → IsIngested h ws → IsIngested h (ws ++ vs)
IsIngested-append_left h [] vs i = absurd i
IsIngested-append_left h (w ∷ ws) vs (inl i) = inl i
IsIngested-append_left h (w ∷ ws) vs (inr i) = inr (IsIngested-append_left h ws vs i)

pub IsIngested-append_right :
    (h : ℕ) (ws vs : List (ℕ × ℕ)) → IsIngested h vs → IsIngested h (ws ++ vs)
IsIngested-append_right h [] vs i = i
IsIngested-append_right h (w ∷ ws) vs i = inr (IsIngested-append_right h ws vs i)

-- A contiguous update moves the marker to the window's end, and never back.
pub advance_backfilled_height-next_uncovered :
    (birth_height covered_from through : ℕ) (o : Option ℕ)
    → covered_from ≤ max (next_uncovered o) birth_height
    → next_uncovered (advance_backfilled_height birth_height covered_from through o)
      ≡ max (next_uncovered o) (through + 1)
unfolding advance_backfilled_height
advance_backfilled_height-next_uncovered birth_height covered_from through none h =
    ground (arith, h)
advance_backfilled_height-next_uncovered birth_height covered_from through (some m) h =
    ground (arith, h)

in_window :
    (lo covered birth_height hi h : ℕ)
    → lo ≤ max covered birth_height
    → birth_height ≤ h
    → ltb h covered ≡ false
    → h < max covered (hi + 1)
    → (lo ≤ h) × (h ≤ hi)
in_window lo covered birth_height hi h c b f k = ground (arith, c, b, f, k)

module _ (birth_height end_height : ℕ) (u : end_height ≤ u32_max) (o : Option ℕ) where
  -- Every height since birth that the marker covers and did not before was ingested.
  pub record Covers (w : Walk) : Type 0 where
    pub grows : next_uncovered o ≤ next_uncovered w.marker
    pub sound :
        (h : ℕ)
        → birth_height ≤ h
        → next_uncovered o ≤ h
        → h < next_uncovered w.marker
        → IsIngested h w.windows

  -- A walk between two windows: the next one is contiguous with the marker.
  record Inv (w : Walk) : Type 0 where
    pub covers : Covers w
    pub lo : w.marker_lo ≡ w.lo
    pub contiguous : w.lo ≤ max (next_uncovered w.marker) birth_height
    pub room : w.lo ≤ end_height

  -- What holds of a step's outcome, and of a walk's.
  abbrev Stopped : Walk → End → Type 0
  Stopped w e = Covers w × (e ≡ finished → end_height < next_uncovered w.marker)

  abbrev Stepped : Step → Type 0
  Stepped (next w) = Inv w
  Stepped (stop w e) = Stopped w e

  cover-next_uncovered :
      (w : Walk)
      → Inv w
      → next_uncovered (cover birth_height (hi_of end_height w) w).marker
        ≡ max (next_uncovered w.marker) (hi_of end_height w + 1)
  unfolding cover
  cover-next_uncovered w v =
      advance_backfilled_height-next_uncovered birth_height w.marker_lo (hi_of end_height w)
        w.marker (rw v.lo v.contiguous)

  cover-Covers : (w : Walk) → Inv w → Covers (cover birth_height (hi_of end_height w) w)
  unfolding cover
  cover-Covers w v =
      let hi = hi_of end_height w in
      let e = cover-next_uncovered w v in
      record {
        grows = omega (arith, v.covers.grows, e);
        sound = λ h b n k. elim (Bool-cases (ltb h (next_uncovered w.marker))) [
          | inl t ↦ IsIngested-append_left h w.windows _ (v.covers.sound h b n (ground arith))
          | inr f ↦ IsIngested-append_right h w.windows _ (
              inl (
                in_window w.lo (next_uncovered w.marker) birth_height hi h v.contiguous b f
                  (subst (λ x. h < x) e k)))
        ];
      }

  cover-Inv :
      (w : Walk)
      → Inv w
      → (hi_of end_height w == end_height) ≡ false
      → Inv (cover birth_height (hi_of end_height w) w)
  unfolding cover
  cover-Inv w v f =
      let hi = hi_of end_height w in
      let b = hi_of_bounds end_height w v.room u in
      record {
        covers = cover-Covers w v;
        lo = refl;
        contiguous = rw (cover-next_uncovered w v) (reaches hi (next_uncovered w.marker));
        room = below hi f b.1;
      }
    where
      reaches : (hi covered : ℕ) → hi + 1 ≤ max (max covered (hi + 1)) birth_height
      reaches hi covered = ground arith

      below : (hi : ℕ) → (hi == end_height) ≡ false → hi ≤ end_height → hi + 1 ≤ end_height
      below hi f b = ground (arith, f, b)

  narrow-Stepped : (e : BackfillError) (w : Walk) → Inv w → Stepped (narrow e w)
  unfolding narrow
  narrow-Stepped e w v = elim (Bool-cases (is_narrowed_for e && ltb min_backfill_window w.window)) [
    | inl t ↦ rw t (record {
      covers = record { grows = v.covers.grows; sound = v.covers.sound };
      lo = v.lo;
      contiguous = v.contiguous;
      room = v.room;
    })
    | inr f ↦ rw f (v.covers, λ h. cc)
  ]

  step-Stepped : (a : Attempt) (w : Walk) → Inv w → Stepped (step birth_height end_height a w)
  unfolding step
  step-Stepped ingested w v =
      let hi = hi_of end_height w in
      let e = cover-next_uncovered w v in
      elim (Bool-cases (hi == end_height)) [
        | inl t ↦ rw t (cover-Covers w v, λ h. ends hi (next_uncovered w.marker) _ t e)
        | inr f ↦ rw f (cover-Inv w v f)
      ]
    where
      ends :
          (hi covered after : ℕ)
          → (hi == end_height) ≡ true
          → after ≡ max covered (hi + 1)
          → end_height < after
      ends hi covered after t e = ground (arith, t, e)
  step-Stepped (failed e) w v = narrow-Stepped e w v
  step-Stepped elapsed w v = narrow-Stepped _ w v
  step-Stepped unmarked w v = (
    record {
      grows = v.covers.grows;
      sound = λ h b n k. IsIngested-append_left h w.windows _ (v.covers.sound h b n k);
    },
    λ h. cc,
  )

  walk_from-Stopped :
      (trace : List Attempt) (w : Walk)
      → Inv w
      → let r = walk_from birth_height end_height trace w in Stopped r.0 r.1
  unfolding walk_from
  walk_from-Stopped [] w v = rw (le→leb w.lo end_height v.room) (v.covers, λ h. cc)
  walk_from-Stopped (a ∷ rest) w v =
      rw (le→leb w.lo end_height v.room)
        (go (walk_from-Stopped rest) (step birth_height end_height a w) (step-Stepped a w v))
    where
      after : Step → Walk × End
      after (next w') = walk_from birth_height end_height rest w'
      after (stop w' e) = (w', e)

      go :
          ((w' : Walk)
            → Inv w'
            → let r = walk_from birth_height end_height rest w' in Stopped r.0 r.1)
          → (s : Step) → Stepped s
          → Stopped (after s).0 (after s).1
      go k (next w') v = k w' v
      go k (stop w' e) v = v

-- What holds of a walk that starts no later than one past the marker, or at birth.
pub walk_windows-Covers :
    (birth_height lo end_height : ℕ) (marker : Option ℕ) (trace : List Attempt)
    → end_height ≤ u32_max
    → lo ≤ end_height
    → lo ≤ max (next_uncovered marker) birth_height
    → let r = walk_windows birth_height lo end_height marker trace in
      (next_uncovered marker ≤ next_uncovered r.0.marker)
      × ((h : ℕ)
          → birth_height ≤ h
          → next_uncovered marker ≤ h
          → h < next_uncovered r.0.marker
          → IsIngested h r.0.windows)
      × (r.1 ≡ finished → end_height < next_uncovered r.0.marker)
unfolding walk_windows
walk_windows-Covers birth_height lo end_height marker trace u h c =
    let start : Inv birth_height end_height u marker (init lo end_height marker) = record {
      covers = record { grows = omega arith; sound = λ h b n k. absurd (omega (arith, n, k)) };
      lo = refl;
      contiguous = c;
      room = h;
    } in
    let s = walk_from-Stopped birth_height end_height u marker trace _ start in
    (s.0.grows, s.0.sound, s.1)
