-- ===== src/Sync/Windows/Seam.antt =====
-- One address's range: the part below the seam, and the part above it.
use zcash_sdk_kmp.Base.{
  ℕ, ◌+◌, ◌≤◌, ◌<◌, ◌≡◌, refl, max, false, Option, none, some, List, [], ◌++◌, ltb, leb, leb→le,
  u32_max, arith, inl, inr, ◌⊎◌, Bool-cases,
}
use zcash_sdk_kmp.Sync.Windows.{
  Attempt, Walk, End, finished, error, waiting, next_uncovered, AnchorRead, unread, same, different,
  Range, walk_above, commit_below, range_start, sync_address_range,
}
use zcash_sdk_kmp.Sync.Windows.Coverage.{
  IsIngested, IsIngested-append_left, IsIngested-append_right, walk_windows-Covers,
}

-- From one marker to another, with the windows between.
abbrev Spans : ℕ → Option ℕ → Option ℕ → List (ℕ × ℕ) → Type 0
Spans birth_height o o' windows =
    (next_uncovered o ≤ next_uncovered o')
    × ((h : ℕ)
        → birth_height ≤ h
        → next_uncovered o ≤ h
        → h < next_uncovered o'
        → IsIngested h windows)

Spans-trans :
    (birth_height : ℕ) (o m o' : Option ℕ) (ws vs : List (ℕ × ℕ))
    → Spans birth_height o m ws
    → Spans birth_height m o' vs
    → Spans birth_height o o' (ws ++ vs)
Spans-trans birth_height o m o' ws vs p q = (
  omega (arith, p.0, q.0),
  λ h b n k. elim (Bool-cases (ltb h (next_uncovered m))) [
    | inl t ↦ IsIngested-append_left h ws vs (p.1 h b n (ground (arith, t)))
    | inr f ↦ IsIngested-append_right h ws vs (q.1 h b (ground (arith, f)) k)
  ],
)

Spans-refl : (birth_height : ℕ) (o : Option ℕ) → Spans birth_height o o []
Spans-refl birth_height o = (omega arith, λ h b n k. absurd (omega (arith, n, k)))

-- What holds of a range's result.
abbrev Synced : ℕ → ℕ → Option ℕ → Range → Type 0
Synced birth_height end_height o r =
    Spans birth_height o r.marker r.windows
    × (r.end ≡ finished → end_height < next_uncovered r.marker)

walk_above-Synced :
    (birth_height lo end_height : ℕ) (o m : Option ℕ) (ws : List (ℕ × ℕ)) (above : List Attempt)
    → end_height ≤ u32_max
    → lo ≤ end_height
    → lo ≤ max (next_uncovered m) birth_height
    → Spans birth_height o m ws
    → Synced birth_height end_height o (walk_above birth_height lo end_height m ws above)
walk_above-Synced birth_height lo end_height o m ws above u h c p =
    let v = walk_windows-Covers birth_height lo end_height m above u h c in
    (Spans-trans birth_height o m _ ws _ p (v.0, v.1), v.2)

rolled_back-Synced :
    (birth_height end_height : ℕ) (o : Option ℕ) (e : End)
    → (e ≡ finished → ⊥)
    → Synced birth_height end_height o (record { marker = o; windows = []; end = e })
rolled_back-Synced birth_height end_height o e h = (Spans-refl birth_height o, λ k. absurd (h k))

commit_below-Synced :
    (birth_height lo end_height : ℕ) (o : Option ℕ) (anchor : AnchorRead) (above : List Attempt)
    (r : Walk × End)
    → end_height ≤ u32_max
    → lo ≤ end_height
    → Spans birth_height o r.0.marker r.0.windows
    → (r.1 ≡ finished → lo ≤ max (next_uncovered r.0.marker) birth_height)
    → Synced birth_height end_height o (commit_below birth_height lo end_height o anchor above r)
unfolding commit_below
commit_below-Synced birth_height lo end_height o unread above (w, finished) u h p c =
    rolled_back-Synced birth_height end_height o _ (λ k. cc)
commit_below-Synced birth_height lo end_height o different above (w, finished) u h p c =
    rolled_back-Synced birth_height end_height o _ (λ k. cc)
commit_below-Synced birth_height lo end_height o same above (w, finished) u h p c =
    walk_above-Synced birth_height lo end_height o w.marker w.windows above u h (c refl) p
commit_below-Synced birth_height lo end_height o unread above (w, error e) u h p c =
    rolled_back-Synced birth_height end_height o _ (λ k. cc)
commit_below-Synced birth_height lo end_height o different above (w, error e) u h p c =
    rolled_back-Synced birth_height end_height o _ (λ k. cc)
commit_below-Synced birth_height lo end_height o same above (w, error e) u h p c =
    rolled_back-Synced birth_height end_height o _ (λ k. cc)
commit_below-Synced birth_height lo end_height o unread above (w, waiting) u h p c =
    rolled_back-Synced birth_height end_height o _ (λ k. cc)
commit_below-Synced birth_height lo end_height o different above (w, waiting) u h p c =
    rolled_back-Synced birth_height end_height o _ (λ k. cc)
commit_below-Synced birth_height lo end_height o same above (w, waiting) u h p c =
    rolled_back-Synced birth_height end_height o _ (λ k. cc)

range_start-contiguous :
    (birth_height start_height end_height : ℕ) (o : Option ℕ)
    → (o ≡ none → start_height ≤ birth_height)
    → start_height ≤ end_height
    → birth_height ≤ end_height
    → (range_start birth_height o start_height ≤ max (next_uncovered o) birth_height)
      × (range_start birth_height o start_height ≤ end_height)
range_start-contiguous birth_height start_height end_height none n s b =
    let below = n refl in ground (arith, below, s, b)
range_start-contiguous birth_height start_height end_height (some m) n s b = ground (arith, s, b)

-- The whole of a range.
sync_address_range-Synced :
    (birth_height start_height seam end_height : ℕ) (marker : Option ℕ) (below : List Attempt)
    (anchor : AnchorRead) (above : List Attempt)
    → end_height ≤ u32_max
    → start_height ≤ end_height
    → birth_height ≤ end_height
    → seam < end_height
    → (marker ≡ none → start_height ≤ birth_height)
    → Synced birth_height end_height marker
        (sync_address_range birth_height marker start_height seam end_height below anchor above)
unfolding sync_address_range
sync_address_range-Synced birth_height start_height seam end_height marker below anchor above u s b
      d n =
    let lo = range_start birth_height marker start_height in
    let c = range_start-contiguous birth_height start_height end_height marker n s b in
    let fits : max lo (seam + 1) ≤ end_height = omega (arith, c.1, d) in
    elim (Bool-cases (leb lo seam)) [
      | inl t ↦
          let v =
            walk_windows-Covers birth_height lo seam marker below (omega (arith, d, u))
              (leb→le lo seam t) c.0 in
          rw t (
            commit_below-Synced birth_height (max lo (seam + 1)) end_height marker anchor above _ u
              fits (v.0, v.1) (λ e. reaches lo (leb→le lo seam t) _ (v.2 e)))
      | inr f ↦ rw f (
          walk_above-Synced birth_height (max lo (seam + 1)) end_height marker marker [] above u
            fits (passes lo f _ c.0) (Spans-refl birth_height marker))
    ]
  where
    reaches :
        (lo : ℕ)
        → lo ≤ seam
        → (covered : ℕ) → seam < covered
        → max lo (seam + 1) ≤ max covered birth_height
    reaches lo l covered c = omega (arith, l, c)

    passes : (lo : ℕ) → leb lo seam ≡ false → (most : ℕ) → lo ≤ most → max lo (seam + 1) ≤ most
    passes lo f most c = ground (arith, f, c)

-- However the synchronization of an address's range ends, the marker that is committed covers no less
-- than the one before, and every height is below birth, was covered before, is left uncovered, or
-- lies in a window that was ingested and committed. The end fits a u32, the start and birth are at most
-- the end, the seam is below it, and an address without a marker starts no later than birth.
pub sync_address_range-IsIngested :
    (birth_height start_height seam end_height : ℕ) (marker : Option ℕ) (below : List Attempt)
    (anchor : AnchorRead) (above : List Attempt) (h : ℕ)
    → end_height ≤ u32_max
    → start_height ≤ end_height
    → birth_height ≤ end_height
    → seam < end_height
    → (marker ≡ none → start_height ≤ birth_height)
    → let r =
        sync_address_range birth_height marker start_height seam end_height below anchor above in
      (next_uncovered marker ≤ next_uncovered r.marker)
      × ((h < birth_height)
          ⊎ ((h < next_uncovered marker)
              ⊎ ((next_uncovered r.marker ≤ h) ⊎ IsIngested h r.windows)))
sync_address_range-IsIngested birth_height start_height seam end_height marker below anchor above h
      u s b d n =
    let r =
      sync_address_range birth_height marker start_height seam end_height below anchor above in
    let v =
      sync_address_range-Synced birth_height start_height seam end_height marker below anchor above
        u s b d n in
    (v.0.0, cases (next_uncovered r.marker) r.windows v.0.1)
  where
    cases :
        (next : ℕ) (windows : List (ℕ × ℕ))
        → ((h : ℕ) → birth_height ≤ h → next_uncovered marker ≤ h → h < next → IsIngested h windows)
        → (h < birth_height) ⊎ ((h < next_uncovered marker) ⊎ ((next ≤ h) ⊎ IsIngested h windows))
    cases next windows f = elim (Bool-cases (ltb h birth_height)) [
      | inl t ↦ inl (ground (arith, t))
      | inr f1 ↦ elim (Bool-cases (ltb h (next_uncovered marker))) [
        | inl t ↦ inr (inl (ground (arith, t)))
        | inr f2 ↦ elim (Bool-cases (ltb h next)) [
          | inl t ↦
              inr (inr (inr (f h (ground (arith, f1)) (ground (arith, f2)) (ground (arith, t)))))
          | inr f3 ↦ inr (inr (inl (ground (arith, f3))))
        ]
      ]
    ]
