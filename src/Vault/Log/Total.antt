-- ===== src/Vault/Log/Total.antt =====
-- The scan of any bytes ends with a list of entries: no read panics, and each round consumes a byte.
use zcash_sdk_kmp.Base.{
  ℕ, zero, suc, ◌<◌, ◌≡◌, refl, List, [], ◌∷◌, ◌++◌, arith, length, take, drop, some, none, ltb,
  length-take, length-drop, Bool-cases, inl, inr,
}
use zcash_sdk_kmp.Base.Partial.{◌>>=◌}
use zcash_sdk_kmp.Vault.Bytes.{Outcome, ok, err, panic}
use zcash_sdk_kmp.Vault.Entry.{LogEntry, read_entry}
use zcash_sdk_kmp.Vault.Log.Safe.{IsSafe, read_entry-IsSafe}
use zcash_sdk_kmp.Vault.Log.{
  Frame, sized, truncated_header, invalid, frame_size, Step, stop, advance, crash, push_entry,
  read_frame, parse_step, parse_from, parse_entries,
}

-- A round that neither panics nor leaves as many bytes as there were.
abbrev pub IsProgress : ℕ → Step → Type 0
IsProgress size stop = Unit
IsProgress size (advance es rest) = length rest < size
IsProgress size crash = ⊥

push_entry-IsProgress :
    (size : ℕ) (o : Outcome LogEntry) (rest : List ℕ)
    → IsSafe o
    → length rest < size
    → IsProgress size (push_entry o rest)
push_entry-IsProgress size (ok e r) rest s h = h
push_entry-IsProgress size (err e) rest s h = h
push_entry-IsProgress size panic rest s h = s

frame_size_pos : (tag size : ℕ) (bs : List ℕ) → frame_size tag bs ≡ sized size → 0 < size
frame_size_pos zero size bs e = ground arith
frame_size_pos (suc zero) size bs e = ground arith
frame_size_pos (suc (suc zero)) size [] e = ground arith
frame_size_pos (suc (suc zero)) size (hi ∷ []) e = ground arith
frame_size_pos (suc (suc zero)) size (hi ∷ lo ∷ bs) e = ground arith
frame_size_pos (suc (suc (suc tag))) size bs e = ground arith

-- The bytes of the frame announce the frame.
frame_size-take :
    (tag size : ℕ) (bs : List ℕ)
    → frame_size tag bs ≡ sized (suc size)
    → frame_size tag (take size bs) ≡ sized (suc size)
frame_size-take zero size bs e = e
frame_size-take (suc zero) size bs e = e
frame_size-take (suc (suc zero)) size [] e = ground arith
frame_size-take (suc (suc zero)) size (hi ∷ []) e = ground arith
frame_size-take (suc (suc zero)) zero (hi ∷ lo ∷ bs) e = ground arith
frame_size-take (suc (suc zero)) (suc zero) (hi ∷ lo ∷ bs) e = ground arith
frame_size-take (suc (suc zero)) (suc (suc size)) (hi ∷ lo ∷ bs) e = e
frame_size-take (suc (suc (suc tag))) size bs e = ground arith

read_frame-IsProgress :
    (tag size : ℕ) (bs : List ℕ)
    → frame_size tag bs ≡ sized size
    → IsProgress (suc (length bs)) (read_frame size (tag ∷ bs))
unfolding read_frame
read_frame-IsProgress tag zero bs e = ground (arith, frame_size_pos tag 0 bs e)
read_frame-IsProgress tag (suc size) bs e =
    elim (Bool-cases (ltb (length (take (suc size) (tag ∷ bs))) (suc size))) [
      | inl short ↦ rw short (omega (arith, length-drop size bs))
      | inr whole ↦ rw whole (
          push_entry-IsProgress (suc (length bs)) (read_entry (tag ∷ take size bs)) (drop size bs)
            (read_entry-IsSafe tag (suc size) (take size bs) (frame_size-take tag size bs e)
              (omega (arith, length-take size bs)))
            (omega (arith, length-drop size bs)))
    ]

parse_step-IsProgress : (bs : List ℕ) → IsProgress (length bs) (parse_step bs)
unfolding parse_step
parse_step-IsProgress [] = tt
parse_step-IsProgress (tag ∷ bs) = by_frame (frame_size tag bs) refl
  where
    by_frame :
        (f : Frame)
        → frame_size tag bs ≡ f
        → IsProgress (suc (length bs)) (elim f [
          | sized size ↦ read_frame size (tag ∷ bs)
          | truncated_header ↦ stop
          | invalid ↦ advance [] bs
        ])
    by_frame (sized size) q = read_frame-IsProgress tag size bs q
    by_frame truncated_header q = tt
    by_frame invalid q = omega arith

parse_from-total :
    (fuel : ℕ) (bs : List ℕ)
    → length bs < fuel
    → (es : List LogEntry) × (parse_from fuel bs ≡ some es)
unfolding parse_from
parse_from-total zero bs h = ground arith
parse_from-total (suc fuel) bs h =
    by_step (λ rest. parse_from-total fuel rest) (parse_step bs) (parse_step-IsProgress bs)
  where
    by_step :
        ((rest : List ℕ)
          → length rest < fuel
          → (es : List LogEntry) × (parse_from fuel rest ≡ some es))
        → (s : Step) → IsProgress (length bs) s
        → (es : List LogEntry) × ((elim s [
          | stop ↦ some []
          | advance es rest ↦ parse_from fuel rest >>= (λ later. some (es ++ later))
          | crash ↦ none
        ])
            ≡ some es)
    by_step ih stop p = ([], refl)
    by_step ih (advance es rest) p =
        let later = ih rest (omega (arith, p, h)) in (es ++ later.0, rw later.1)
    by_step ih crash p = absurd p

-- The scan of any bytes ends, without a panic, with a list of entries.
pub parse_entries-total : (bs : List ℕ) → (es : List LogEntry) × (parse_entries bs ≡ some es)
unfolding parse_entries
parse_entries-total bs = parse_from-total (suc (length bs)) bs (omega arith)
