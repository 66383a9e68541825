-- ===== src/Warp/Stream/Turns.antt =====
-- What one event of a scan leads to.
use zcash_sdk_kmp.Base.{
  ◌+◌, ◌-◌, ◌≤◌, ◌<◌, ◌≡◌, refl, ◌≢◌, subst, sym, ◌∙◌, not, true, false, Bool, ◌%◌, ◌^◌, some, none,
  ==_iff, Option, List, [], ◌∷◌, ◌++◌, arith, ltb, ◌==◌, Bool-cases, inl, inr, ◌⊎◌,
}
use zcash_sdk_kmp.Warp.Stream.Chain.{hash_eq_refl}
use zcash_sdk_kmp.Warp.Stream.{
  Hash, hash_eq, CompactBlock, BlockMessage, reorg, Scan, Reader, Mode, finished, failed, cancelled,
  reorg_at, unexpected_block, after_the_end, broke, Step, next, stop, Event, cancel, tick, block,
  stream_error, stream_end, reopened, refused, reading, resuming, flush_chunk, resume, handle_error,
  delivered_block, save_time, push_block, breaks_chain, previous_height_of, receive, read_step,
  resume_step, step,
}

-- A later state has accepted no block, and counts as failures the breaks in between; or it has no
-- failure.
abbrev pub Moves : Reader → Reader → Type 0
Moves r r' =
    (r'.failures ≡ 0)
    ⊎ ((r'.expected_height ≡ r.expected_height) × (r'.breaks + r.failures ≡ r.breaks + r'.failures))

-- The block has the height that is expected, and does not name the last accepted block as the one
-- before it.
abbrev pub IsFork : Reader → CompactBlock → Type 0
IsFork r b =
    (b.height ≡ r.expected_height)
    × ((last : Hash) × (r.prev_hash ≡ some last) × (last ≢ b.prev_hash))

module _ (s : Scan) where
  -- Between events: the failures are within the delays, and while a reopening is awaited nothing is
  -- pending and the end is not reached.
  abbrev pub IsWaiting : Reader → Type 0
  IsWaiting r =
      (r.failures ≤ 3)
      × ((r.mode ≡ reading) ⊎ ((r.pending ≡ []) × (r.expected_height ≤ s.end_height)))

  -- What an event leads to.
  abbrev pub StepEnds : Reader → Event → Step → Type 0
  StepEnds r e (next r') = IsWaiting r' × Moves r r'
  StepEnds r e (stop r' finished) = (r'.pending ≡ []) × (s.end_height < r'.expected_height)
  StepEnds r e (stop r' (failed cancelled)) = Unit
  StepEnds r e (stop r' (failed (reorg_at h))) =
      (r'.pending ≡ [])
      × ((b : CompactBlock) × (e ≡ block b)
          × IsFork r' b
          × (h ≡ previous_height_of (b.height % 2 ^ 32)))
      × ((ms : List BlockMessage) × (r'.sent ≡ ms ++ reorg s.account_ids h ∷ []))
  StepEnds r e (stop r' (failed (unexpected_block h))) =
      (r'.pending ≡ [])
      × (h ≡ r'.expected_height)
      × ((b : CompactBlock) × (e ≡ block b) × (b.height ≢ h))
  StepEnds r e (stop r' (failed after_the_end)) =
      (r'.pending ≡ []) × (s.end_height < r'.expected_height)
  StepEnds r e (stop r' (failed (broke n))) =
      (r'.pending ≡ [])
      × (r'.expected_height ≤ s.end_height)
      × (n ≡ 4)
      × (r'.expected_height ≡ r.expected_height)
      × (r'.breaks + r.failures ≡ r.breaks + 4)

  -- A break is counted.
  resume-StepEnds :
      (from r : Reader) (e : Event)
      → r.failures ≤ 3
      → r.pending ≡ []
      → r.expected_height ≤ s.end_height
      → (r.expected_height ≡ from.expected_height)
        × (r.breaks ≡ from.breaks)
        × (r.failures ≡ from.failures)
      → StepEnds from e (resume r)
  unfolding resume
  resume-StepEnds from r e f p n same = elim (Bool-cases (ltb (r.failures + 1 - 1) 3)) [
    | inl again ↦ rw again ((ground arith, inr (p, n)), inr (same.0, omega (arith, same.1, same.2)))
    | inr over ↦
        let four : r.failures + 1 ≡ 4 = ground arith in
        rw over (p, n, four, same.0, omega (arith, same.1, same.2, four))
  ]

  handle_error-StepEnds :
      (r : Reader) (e : Event) → r.failures ≤ 3 → StepEnds r e (handle_error s r)
  unfolding handle_error flush_chunk
  handle_error-StepEnds r e f = elim (Bool-cases (ltb s.end_height r.expected_height)) [
    | inl past ↦ rw past (refl, ground arith)
    | inr within ↦
        rw within (resume-StepEnds r (flush_chunk r) e f refl (ground arith) (refl, refl, refl))
  ]

  push_block-IsWaiting :
      (b : CompactBlock) (r : Reader)
      → r.failures ≤ 3
      → r.mode ≡ reading
      → IsWaiting (push_block s b (save_time b (delivered_block r)))
        × ((push_block s b (save_time b (delivered_block r))).failures ≡ 0)
  unfolding push_block flush_chunk save_time delivered_block
  push_block-IsWaiting b r f m = ground arith

  breaks_chain-IsFork :
      (r : Reader) (b : CompactBlock)
      → (b.height == r.expected_height) ≡ true
      → breaks_chain r.prev_hash b ≡ true
      → IsFork r b
  breaks_chain-IsFork r b h k =
      let fork = known r.prev_hash k in ((==_iff b.height r.expected_height).0 h, fork)
    where
      known :
          (o : Option Hash)
          → breaks_chain o b ≡ true
          → (last : Hash) × (o ≡ some last) × (last ≢ b.prev_hash)
      known none k = cc
      known (some last) k = (
        last,
        refl,
        λ same.
            let equal : hash_eq last b.prev_hash ≡ true =
              subst (λ h. hash_eq last h ≡ true) same (hash_eq_refl last) in
            let fork : not (hash_eq last b.prev_hash) ≡ true = k in
            absurd_of (hash_eq last b.prev_hash) equal fork,
      )
        where
          absurd_of : (t : Bool) → t ≡ true → not t ≡ true → ⊥
          absurd_of true e k = cc
          absurd_of false e k = cc

  differs : {t : Bool} → t ≡ true → t ≡ false → ⊥
  differs e f = let never : true ≡ false = sym e ∙ f in cc

  receive-StepEnds :
      (r : Reader) (b : CompactBlock)
      → r.failures ≤ 3
      → r.mode ≡ reading
      → StepEnds r (block b) (receive s r b)
  unfolding receive flush_chunk
  receive-StepEnds r b f m = elim (Bool-cases (b.height == r.expected_height)) [
    | inr other ↦
        rw other
          (refl, refl, (b, refl, λ e. differs ((==_iff b.height r.expected_height).1 e) other))
    | inl expected ↦ elim (Bool-cases (breaks_chain r.prev_hash b)) [
      | inl broken ↦
          rw (expected, broken)
            (refl, (b, refl, breaks_chain-IsFork r b expected broken, refl), (_, refl))
      | inr follows ↦ let w = push_block-IsWaiting b _ f m in rw (expected, follows) (w.0, inl w.1)
    ]
  ]

  read_step-StepEnds :
      (r : Reader) (e : Event) → r.failures ≤ 3 → r.mode ≡ reading → StepEnds r e (read_step s r e)
  unfolding read_step flush_chunk
  read_step-StepEnds r cancel f m = tt
  read_step-StepEnds r tick f m = elim (Bool-cases (r.previous_height == r.current_height)) [
    | inl stalled ↦ rw stalled (handle_error-StepEnds r tick f)
    | inr moved ↦ rw moved ((f, inl m), inr (refl, refl))
  ]
  read_step-StepEnds r (block b) f m = receive-StepEnds r b f m
  read_step-StepEnds r stream_error f m = handle_error-StepEnds r stream_error f
  read_step-StepEnds r stream_end f m = elim (Bool-cases (ltb s.end_height r.expected_height)) [
    | inl past ↦ rw past (refl, ground arith)
    | inr within ↦ rw within (handle_error-StepEnds r stream_end f)
  ]
  read_step-StepEnds r reopened f m = ((f, inl m), inr (refl, refl))
  read_step-StepEnds r refused f m = ((f, inl m), inr (refl, refl))

  resume_step-StepEnds :
      (r : Reader) (e : Event)
      → r.failures ≤ 3
      → r.pending ≡ []
      → r.expected_height ≤ s.end_height
      → StepEnds r e (resume_step r e)
  unfolding resume_step
  resume_step-StepEnds r cancel f p e = tt
  resume_step-StepEnds r tick f p e = ((f, inr (p, e)), inr (refl, refl))
  resume_step-StepEnds r (block b) f p e = ((f, inr (p, e)), inr (refl, refl))
  resume_step-StepEnds r stream_error f p e = ((f, inr (p, e)), inr (refl, refl))
  resume_step-StepEnds r stream_end f p e = ((f, inr (p, e)), inr (refl, refl))
  resume_step-StepEnds r reopened f p e = ((f, inl refl), inr (refl, refl))
  resume_step-StepEnds r refused f p e = resume-StepEnds r r refused f p e (refl, refl, refl)

  pub step-StepEnds : (r : Reader) (e : Event) → IsWaiting r → StepEnds r e (step s r e)
  unfolding step
  step-StepEnds r e w = mode_cases r.mode refl w.1
    where
      mode_cases :
          (m : Mode)
          → r.mode ≡ m
          → (m ≡ reading) ⊎ ((r.pending ≡ []) × (r.expected_height ≤ s.end_height))
          → StepEnds r e (elim m [ reading ↦ read_step s r e | resuming ↦ resume_step r e ])
      mode_cases reading m c = read_step-StepEnds r e w.0 m
      mode_cases resuming m (inl c) = cc
      mode_cases resuming m (inr c) = resume_step-StepEnds r e w.0 c.0 c.1
