-- ===== src/Warp/Stream/Endings.antt =====
-- How a scan ends: what was flushed, and what in the trace each error answers to.
use mathlib.Core.List.{append-nil, append_assoc}
use zcash_sdk_kmp.Base.{
  ℕ, ◌+◌, ◌%◌, ◌^◌, ◌≤◌, ◌<◌, ◌≡◌, ◌≢◌, refl, sym, ap, ◌∙◌, subst, Option, List, [], ◌∷◌, ◌++◌,
  arith, inl, inr,
}
use zcash_sdk_kmp.Warp.Stream.{
  Hash, CompactBlock, BlockMessage, reorg, Scan, Reader, Outcome, finished, failed, cancelled,
  reorg_at, unexpected_block, after_the_end, broke, Step, next, stop, Event, block, init,
  previous_height_of, step, read_block_stream,
}
use zcash_sdk_kmp.Warp.Stream.Turns.{Moves, IsFork, IsWaiting, StepEnds, step-StepEnds}

-- A block arrives in the trace.
abbrev pub Arrives : CompactBlock → List Event → Type 0
Arrives b es = (before : List Event) × (after : List Event) × (es ≡ before ++ block b ∷ after)

module _ (s : Scan) (r0 : Reader) where
  -- A state, after a trace, and its count of breaks since a state at which the same block was
  -- expected: no block was accepted in between.
  abbrev pub BrokeSince : List Event → Reader → ℕ → Type 0
  BrokeSince es r n =
      (before : List Event) × (after : List Event) × (r1 : Reader) × (es ≡ before ++ after)
      × (read_block_stream s r0 before ≡ next r1)
      × (r.expected_height ≡ r1.expected_height)
      × (r.breaks ≡ r1.breaks + n)

  -- A scan that stops has flushed its pending blocks, unless it was cancelled. It finishes only past
  -- the end height. A block of the trace that has the expected height but another block before it is
  -- reported as a reorganization at the height below it, last of all; one of another height is
  -- reported with the expected height. The scan is given up after four breaks, before the end
  -- height, with no block accepted between them.
  abbrev pub Ends : List Event → Step → Type 0
  Ends es (next r) = IsWaiting s r
  Ends es (stop r finished) = (r.pending ≡ []) × (s.end_height < r.expected_height)
  Ends es (stop r (failed cancelled)) = Unit
  Ends es (stop r (failed (reorg_at h))) =
      (r.pending ≡ [])
      × ((b : CompactBlock) × Arrives b es
          × IsFork r b
          × (h ≡ previous_height_of (b.height % 2 ^ 32)))
      × ((ms : List BlockMessage) × (r.sent ≡ ms ++ reorg s.account_ids h ∷ []))
  Ends es (stop r (failed (unexpected_block h))) =
      (r.pending ≡ [])
      × (h ≡ r.expected_height)
      × ((b : CompactBlock) × Arrives b es × (b.height ≢ h))
  Ends es (stop r (failed after_the_end)) = (r.pending ≡ []) × (s.end_height < r.expected_height)
  Ends es (stop r (failed (broke n))) =
      (r.pending ≡ []) × (r.expected_height ≤ s.end_height) × (n ≡ 4) × BrokeSince es r 4

  -- One more event of a trace that goes on.
  read_snoc :
      (done : List Event) (from r r' : Reader) (e : Event)
      → read_block_stream s from done ≡ next r
      → step s r e ≡ next r'
      → read_block_stream s from (done ++ e ∷ []) ≡ next r'
  unfolding read_block_stream
  read_snoc [] from r r' e h k =
      let same : from ≡ r = cc in
      let first : step s from e ≡ next r' = subst (λ x. step s x e ≡ next r') (sym same) k in
      rw (read_block_stream, first) refl
  read_snoc (x ∷ done) from r r' e h k =
      go (λ r1 h1. read_snoc done r1 r r' e h1 k) (step s from x) h
    where
      go :
          ((r1 : Reader)
            → read_block_stream s r1 done ≡ next r
            → read_block_stream s r1 (done ++ e ∷ []) ≡ next r')
          → (t : Step)
          → elim t as (λ _. Step) [ next r1 ↦ read_block_stream s r1 done | stop r1 o ↦ stop r1 o ]
            ≡ next r
          → elim t as (λ _. Step) [
            | next r1 ↦ read_block_stream s r1 (done ++ e ∷ [])
            | stop r1 o ↦ stop r1 o
          ]
            ≡ next r'
      go f (next r1) h = f r1 h
      go f (stop r1 o) h = cc

  -- The breaks since the last block was accepted are the failures.
  Moves-BrokeSince :
      (done : List Event) (r r' : Reader) (e : Event)
      → read_block_stream s r0 (done ++ e ∷ []) ≡ next r'
      → BrokeSince done r r.failures
      → Moves r r'
      → BrokeSince (done ++ e ∷ []) r' r'.failures
  Moves-BrokeSince done r r' e h k (inl none) =
      (done ++ e ∷ [], [], r', sym (append-nil (done ++ e ∷ [])), h, refl, omega (arith, none))
  Moves-BrokeSince done r r' e h (before, after, r1, split, at, same, count) (inr m) = (
    before,
    after ++ e ∷ [],
    r1,
    ap (λ es. es ++ e ∷ []) split ∙ append_assoc before after (e ∷ []),
    at,
    m.0 ∙ same,
    omega (arith, m.1, count),
  )

  -- The event at which a scan stops.
  stop-Ends :
      (done es : List Event) (r r' : Reader) (e : Event) (o : Outcome)
      → BrokeSince done r r.failures
      → StepEnds s r e (stop r' o)
      → Ends (done ++ e ∷ es) (stop r' o)
  stop-Ends done es r r' e finished k v = v
  stop-Ends done es r r' e (failed cancelled) k v = tt
  stop-Ends done es r r' e (failed (reorg_at h)) k (flushed, (b, is, fork, at), sent) =
      (flushed, (b, (done, es, ap (λ x. done ++ x ∷ es) is), fork, at), sent)
  stop-Ends done es r r' e (failed (unexpected_block h)) k (flushed, at, (b, is, other)) =
      (flushed, at, (b, (done, es, ap (λ x. done ++ x ∷ es) is), other))
  stop-Ends done es r r' e (failed after_the_end) k v = v
  stop-Ends done es r r' e (failed (broke n)) (before, after, r1, split, at, same, count)
        (flushed, below, four, still, more) =
      (
        flushed,
        below,
        four,
        (
          before,
          after ++ e ∷ es,
          r1,
          ap (λ x. x ++ e ∷ es) split ∙ append_assoc before after (e ∷ es),
          at,
          still ∙ same,
          omega (arith, more, count),
        ),
      )

  run-Ends :
      (done es : List Event) (r : Reader)
      → read_block_stream s r0 done ≡ next r
      → IsWaiting s r
      → BrokeSince done r r.failures
      → Ends (done ++ es) (read_block_stream s r es)
  unfolding read_block_stream
  run-Ends done [] r h w k = w
  run-Ends done (e ∷ es) r h w k =
      after (λ r' l v m. run-Ends (done ++ e ∷ []) es r' l v m) (step s r e) refl
        (step-StepEnds s r e w)
    where
      after :
          ((r' : Reader)
            → read_block_stream s r0 (done ++ e ∷ []) ≡ next r'
            → IsWaiting s r'
            → BrokeSince (done ++ e ∷ []) r' r'.failures
            → Ends ((done ++ e ∷ []) ++ es) (read_block_stream s r' es))
          → (t : Step) → step s r e ≡ t
          → StepEnds s r e t
          → Ends
              (done ++ e ∷ es)
              (elim t [ next r' ↦ read_block_stream s r' es | stop r' o ↦ stop r' o ])
      after f (next r') at v =
          let later = read_snoc done r0 r r' e h at in
          subst (λ all. Ends all (read_block_stream s r' es)) (append_assoc done (e ∷ []) es)
            (f r' later v.0 (Moves-BrokeSince done r r' e later k v.1))
      after f (stop r' o) at v = stop-Ends done es r r' e o k v

-- However a scan stops, unless it is cancelled, every accepted block was flushed. It finishes only
-- past the end height. A reorganization is reported, by its error and by the last message, only when
-- a block of the expected height came whose previous hash is not the one that the reader keeps, and
-- for the height below that block. A block is reported as unexpected only when one of another height
-- came. The stream is given up after exactly four failures, before the end height, and since a point
-- of the trace from which on these four came and no block was accepted.
pub read_block_stream-Ends :
    (s : Scan) (start : ℕ) (hash : Option Hash) (heights : List ℕ) (es : List Event)
    → let r0 = init start hash heights in Ends s r0 es (read_block_stream s r0 es)
unfolding init read_block_stream
read_block_stream-Ends s start hash heights es =
    let r0 = init start hash heights in
    run-Ends s r0 [] es r0 refl (omega arith, inl refl) ([], [], r0, refl, refl, refl, refl)
