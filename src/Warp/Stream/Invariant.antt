-- ===== src/Warp/Stream/Invariant.antt =====
-- What holds of the reader between any two events.
use mathlib.Core.List.{append_assoc, append-nil}
use zcash_sdk_kmp.Base.{
  ℕ, ◌+◌, ◌-◌, ◌%◌, ◌^◌, ◌≤◌, ◌<◌, ◌≡◌, sym, ◌∙◌, subst, not, ◌||◌, Option, some, List, [], ◌∷◌,
  ◌++◌, arith, length, length-append, All, All-append, ltb, leb, ◌==◌, Bool-cases, inl, inr,
}
use zcash_sdk_kmp.Warp.Stream.{
  Hash, CompactBlock, reorg, Scan, Reader, Step, next, stop, flush_chunk, resume, handle_error,
  delivered_block, save_time, push_block, breaks_chain, previous_height_of, count_actions, receive,
}
use zcash_sdk_kmp.Warp.Stream.Chain.{
  Follows, Linked, Linked-snoc, blocks_of, blocks_of-append, breaks_chain-Follows,
}
use zcash_sdk_kmp.Warp.Stream.Flush.{
  accepted, IsFitting, accepted-flush_chunk, flush_chunk-IsFitting, save_time-blocks,
  save_time-IsFitting,
}

module _ (start : ℕ) (hash : Option Hash) where
  -- The accepted blocks are a chain from the start up to the expected height; the pending chunk is
  -- not full and no chunk was too large; the failures since the last block are within the delays,
  -- and no more resumptions than breaks were counted.
  pub record Inv (r : Reader) : Type 0 where
    pub chain : Linked start hash (accepted r) r.expected_height r.prev_hash
    pub room : length r.pending < 1000
    pub fitting : All IsFitting r.sent
    pub failures : r.failures ≤ 3
    pub breaks : r.resumed + r.failures ≤ r.breaks

  -- The same with a chunk that may be full.
  pub record Full (r : Reader) : Type 0 where
    pub chain : Linked start hash (accepted r) r.expected_height r.prev_hash
    pub fits : length r.pending ≤ 1000
    pub fitting : All IsFitting r.sent
    pub failures : r.failures ≤ 3
    pub breaks : r.resumed + r.failures ≤ r.breaks

  pub Inv-Full : (r : Reader) → Inv r → Full r
  Inv-Full r v = record {
    chain = v.chain;
    fits = omega (arith, v.room);
    fitting = v.fitting;
    failures = v.failures;
    breaks = v.breaks;
  }

  pub flush_chunk-Inv : (r : Reader) → Full r → Inv (flush_chunk r)
  unfolding flush_chunk
  flush_chunk-Inv r v = record {
    chain = rw (accepted-flush_chunk r) v.chain;
    room = omega arith;
    fitting = flush_chunk-IsFitting r v.fitting v.fits;
    failures = v.failures;
    breaks = v.breaks;
  }

  -- What the reader has accepted is a chain in chunks that fit, whether it goes on or stops.
  abbrev pub Accepts : Reader → Type 0
  Accepts r = Linked start hash (accepted r) r.expected_height r.prev_hash × All IsFitting r.sent

  abbrev pub Keeps : Step → Type 0
  Keeps (next r) = Inv r
  Keeps (stop r o) = Accepts r

  pub resume-Keeps : (r : Reader) → Inv r → Keeps (resume r)
  unfolding resume
  resume-Keeps r v = elim (Bool-cases (ltb (r.failures + 1 - 1) 3)) [
    | inl again ↦ rw again (record {
      chain = v.chain;
      room = v.room;
      fitting = v.fitting;
      failures = ground arith;
      breaks = omega (arith, v.breaks);
    })
    | inr over ↦ rw over (v.chain, v.fitting)
  ]

  pub handle_error-Keeps : (s : Scan) (r : Reader) → Inv r → Keeps (handle_error s r)
  unfolding handle_error
  handle_error-Keeps s r v =
      let f = flush_chunk-Inv r (Inv-Full r v) in
      elim (Bool-cases (ltb s.end_height (flush_chunk r).expected_height)) [
        | inl past ↦ rw past (f.chain, f.fitting)
        | inr within ↦ rw within (resume-Keeps (flush_chunk r) f)
      ]

  -- The block is pushed onto a pending chunk that is not full.
  push_block-Inv :
      (s : Scan) (b : CompactBlock) (r : Reader)
      → Linked start hash (accepted r ++ b ∷ []) r.expected_height r.prev_hash
      → length r.pending < 1000
      → All IsFitting r.sent
      → (r.failures ≤ 3) × (r.resumed + r.failures ≤ r.breaks)
      → Inv (push_block s b r)
  unfolding push_block
  push_block-Inv s b r chain room fit counts =
      let r' : Reader = record r {
        actions = r.actions + count_actions b.vtx;
        pending = r.pending ++ b ∷ [];
      } in
      let chain' =
        subst (λ l. Linked start hash l r.expected_height r.prev_hash)
          (append_assoc (blocks_of r.sent) r.pending (b ∷ [])) chain in
      let f = flush_chunk-Inv r' (record {
        chain = chain';
        fits = omega (arith, length-append r.pending (b ∷ []), room);
        fitting = fit;
        failures = counts.0;
        breaks = counts.1;
      }) in
      elim (Bool-cases (leb s.actions_per_sync r'.actions || leb 1000 (length r'.pending))) [
        | inl full ↦ rw full (record {
          chain = f.chain;
          room = f.room;
          fitting = f.fitting;
          failures = f.failures;
          breaks = f.breaks;
        })
        | inr more ↦ rw more (record {
          chain = chain';
          room = ground arith;
          fitting = fit;
          failures = counts.0;
          breaks = counts.1;
        })
      ]

  delivered_counts :
      (r : Reader)
      → r.failures ≤ 3
      → r.resumed + r.failures ≤ r.breaks
      → ((delivered_block r).failures ≤ 3)
        × ((delivered_block r).resumed + (delivered_block r).failures ≤ (delivered_block r).breaks)
  unfolding delivered_block
  delivered_counts r f b = ground arith

  -- The reader after a block that continues the chain, before the block is pushed.
  abbrev advance : Reader → CompactBlock → Reader
  advance r b = record r {
    current_height = b.height % 2 ^ 32;
    prev_hash = some b.hash;
    expected_height = r.expected_height + 1;
  }

  next_block-Inv :
      (s : Scan) (r : Reader) (b : CompactBlock)
      → Inv r
      → b.height ≡ r.expected_height
      → Follows r.prev_hash b
      → Inv (push_block s b (save_time b (delivered_block (advance r b))))
  unfolding save_time delivered_block
  next_block-Inv s r b v height follows =
      let d = delivered_block (advance r b) in
      push_block-Inv s b (save_time b d)
        (subst
          (λ l.
            Linked start hash ((l ++ r.pending) ++ b ∷ []) (r.expected_height + 1) (some b.hash))
          (sym (save_time-blocks b d))
          (Linked-snoc start hash (accepted r) r.expected_height r.prev_hash b v.chain height
            follows))
        v.room (save_time-IsFitting b d v.fitting)
        (delivered_counts (advance r b) v.failures v.breaks)

  reorg-Accepts :
      (r : Reader) (ids : List ℕ) (h : ℕ)
      → Accepts r
      → Accepts (record r { sent = r.sent ++ reorg ids h ∷ [] })
  reorg-Accepts r ids h v = (
    subst (λ l. Linked start hash (l ++ r.pending) r.expected_height r.prev_hash)
        (sym (blocks_of-append r.sent (reorg ids h ∷ []) ∙ append-nil (blocks_of r.sent))) v.0,
    All-append IsFitting r.sent _ v.1 (tt, tt),
  )

  flush-Accepts :
      (r : Reader) (b : CompactBlock)
      → Inv r
      → Accepts (flush_chunk (record r { current_height = b.height % 2 ^ 32 }))
  unfolding flush_chunk
  flush-Accepts r b v = let f = flush_chunk-Inv r (Inv-Full r v) in (f.chain, f.fitting)

  pub receive-Keeps : (s : Scan) (r : Reader) (b : CompactBlock) → Inv r → Keeps (receive s r b)
  unfolding receive
  receive-Keeps s r b v =
      let f = flush_chunk-Inv r (Inv-Full r v) in
      elim (Bool-cases (not (b.height == r.expected_height))) [
        | inl other ↦ rw other (f.chain, f.fitting)
        | inr expected ↦ elim (Bool-cases (breaks_chain r.prev_hash b)) [
          | inl broken ↦
              rw (expected, broken)
                (reorg-Accepts (flush_chunk (record r { current_height = b.height % 2 ^ 32 }))
                  s.account_ids (previous_height_of (b.height % 2 ^ 32)) (flush-Accepts r b v))
          | inr follows ↦
              rw (expected, follows)
                (next_block-Inv s r b v (ground arith) (breaks_chain-Follows r.prev_hash b follows))
        ]
      ]
