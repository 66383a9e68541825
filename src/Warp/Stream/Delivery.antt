-- ===== src/Warp/Stream/Delivery.antt =====
-- The blocks that a scan accepts, over any trace of events.
use zcash_sdk_kmp.Base.{ℕ, refl, Option, List, [], ◌∷◌, arith, ltb, ◌==◌, Bool-cases, inl, inr}
use zcash_sdk_kmp.Warp.Stream.{
  Hash, Scan, Reader, Step, next, stop, Event, cancel, tick, block, stream_error, stream_end,
  reopened, refused, reading, resuming, init, Mode, read_step, resume_step, step, read_block_stream,
}
use zcash_sdk_kmp.Warp.Stream.Invariant.{
  Inv, Inv-Full, Keeps, flush_chunk-Inv, resume-Keeps, handle_error-Keeps, receive-Keeps,
}

module _ (start : ℕ) (hash : Option Hash) where
  -- The heights of the ticks and the mode are no part of the invariant.
  same :
      {r : Reader} {m : Mode} {h : ℕ}
      → Inv start hash r
      → Inv start hash (record r { mode = m; previous_height = h })
  same v = record {
    chain = v.chain;
    room = v.room;
    fitting = v.fitting;
    failures = v.failures;
    breaks = v.breaks;
  }

  resume_step-Keeps :
      (r : Reader) (e : Event) → Inv start hash r → Keeps start hash (resume_step r e)
  unfolding resume_step
  resume_step-Keeps r cancel v = (v.chain, v.fitting)
  resume_step-Keeps r tick v = v
  resume_step-Keeps r (block b) v = v
  resume_step-Keeps r stream_error v = v
  resume_step-Keeps r stream_end v = v
  resume_step-Keeps r reopened v = same v
  resume_step-Keeps r refused v = resume-Keeps start hash r v

  read_step-Keeps :
      (s : Scan) (r : Reader) (e : Event) → Inv start hash r → Keeps start hash (read_step s r e)
  unfolding read_step
  read_step-Keeps s r cancel v = (v.chain, v.fitting)
  read_step-Keeps s r tick v = elim (Bool-cases (r.previous_height == r.current_height)) [
    | inl stalled ↦ rw stalled (handle_error-Keeps start hash s r v)
    | inr moved ↦ rw moved (same v)
  ]
  read_step-Keeps s r (block b) v = receive-Keeps start hash s r b v
  read_step-Keeps s r stream_error v = handle_error-Keeps start hash s r v
  read_step-Keeps s r stream_end v = elim (Bool-cases (ltb s.end_height r.expected_height)) [
    | inl past ↦
        let f = flush_chunk-Inv start hash r (Inv-Full start hash r v) in
        rw past (f.chain, f.fitting)
    | inr within ↦ rw within (handle_error-Keeps start hash s r v)
  ]
  read_step-Keeps s r reopened v = v
  read_step-Keeps s r refused v = v

  step-Keeps :
      (s : Scan) (r : Reader) (e : Event) → Inv start hash r → Keeps start hash (step s r e)
  unfolding step
  step-Keeps s r e v = mode_cases r.mode
    where
      mode_cases :
          (m : Mode)
          → Keeps start hash (elim m [ reading ↦ read_step s r e | resuming ↦ resume_step r e ])
      mode_cases reading = read_step-Keeps s r e v
      mode_cases resuming = resume_step-Keeps r e v

  run-Keeps :
      (s : Scan) (r : Reader) (es : List Event)
      → Inv start hash r
      → Keeps start hash (read_block_stream s r es)
  unfolding read_block_stream
  run-Keeps s r [] v = v
  run-Keeps s r (e ∷ es) v = after (step s r e) (λ r' k. run-Keeps s r' es k) (step-Keeps s r e v)
    where
      after :
          (t : Step)
          → ((r' : Reader) → Inv start hash r' → Keeps start hash (read_block_stream s r' es))
          → Keeps start hash t
          → Keeps start hash
              (elim t [ next r' ↦ read_block_stream s r' es | stop r' o ↦ stop r' o ])
      after (next r') go k = go r' k
      after (stop r' o) go k = k

  init-Inv : (heights : List ℕ) → Inv start hash (init start hash heights)
  unfolding init
  init-Inv heights = record {
    chain = (refl, refl);
    room = omega arith;
    fitting = tt;
    failures = omega arith;
    breaks = omega arith;
  }

-- Whatever happens on the stream, across breaks, reopenings, stalls and a cancellation: the blocks
-- accepted so far, those sent in chunks and then those pending, are a chain of consecutive heights
-- from the start, each naming the hash of the one before, with none lost or taken twice. Every
-- chunk that was sent holds between one and a thousand blocks. While the reader goes on, the
-- pending chunk is not full, the failures since the last block are at most three, and resumptions
-- and failures are within the breaks counted.
pub read_block_stream-Keeps :
    (s : Scan) (start : ℕ) (hash : Option Hash) (heights : List ℕ) (es : List Event)
    → Keeps start hash (read_block_stream s (init start hash heights) es)
read_block_stream-Keeps s start hash heights es =
    run-Keeps start hash s (init start hash heights) es (init-Inv start hash heights)
