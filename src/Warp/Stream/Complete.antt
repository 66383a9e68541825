-- ===== src/Warp/Stream/Complete.antt =====
-- A stream that delivers the range it was asked for is read to its end.
use zcash_sdk_kmp.Base.{
  ℕ, ◌+◌, ◌%◌, ◌^◌, ◌<◌, ◌≡◌, refl, true, false, not, Option, none, some, List, [], ◌∷◌, ◌++◌, map,
  arith, ltb, lt→ltb, ◌==◌,
}
use zcash_sdk_kmp.Warp.Stream.Chain.{hash_eq_refl}
use zcash_sdk_kmp.Warp.Stream.{
  Hash, CompactBlock, Scan, Reader, Mode, finished, next, stop, block, stream_end, reading,
  resuming, resume_step, init, flush_chunk, delivered_block, save_time, push_block, breaks_chain,
  receive, read_step, step, read_block_stream,
}
use zcash_sdk_kmp.Warp.Stream.Chain.{Follows, Linked}

Follows-breaks_chain : (h : Option Hash) (b : CompactBlock) → Follows h b → breaks_chain h b ≡ false
Follows-breaks_chain none b f = refl
Follows-breaks_chain (some h) b f = rw (f, hash_eq_refl b.prev_hash)

-- Reading, at a height and after a hash.
abbrev IsAt : ℕ → Option Hash → Reader → Type 0
IsAt height hash r = (r.mode ≡ reading) × (r.expected_height ≡ height) × (r.prev_hash ≡ hash)

push_block-IsAt :
    (s : Scan) (b : CompactBlock) (r : Reader) (height : ℕ) (hash : Option Hash)
    → IsAt height hash r
    → IsAt height hash (push_block s b (save_time b (delivered_block r)))
unfolding push_block flush_chunk save_time delivered_block
push_block-IsAt s b r height hash a = (ground arith, ground arith, ground arith)

receive-next :
    (s : Scan) (b : CompactBlock) (r : Reader) (height : ℕ) (hash : Option Hash)
    → IsAt height hash r
    → b.height ≡ height
    → Follows hash b
    → (r' : Reader) × (step s r (block b) ≡ next r') × IsAt (height + 1) (some b.hash) r'
unfolding step read_step receive
receive-next s b r height hash a e f =
    let expected : not (b.height == r.expected_height) ≡ false = ground (arith, e, a.1) in
    let follows : breaks_chain r.prev_hash b ≡ false = rw a.2 (Follows-breaks_chain hash b f) in
    let r1 : Reader = record r {
      current_height = b.height % 2 ^ 32;
      prev_hash = some b.hash;
      expected_height = r.expected_height + 1;
    } in
    (
      push_block s b (save_time b (delivered_block r1)),
      at_reading r.mode a.0 expected follows,
      push_block-IsAt s b r1 (height + 1) (some b.hash) (a.0, omega (arith, a.1), refl),
    )
  where
    at_reading :
        (m : Mode)
        → m ≡ reading
        → not (b.height == r.expected_height) ≡ false
        → breaks_chain r.prev_hash b ≡ false
        → (elim m [ reading ↦ read_step s r (block b) | resuming ↦ resume_step r (block b) ])
          ≡ next (
              push_block s b (
                save_time b (
                  delivered_block (record r {
                    current_height = b.height % 2 ^ 32;
                    prev_hash = some b.hash;
                    expected_height = r.expected_height + 1;
                  }))))
    at_reading reading m expected follows = rw (expected, follows)
    at_reading resuming m expected follows = cc

end-finished :
    (s : Scan) (r : Reader) (height : ℕ) (hash : Option Hash)
    → IsAt height hash r
    → s.end_height < height
    → step s r stream_end ≡ stop (flush_chunk r) finished
unfolding step read_step
end-finished s r height hash a e =
    at_reading r.mode a.0 (lt→ltb s.end_height r.expected_height (omega (arith, a.1)))
  where
    at_reading :
        (m : Mode)
        → m ≡ reading
        → ltb s.end_height r.expected_height ≡ true
        → (elim m [ reading ↦ read_step s r stream_end | resuming ↦ resume_step r stream_end ])
          ≡ stop (flush_chunk r) finished
    at_reading reading m past = rw past
    at_reading resuming m past = cc

run-finished :
    (s : Scan) (bs : List CompactBlock) (r : Reader) (height : ℕ) (hash : Option Hash) (height' : ℕ)
    (hash' : Option Hash)
    → IsAt height hash r
    → Linked height hash bs height' hash'
    → s.end_height < height'
    → (r' : Reader) × (read_block_stream s r (map block bs ++ stream_end ∷ []) ≡ stop r' finished)
unfolding read_block_stream
run-finished s [] r height hash height' hash' a l e =
    (flush_chunk r, rw (end-finished s r height hash a (omega (arith, l.0, e)), read_block_stream))
run-finished s (b ∷ bs) r height hash height' hash' a l e =
    let (r', eq, a') = receive-next s b r height hash a l.0 l.1 in
    let (r'', run) = run-finished s bs r' (height + 1) (some b.hash) height' hash' a' l.2 e in
    (r'', rw (eq, read_block_stream) run)

-- A stream that delivers a chain from the start to the end height and then ends makes the scan
-- finish, whatever was saved before.
pub read_block_stream-finished :
    (s : Scan) (start : ℕ) (hash : Option Hash) (heights : List ℕ) (bs : List CompactBlock)
    (last : Option Hash)
    → Linked start hash bs (s.end_height + 1) last
    → (r : Reader) × (read_block_stream s
          (init start hash heights)
          (map block bs ++ stream_end ∷ [])
        ≡ stop r finished)
unfolding init
read_block_stream-finished s start hash heights bs last l =
    run-finished s bs (init start hash heights) start hash (s.end_height + 1) last
      (refl, refl, refl) l (omega arith)
