-- ===== src/Warp/Stream/Flush.antt =====
-- The messages that flushing a chunk and saving a header send.
use mathlib.Core.List.{append-nil}
use zcash_sdk_kmp.Base.{
  ◌≤◌, ◌<◌, ◌≡◌, refl, sym, ap, ◌∙◌, true, false, List, [], ◌∷◌, ◌++◌, arith, length, All,
  All-append, Bool-cases, inl, inr,
}
use zcash_sdk_kmp.Warp.Stream.{
  CompactBlock, BlockMessage, chunk, save_header, reorg, Reader, is_nil, flush_chunk, save_time,
  contains,
}
use zcash_sdk_kmp.Warp.Stream.Chain.{blocks_of, blocks_of-append}

-- The blocks that the reader has accepted: those in the chunks that it sent, then the pending ones.
abbrev pub accepted : Reader → List CompactBlock
accepted r = blocks_of r.sent ++ r.pending

-- A chunk that was sent holds between one and a thousand blocks.
abbrev pub IsFitting : BlockMessage → Type 0
IsFitting (chunk bs) = (0 < length bs) × (length bs ≤ 1000)
IsFitting (save_header h) = Unit
IsFitting (reorg ids h) = Unit

flushed :
    (ms : List BlockMessage) (bs : List CompactBlock)
    → blocks_of (ms ++ chunk bs ∷ []) ++ [] ≡ blocks_of ms ++ bs
flushed ms bs =
    append-nil _ ∙ (blocks_of-append ms (chunk bs ∷ []) ∙ ap (◌++◌ (blocks_of ms)) (append-nil bs))

is_nil_lem : (bs : List CompactBlock) → is_nil bs ≡ true → bs ≡ []
is_nil_lem [] h = refl
is_nil_lem (b ∷ bs) h = cc

is_nil-length : (bs : List CompactBlock) → is_nil bs ≡ false → 0 < length bs
is_nil-length [] h = cc
is_nil-length (b ∷ bs) h = omega arith

-- The pending blocks move into the messages and the rest stays.
pub accepted-flush_chunk : (r : Reader) → accepted (flush_chunk r) ≡ accepted r
unfolding flush_chunk
accepted-flush_chunk r = elim (Bool-cases (is_nil r.pending)) [
  | inl empty ↦ rw empty (ap (◌++◌ (blocks_of r.sent)) (sym (is_nil_lem r.pending empty)))
  | inr some_blocks ↦ rw some_blocks (flushed r.sent r.pending)
]

pub flush_chunk-IsFitting :
    (r : Reader)
    → All IsFitting r.sent
    → length r.pending ≤ 1000
    → All IsFitting (flush_chunk r).sent
unfolding flush_chunk
flush_chunk-IsFitting r a h = elim (Bool-cases (is_nil r.pending)) [
  | inl empty ↦ rw empty a
  | inr some_blocks ↦ rw some_blocks (
      All-append IsFitting r.sent (chunk r.pending ∷ []) a
        ((is_nil-length r.pending some_blocks, h), tt))
]

pub save_time-blocks :
    (b : CompactBlock) (r : Reader) → blocks_of (save_time b r).sent ≡ blocks_of r.sent
unfolding save_time
save_time-blocks b r = elim (Bool-cases (contains r.current_height r.heights_without_time)) [
  | inl known ↦ rw known (blocks_of-append r.sent _ ∙ append-nil (blocks_of r.sent))
  | inr unknown ↦ rw unknown
]

pub save_time-IsFitting :
    (b : CompactBlock) (r : Reader) → All IsFitting r.sent → All IsFitting (save_time b r).sent
unfolding save_time
save_time-IsFitting b r a = elim (Bool-cases (contains r.current_height r.heights_without_time)) [
  | inl known ↦ rw known (All-append IsFitting r.sent _ a (tt, tt))
  | inr unknown ↦ rw unknown a
]
