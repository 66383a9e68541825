-- ===== src/Tests/Warp.antt =====
-- A scan of two blocks over a stream that breaks once, and the reader's theorems at it.
use zcash_sdk_kmp.Base.{◌≡◌, refl, some, List, [], ◌∷◌, ◌++◌, map}
use zcash_sdk_kmp.Warp.Stream.{
  CompactBlock, Scan, Reader, Event, Step, BlockMessage, tick, block, stream_error, stream_end,
  reopened, refused, next, stop, finished, init, read_block_stream, step, read_step, receive,
  resume_step, resume, handle_error, flush_chunk, delivered_block, save_time, push_block, chunk,
  save_header, reorg,
}
use zcash_sdk_kmp.Warp.Stream.Invariant.{Keeps}
use zcash_sdk_kmp.Warp.Stream.Endings.{Ends}
use zcash_sdk_kmp.Warp.Stream.Delivery.{read_block_stream-Keeps}
use zcash_sdk_kmp.Warp.Stream.Endings.{read_block_stream-Ends}
use zcash_sdk_kmp.Warp.Stream.Complete.{read_block_stream-finished}

abbrev tenth : CompactBlock
tenth = record {
  height = 10;
  prev_hash = 9 ∷ [];
  hash = 10 ∷ [];
  time = 700;
  vtx = record { outputs = 1; actions = 2 } ∷ [];
}

abbrev eleventh : CompactBlock
eleventh = record { height = 11; prev_hash = 10 ∷ []; hash = 11 ∷ []; time = 775; vtx = [] }

-- A block that does not follow the tenth.
abbrev fork : CompactBlock
fork = record { height = 11; prev_hash = 7 ∷ []; hash = 12 ∷ []; time = 775; vtx = [] }

abbrev scan : Scan
scan = record { end_height = 11; account_ids = 1 ∷ []; actions_per_sync = 100 }

abbrev broken_trace : List Event
broken_trace =
    tick ∷ block tenth ∷ stream_error ∷ refused ∷ reopened ∷ block eleventh ∷ stream_end ∷ []

abbrev fork_trace : List Event
fork_trace = block tenth ∷ block fork ∷ []

abbrev messages : Step → List BlockMessage
messages (next r) = r.sent
messages (stop r o) = r.sent

broken_run :
    messages (read_block_stream scan (init 10 (some (9 ∷ [])) (11 ∷ [])) broken_trace)
    ≡ chunk (tenth ∷ [])
      ∷ save_header (record { height = 11; hash = 11 ∷ []; time = 775 })
      ∷ chunk (eleventh ∷ [])
      ∷ []
unfolding read_block_stream init step read_step receive resume_step resume handle_error flush_chunk
    delivered_block save_time push_block
broken_run = refl

fork_run :
    messages (read_block_stream scan (init 10 (some (9 ∷ [])) []) fork_trace)
    ≡ chunk (tenth ∷ []) ∷ reorg (1 ∷ []) 10 ∷ []
unfolding read_block_stream init step read_step receive resume_step resume handle_error flush_chunk
    delivered_block save_time push_block
fork_run = refl

read_block_stream-Keeps_example :
    Keeps 10
      (some (9 ∷ []))
      (read_block_stream scan (init 10 (some (9 ∷ [])) (11 ∷ [])) broken_trace)
read_block_stream-Keeps_example =
    read_block_stream-Keeps scan 10 (some (9 ∷ [])) (11 ∷ []) broken_trace

read_block_stream-Ends_example :
    let r0 = init 10 (some (9 ∷ [])) [] in
    Ends scan r0 fork_trace (read_block_stream scan r0 fork_trace)
read_block_stream-Ends_example = read_block_stream-Ends scan 10 (some (9 ∷ [])) [] fork_trace

read_block_stream-finished_example :
    (r : Reader) × (read_block_stream scan
        (init 10 (some (9 ∷ [])) (11 ∷ []))
        (map block (tenth ∷ eleventh ∷ []) ++ stream_end ∷ [])
      ≡ stop r finished)
read_block_stream-finished_example =
    read_block_stream-finished scan 10 (some (9 ∷ [])) (11 ∷ []) (tenth ∷ eleventh ∷ [])
      (some (11 ∷ [])) (refl, refl, (refl, refl, (refl, refl)))
