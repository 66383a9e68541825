-- ===== src/Warp/Stream.antt =====
-- rust/rlz/src/warp/sync.rs: `read_block_stream`, `ResumableBlocks` and `flush_chunk`. The tasks
-- that the reader waits for are the events of a trace, in the order in which `select!` takes them.
-- The receiver of the chunks stays open, so that no send fails.
pub mod Chain
pub mod Flush
pub mod Invariant
pub mod Delivery
pub mod Turns
pub mod Endings
pub mod Complete
use zcash_sdk_kmp.Base.{
  ℕ, zero, suc, ◌+◌, ◌-◌, ◌%◌, ◌^◌, Bool, true, false, not, ◌&&◌, ◌||◌, Option, some, none, List,
  [], ◌∷◌, ◌++◌, ltb, leb, ◌==◌, if◌then◌else◌, length,
}

abbrev pub max_blocks_per_chunk : ℕ
max_blocks_per_chunk = 1000

-- The number of entries of `STREAM_RESUME_DELAYS`.
abbrev pub resume_delays : ℕ
resume_delays = 3

abbrev pub Hash : Type 0
Hash = List ℕ

abbrev pub hash_eq : Hash → Hash → Bool
hash_eq [] [] = true
hash_eq (x ∷ xs) (y ∷ ys) = x == y && hash_eq xs ys
hash_eq _ _ = false

-- A compact transaction, by the numbers of its sapling outputs and its actions.
pub record CompactTx : Type 0 where
  pub outputs : ℕ
  pub actions : ℕ

pub record CompactBlock : Type 0 where
  pub height : ℕ
  pub prev_hash : Hash
  pub hash : Hash
  pub time : ℕ
  pub vtx : List CompactTx

pub record BlockHeader : Type 0 where
  pub height : ℕ
  pub hash : Hash
  pub time : ℕ

pub data BlockMessage : Type 0 where
  chunk : List CompactBlock → BlockMessage
  save_header : BlockHeader → BlockMessage
  reorg : List ℕ → ℕ → BlockMessage

pub data SyncError : Type 0 where
  cancelled : SyncError
  reorg_at : ℕ → SyncError
  -- `SyncError::Other`: the height that was expected of a block, or the failures of the stream
  unexpected_block : ℕ → SyncError
  after_the_end : SyncError
  broke : ℕ → SyncError

pub data Event : Type 0 where
  cancel tick : Event
  block : CompactBlock → Event
  stream_error stream_end : Event
  -- the answers to a reopening
  reopened refused : Event

pub data Mode : Type 0 where
  reading resuming : Mode

-- What the caller fixes.
pub record Scan : Type 0 where
  pub end_height : ℕ
  pub account_ids : List ℕ
  pub actions_per_sync : ℕ

-- The local variables of the reader, what it has sent, and the counters of `StreamStats`.
pub record Reader : Type 0 where
  pub mode : Mode
  pub pending : List CompactBlock
  pub current_height : ℕ
  pub previous_height : ℕ
  pub expected_height : ℕ
  pub actions : ℕ
  pub prev_hash : Option Hash
  pub heights_without_time : List ℕ
  pub failures : ℕ
  pub sent : List BlockMessage
  pub breaks : ℕ
  pub resumed : ℕ

pub data Outcome : Type 0 where
  finished : Outcome
  failed : SyncError → Outcome

pub data Step : Type 0 where
  next : Reader → Step
  stop : Reader → Outcome → Step

unfoldable pub init : ℕ → Option Hash → List ℕ → Reader
init start_height prev_hash heights = record {
  mode = reading;
  pending = [];
  current_height = start_height;
  previous_height = 0;
  expected_height = start_height;
  actions = 0;
  prev_hash = prev_hash;
  heights_without_time = heights;
  failures = 0;
  sent = [];
  breaks = 0;
  resumed = 0;
}

abbrev pub send : BlockMessage → Reader → Reader
send m r = record r { sent = r.sent ++ m ∷ [] }

abbrev pub is_nil : List CompactBlock → Bool
is_nil [] = true
is_nil (b ∷ bs) = false

unfoldable pub flush_chunk : Reader → Reader
flush_chunk r = record r {
  pending = [];
  sent = if is_nil r.pending then r.sent else r.sent ++ chunk r.pending ∷ [];
}

-- One round of `ResumableBlocks::resume` up to its wait: the failure is counted, and the delays may
-- have run out.
unfoldable pub resume : Reader → Step
resume r =
    let failures = r.failures + 1 in
    let r' = record r { breaks = r.breaks + 1; failures = failures; mode = resuming } in
    if ltb (failures - 1) resume_delays then next r' else stop r' (failed (broke failures))

-- Below the `select!`, with an error.
unfoldable pub handle_error : Scan → Reader → Step
handle_error s r =
    let r' = flush_chunk r in
    if ltb s.end_height r'.expected_height then stop r' (failed after_the_end) else resume r'

unfoldable pub delivered_block : Reader → Reader
delivered_block r = record r {
  resumed = if ltb 0 r.failures then r.resumed + 1 else r.resumed;
  failures = if ltb 0 r.failures then 0 else r.failures;
}

abbrev pub contains : ℕ → List ℕ → Bool
contains h [] = false
contains h (x ∷ xs) = h == x || contains h xs

-- `HashSet::remove`
abbrev pub remove : ℕ → List ℕ → List ℕ
remove h [] = []
remove h (x ∷ xs) = if h == x then remove h xs else x ∷ remove h xs

unfoldable pub save_time : CompactBlock → Reader → Reader
save_time b r =
    let h = r.current_height in
    let header : BlockHeader = record { height = h; hash = b.hash; time = b.time } in
    let known = contains h r.heights_without_time in
    record r {
      heights_without_time = remove h r.heights_without_time;
      sent = if known then r.sent ++ save_header header ∷ [] else r.sent;
    }

abbrev pub count_actions : List CompactTx → ℕ
count_actions [] = 0
count_actions (t ∷ ts) = t.outputs + t.actions + count_actions ts

-- The block is pushed, and the chunk is flushed when it is full.
unfoldable pub push_block : Scan → CompactBlock → Reader → Reader
push_block s b r =
    let r' = record r {
      actions = r.actions + count_actions b.vtx;
      pending = r.pending ++ b ∷ [];
    } in
    if leb s.actions_per_sync r'.actions || leb max_blocks_per_chunk (length r'.pending)
    then record (flush_chunk r') { actions = 0 }
    else r'

-- `prev_hash` is known and is not the one of the block.
abbrev pub breaks_chain : Option Hash → CompactBlock → Bool
breaks_chain none b = false
breaks_chain (some h) b = not (hash_eq h b.prev_hash)

abbrev pub previous_height_of : ℕ → ℕ
previous_height_of h = (h + 2 ^ 32 - 1) % 2 ^ 32

unfoldable pub receive : Scan → Reader → CompactBlock → Step
receive s r b =
    let current = b.height % 2 ^ 32 in
    let seen = record r { current_height = current } in
    let reorg_height = previous_height_of current in
    let linked = record seen { prev_hash = some b.hash; expected_height = r.expected_height + 1 } in
    if not (b.height == r.expected_height)
    then stop (flush_chunk r) (failed (unexpected_block r.expected_height))
    else if breaks_chain r.prev_hash b
    then stop (send (reorg s.account_ids reorg_height) (flush_chunk seen))
        (failed (reorg_at reorg_height))
    else next (push_block s b (save_time b (delivered_block linked)))

unfoldable pub read_step : Scan → Reader → Event → Step
read_step s r cancel = stop r (failed cancelled)
read_step s r tick =
    if r.previous_height == r.current_height
    then handle_error s r
    else next (record r { previous_height = r.current_height })
read_step s r (block b) = receive s r b
read_step s r stream_error = handle_error s r
read_step s r stream_end =
    if ltb s.end_height r.expected_height then stop (flush_chunk r) finished else handle_error s r
read_step s r reopened = next r
read_step s r refused = next r

-- While a reopening is awaited only its answer and a cancellation are looked at.
unfoldable pub resume_step : Reader → Event → Step
resume_step r cancel = stop r (failed cancelled)
resume_step r reopened = next (record r { mode = reading })
resume_step r refused = resume r
resume_step r _ = next r

unfoldable pub step : Scan → Reader → Event → Step
step s r e = elim r.mode [ reading ↦ read_step s r e | resuming ↦ resume_step r e ]

-- The reader over a trace of events; a trace that ends first leaves it waiting.
unfoldable pub read_block_stream : Scan → Reader → List Event → Step
read_block_stream s r [] = next r
read_block_stream s r (e ∷ es) = elim (step s r e) [
  | next r' ↦ read_block_stream s r' es
  | stop r' o ↦ stop r' o
]
