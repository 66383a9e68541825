-- ===== src/Vault/Log.antt =====
-- rust/rlz/src/vault/crypto.rs: `parse_entries`, the scan of the vault's bytes. The position of the
-- scan is the list of the bytes from it on. Each round leaves fewer bytes, so as many rounds as there
-- are bytes, and one for the end, are enough.
mod Safe
pub mod Total
pub mod Append
use zcash_sdk_kmp.Base.{
  ℕ, zero, suc, ◌+◌, ◌*◌, ◌-◌, ◌<◌, ◌≤◌, ◌≡◌, refl, sym, ap, ◌∙◌, Bool, true, false, List, [], ◌∷◌,
  ◌++◌, arith, length, take, drop, Option, some, none, ltb, if◌then◌else◌, All,
}
use zcash_sdk_kmp.Base.Partial.{◌>>=◌, ◌>>◌}
use zcash_sdk_kmp.Vault.Bytes.{Error, Outcome, ok, err, panic}
use zcash_sdk_kmp.Vault.Entry.{LogEntry, IsEntry, read_entry, write_entry}

-- What the tag says of the frame.
pub data Frame : Type 0 where
  sized : ℕ → Frame
  truncated_header : Frame
  invalid : Frame

abbrev pub account_frame : List ℕ → Frame
account_frame [] = truncated_header
account_frame (hi ∷ []) = truncated_header
account_frame (hi ∷ lo ∷ bs) = sized (3 + (hi * 256 + lo))

abbrev pub frame_size : ℕ → List ℕ → Frame
frame_size zero bs = sized 109
frame_size (suc zero) bs = sized 81
frame_size (suc (suc zero)) bs = account_frame bs
frame_size (suc (suc (suc tag))) bs = invalid

-- One round of the loop.
pub data Step : Type 0 where
  stop : Step
  -- the entries that the round pushes, and the bytes after it
  advance : List LogEntry → List ℕ → Step
  crash : Step

abbrev pub push_entry : Outcome LogEntry → List ℕ → Step
push_entry (ok e _) rest = advance (e ∷ []) rest
push_entry (err _) rest = advance [] rest
push_entry panic rest = crash

unfoldable pub read_frame : ℕ → List ℕ → Step
read_frame size bs =
    if ltb (length (take size bs)) size
    then advance [] (drop size bs)
    else push_entry (read_entry (take size bs)) (drop size bs)

unfoldable pub parse_step : List ℕ → Step
parse_step [] = stop
parse_step (tag ∷ bs) = elim (frame_size tag bs) [
  | sized size ↦ read_frame size (tag ∷ bs)
  | truncated_header ↦ stop
  | invalid ↦ advance [] bs
]

-- The entries, or nothing when a read panics or the rounds run out.
unfoldable pub parse_from : ℕ → List ℕ → Option (List LogEntry)
parse_from zero bs = none
parse_from (suc fuel) bs = elim (parse_step bs) [
  | stop ↦ some []
  | advance es rest ↦ do later ← parse_from fuel rest; some (es ++ later)
  | crash ↦ none
]

unfoldable pub parse_entries : List ℕ → Option (List LogEntry)
parse_entries bs = parse_from (suc (length bs)) bs

-- The bytes of a vault to which the entries were appended one after the other.
unfoldable pub write_log : List LogEntry → List ℕ
write_log [] = []
write_log (e ∷ es) = write_entry e ++ write_log es
