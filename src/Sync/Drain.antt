-- ===== src/Sync/Drain.antt =====
-- One address's window taken off the stream: drain_transparent_window of rust/rlz/src/sync.rs. A
-- transaction is what the zcash crates report of it; an outpoint and an address are given by bytes.
use zcash_sdk_kmp.Base.{
  ℕ, ◌+◌, ◌/◌, ◌%◌, ◌^◌, Bool, true, false, not, ◌&&◌, Option, none, some, List, [], ◌∷◌, ◌++◌,
  length, ltb, leb, list_eq, if◌then◌else◌,
}
use zcash_sdk_kmp.Base.Results.{Result, ok, err, ◌>>=◌, ◌>>◌, ensure}
use zcash_sdk_kmp.Store.{Blob}
use zcash_sdk_kmp.Sync.Windows.{BackfillError, fetch, window_full}
pub mod Carried
pub mod Collects
pub mod Succeeds

pub record TxOut : Type 0 where
  pub recipient_address : Option Blob
  pub value : ℕ

pub record Bundle : Type 0 where
  pub vin : List Blob
  pub vout : List TxOut

pub record Transaction : Type 0 where
  pub txid : Blob
  pub transparent_bundle : Option Bundle

-- An item of the stream: an error of the server, or a transaction and its height.
pub data Item : Type 0 where
  broken : Item
  mined : ℕ → Transaction → Item

pub record NoteRow : Type 0 where
  pub txid : Blob
  pub height : ℕ
  pub nullifier : Blob
  pub value : ℕ

pub record VinRow : Type 0 where
  pub txid : Blob
  pub height : ℕ
  pub outpoint : Blob

pub record WindowRows : Type 0 where
  pub transactions : List (Blob × ℕ)
  pub notes : List NoteRow
  pub vins : List VinRow

abbrev pub max_buffered_txs : ℕ
max_buffered_txs = 50_000

abbrev pub max_buffered_vins : ℕ
max_buffered_vins = 200_000

abbrev pub max_buffered_notes : ℕ
max_buffered_notes = 200_000

abbrev pub no_rows : WindowRows
no_rows = record { transactions = []; notes = []; vins = [] }

-- `(i as u32).to_le_bytes()`.
abbrev pub le_bytes : ℕ → Blob
le_bytes i =
    let w = i % 2 ^ 32 in w % 256 ∷ (w / 256) % 256 ∷ (w / 65536) % 256 ∷ (w / 16777216) % 256 ∷ []

abbrev pub add_transaction : WindowRows → Blob × ℕ → WindowRows
add_transaction rows t = record {
  transactions = rows.transactions ++ t ∷ [];
  notes = rows.notes;
  vins = rows.vins;
}

abbrev pub add_vin : WindowRows → VinRow → WindowRows
add_vin rows v = record {
  transactions = rows.transactions;
  notes = rows.notes;
  vins = rows.vins ++ v ∷ [];
}

abbrev pub add_note : WindowRows → NoteRow → WindowRows
add_note rows n = record {
  transactions = rows.transactions;
  notes = rows.notes ++ n ∷ [];
  vins = rows.vins;
}

unfoldable pub drain_vins : Blob → ℕ → List Blob → WindowRows → Result BackfillError WindowRows
drain_vins txid height [] rows = ok rows
drain_vins txid height (outpoint ∷ vin) rows =
    let rows' = add_vin rows (record { txid = txid; height = height; outpoint = outpoint }) in
    ensure (leb (length rows'.vins) max_buffered_vins) window_full
    >> drain_vins txid height vin rows'

abbrev pub is_paid_to : Blob → TxOut → Bool
is_paid_to my_address out = elim out.recipient_address [
  | none ↦ false
  | some a ↦ list_eq a my_address
]

unfoldable pub drain_vouts :
    Blob → Blob → ℕ → ℕ → List TxOut → WindowRows → Result BackfillError WindowRows
drain_vouts my_address txid height i [] rows = ok rows
drain_vouts my_address txid height i (out ∷ vout) rows =
    let rows' = add_note rows (record {
      txid = txid;
      height = height;
      nullifier = txid ++ le_bytes i;
      value = out.value;
    }) in
    let skipped = drain_vouts my_address txid height (i + 1) vout rows in
    let kept =
      ensure (leb (length rows'.notes) max_buffered_notes) window_full
      >> drain_vouts my_address txid height (i + 1) vout rows' in
    if is_paid_to my_address out then kept else skipped

unfoldable pub drain_bundle :
    Blob → Blob → ℕ → Option Bundle → WindowRows → Result BackfillError WindowRows
drain_bundle my_address txid height none rows = ok rows
drain_bundle my_address txid height (some bundle) rows =
    drain_vins txid height bundle.vin rows >>= λ rows'.
    drain_vouts my_address txid height 0 bundle.vout rows'

unfoldable pub drain_item : Blob → ℕ → ℕ → Item → WindowRows → Result BackfillError WindowRows
drain_item my_address lo hi broken rows = err fetch
drain_item my_address lo hi (mined height tx) rows =
    let rows' = add_transaction rows (tx.txid, height) in
    ensure (leb lo height && leb height hi) fetch
    >> ensure (leb (length rows'.transactions) max_buffered_txs) window_full
    >> drain_bundle my_address tx.txid height tx.transparent_bundle rows'

unfoldable pub drain_items : Blob → ℕ → ℕ → List Item → WindowRows → Result BackfillError WindowRows
drain_items my_address lo hi [] rows = ok rows
drain_items my_address lo hi (item ∷ items) rows =
    drain_item my_address lo hi item rows >>= λ rows'. drain_items my_address lo hi items rows'

abbrev pub replayed : Option Item → List Item → List Item
replayed none items = items
replayed (some item) items = item ∷ items

unfoldable pub drain_transparent_window :
    Blob → Option Item → List Item → ℕ → ℕ → Result BackfillError WindowRows
drain_transparent_window my_address first txs lo hi =
    drain_items my_address lo hi (replayed first txs) no_rows
