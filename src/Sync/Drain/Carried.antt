-- ===== src/Sync/Drain/Carried.antt =====
-- What the items of a stream carry for an address.
use zcash_sdk_kmp.Base.{
  ℕ, ◌+◌, ◌≤◌, Option, none, some, List, [], ◌∷◌, ◌++◌, map, length, if◌then◌else◌,
}
use zcash_sdk_kmp.Store.{Blob}
use zcash_sdk_kmp.Sync.Drain.{
  TxOut, Bundle, Item, broken, mined, NoteRow, VinRow, WindowRows, max_buffered_txs,
  max_buffered_vins, max_buffered_notes, le_bytes, is_paid_to,
}

-- The inputs of a transaction.
abbrev pub vins_of : Blob → ℕ → List Blob → List VinRow
vins_of txid height vin = map (λ o. record { txid = txid; height = height; outpoint = o }) vin

-- The outputs that are paid to an address, from the output at a position on.
abbrev pub notes_of : Blob → Blob → ℕ → ℕ → List TxOut → List NoteRow
notes_of my_address txid height i [] = []
notes_of my_address txid height i (out ∷ vout) =
    let rest = notes_of my_address txid height (i + 1) vout in
    if is_paid_to my_address out
    then record { txid = txid; height = height; nullifier = txid ++ le_bytes i; value = out.value }
      ∷ rest
    else rest

abbrev pub bundle_vins : Blob → ℕ → Option Bundle → List VinRow
bundle_vins txid height none = []
bundle_vins txid height (some b) = vins_of txid height b.vin

abbrev pub bundle_notes : Blob → Blob → ℕ → Option Bundle → List NoteRow
bundle_notes my_address txid height none = []
bundle_notes my_address txid height (some b) = notes_of my_address txid height 0 b.vout

-- What the items of a stream carry.
abbrev pub all_transactions : List Item → List (Blob × ℕ)
all_transactions [] = []
all_transactions (broken ∷ items) = all_transactions items
all_transactions (mined height tx ∷ items) = (tx.txid, height) ∷ all_transactions items

abbrev pub all_vins : List Item → List VinRow
all_vins [] = []
all_vins (broken ∷ items) = all_vins items
all_vins (mined height tx ∷ items) =
    bundle_vins tx.txid height tx.transparent_bundle ++ all_vins items

abbrev pub all_notes : Blob → List Item → List NoteRow
all_notes my_address [] = []
all_notes my_address (broken ∷ items) = all_notes my_address items
all_notes my_address (mined height tx ∷ items) =
    bundle_notes my_address tx.txid height tx.transparent_bundle ++ all_notes my_address items

-- An item that is a transaction in a range of heights.
abbrev pub IsWithin : ℕ → ℕ → Item → Type 0
IsWithin lo hi broken = ⊥
IsWithin lo hi (mined height tx) = (lo ≤ height) × (height ≤ hi)

pub record IsFitting (rows : WindowRows) : Type 0 where
  pub transactions : length rows.transactions ≤ max_buffered_txs
  pub notes : length rows.notes ≤ max_buffered_notes
  pub vins : length rows.vins ≤ max_buffered_vins
