-- ===== src/Sync/Drain/Succeeds.antt =====
-- When a drain succeeds.
use zcash_sdk_kmp.Base.{
  ℕ, ◌+◌, ◌≤◌, arith, ◌≡◌, ◌↔◌, refl, sym, ap, ◌∙◌, subst, true, Option, none, some, List, [], ◌∷◌,
  ◌++◌, length, length-append, All, leb, le→leb, inl, inr, Bool-cases,
}
use zcash_sdk_kmp.Base.Results.{Result, ok}
use zcash_sdk_kmp.Store.{Blob}
use zcash_sdk_kmp.Sync.Windows.{BackfillError}
use zcash_sdk_kmp.Sync.Drain.{
  TxOut, Bundle, Transaction, Item, broken, mined, NoteRow, VinRow, WindowRows, max_buffered_txs,
  max_buffered_vins, max_buffered_notes, no_rows, le_bytes, add_transaction, add_vin, add_note,
  drain_vins, is_paid_to, drain_vouts, drain_bundle, drain_item, drain_items, replayed,
  drain_transparent_window,
}
use zcash_sdk_kmp.Sync.Drain.Carried.{
  vins_of, notes_of, bundle_vins, bundle_notes, all_transactions, all_vins, all_notes, IsWithin,
  IsFitting,
}
use zcash_sdk_kmp.Sync.Drain.Collects.{drain_transparent_window-collects}

-- The lengths that rows have once others are added.
pub record Sized (rows : WindowRows) (t n v : ℕ) (rows' : WindowRows) : Type 0 where
  pub transactions : length rows'.transactions ≡ length rows.transactions + t
  pub notes : length rows'.notes ≡ length rows.notes + n
  pub vins : length rows'.vins ≡ length rows.vins + v

-- A function that gives such rows.
abbrev Gives : WindowRows → ℕ → ℕ → ℕ → Result BackfillError WindowRows → Type 0
Gives rows t n v m = (rows' : WindowRows) × (m ≡ ok rows') × Sized rows t n v rows'

drain_vins-Gives :
    (txid : Blob) (height : ℕ) (vin : List Blob) (rows : WindowRows)
    → length rows.vins + length (vins_of txid height vin) ≤ max_buffered_vins
    → Gives rows 0 0 (length (vins_of txid height vin)) (drain_vins txid height vin rows)
unfolding drain_vins
drain_vins-Gives txid height [] rows b =
    (rows, refl, record { transactions = omega arith; notes = omega arith; vins = omega arith })
drain_vins-Gives txid height (o ∷ vin) rows b =
    let v : VinRow = record { txid = txid; height = height; outpoint = o } in
    let one = length-append rows.vins (v ∷ []) in
    let rest = drain_vins-Gives txid height vin (add_vin rows v) (omega (arith, b, one)) in
    let few : leb (length (rows.vins ++ v ∷ [])) max_buffered_vins ≡ true =
      le→leb _ _ (omega (arith, b, one)) in
    (
      rest.0,
      rw few rest.1,
      record {
        transactions = rest.2.transactions;
        notes = rest.2.notes;
        vins = omega (arith, rest.2.vins, one);
      },
    )

drain_vouts-Gives :
    (my_address txid : Blob) (height i : ℕ) (vout : List TxOut) (rows : WindowRows)
    → length rows.notes + length (notes_of my_address txid height i vout) ≤ max_buffered_notes
    → Gives rows 0
        (length (notes_of my_address txid height i vout))
        0
        (drain_vouts my_address txid height i vout rows)
unfolding drain_vouts
drain_vouts-Gives my_address txid height i [] rows b =
    (rows, refl, record { transactions = omega arith; notes = omega arith; vins = omega arith })
drain_vouts-Gives my_address txid height i (out ∷ vout) rows b =
    elim (Bool-cases (is_paid_to my_address out)) [
      | inl t ↦
          let n : NoteRow = record {
            txid = txid;
            height = height;
            nullifier = txid ++ le_bytes i;
            value = out.value;
          } in
          let one = length-append rows.notes (n ∷ []) in
          let b' : length rows.notes + (1 + length (notes_of my_address txid height (i + 1) vout))
              ≤ max_buffered_notes =
            omega (arith, rw t at b) in
          let rest =
            drain_vouts-Gives my_address txid height (i + 1) vout (add_note rows n)
              (omega (arith, b', one)) in
          let few : leb (length (rows.notes ++ n ∷ [])) max_buffered_notes ≡ true =
            le→leb _ _ (omega (arith, b', one)) in
          rw (t, few)
            (
              rest.0,
              rest.1,
              record {
                transactions = rest.2.transactions;
                notes = omega (arith, rest.2.notes, one);
                vins = rest.2.vins;
              },
            )
      | inr f ↦ rw f (drain_vouts-Gives my_address txid height (i + 1) vout rows (rw f at b))
    ]

drain_bundle-Gives :
    (my_address txid : Blob) (height : ℕ) (bundle : Option Bundle) (rows : WindowRows)
    → length rows.notes + length (bundle_notes my_address txid height bundle) ≤ max_buffered_notes
    → length rows.vins + length (bundle_vins txid height bundle) ≤ max_buffered_vins
    → Gives rows 0
        (length (bundle_notes my_address txid height bundle))
        (length (bundle_vins txid height bundle))
        (drain_bundle my_address txid height bundle rows)
unfolding drain_bundle
drain_bundle-Gives my_address txid height none rows bn bv =
    (rows, refl, record { transactions = omega arith; notes = omega arith; vins = omega arith })
drain_bundle-Gives my_address txid height (some b) rows bn bv =
    let first = drain_vins-Gives txid height b.vin rows bv in
    let second =
      drain_vouts-Gives my_address txid height 0 b.vout first.0
        (omega (arith, bn, first.2.notes)) in
    (
      second.0,
      rw first.1 second.1,
      record {
        transactions = omega (arith, second.2.transactions, first.2.transactions);
        notes = omega (arith, second.2.notes, first.2.notes);
        vins = omega (arith, second.2.vins, first.2.vins);
      },
    )

drain_item-Gives :
    (my_address : Blob) (lo hi height : ℕ) (tx : Transaction) (rows : WindowRows)
    → IsWithin lo hi (mined height tx)
    → length rows.transactions + 1 ≤ max_buffered_txs
    → length rows.notes + length (bundle_notes my_address tx.txid height tx.transparent_bundle)
      ≤ max_buffered_notes
    → length rows.vins + length (bundle_vins tx.txid height tx.transparent_bundle)
      ≤ max_buffered_vins
    → Gives rows 1
        (length (bundle_notes my_address tx.txid height tx.transparent_bundle))
        (length (bundle_vins tx.txid height tx.transparent_bundle))
        (drain_item my_address lo hi (mined height tx) rows)
unfolding drain_item
drain_item-Gives my_address lo hi height tx rows w bt bn bv =
    let next = add_transaction rows (tx.txid, height) in
    let one = length-append rows.transactions ((tx.txid, height) ∷ []) in
    let few : leb (length next.transactions) max_buffered_txs ≡ true =
      le→leb _ _ (omega (arith, bt, one)) in
    let rest = drain_bundle-Gives my_address tx.txid height tx.transparent_bundle next bn bv in
    (
      rest.0,
      rw (le→leb lo height w.0, le→leb height hi w.1, few) rest.1,
      record {
        transactions = omega (arith, rest.2.transactions, one);
        notes = rest.2.notes;
        vins = rest.2.vins;
      },
    )

drain_items-Gives :
    (my_address : Blob) (lo hi : ℕ) (items : List Item) (rows : WindowRows)
    → All (IsWithin lo hi) items
    → length rows.transactions + length (all_transactions items) ≤ max_buffered_txs
    → length rows.notes + length (all_notes my_address items) ≤ max_buffered_notes
    → length rows.vins + length (all_vins items) ≤ max_buffered_vins
    → (rows' : WindowRows) × (drain_items my_address lo hi items rows ≡ ok rows')
unfolding drain_items
drain_items-Gives my_address lo hi [] rows w bt bn bv = (rows, refl)
drain_items-Gives my_address lo hi (broken ∷ items) rows w bt bn bv = absurd w.0
drain_items-Gives my_address lo hi (mined height tx ∷ items) rows w bt bn bv =
    let ns = bundle_notes my_address tx.txid height tx.transparent_bundle in
    let vs = bundle_vins tx.txid height tx.transparent_bundle in
    let ln = length-append ns (all_notes my_address items) in
    let lv = length-append vs (all_vins items) in
    let now =
      drain_item-Gives my_address lo hi height tx rows w.0 (omega (arith, bt))
        (omega (arith, bn, ln)) (omega (arith, bv, lv)) in
    let rest =
      drain_items-Gives my_address lo hi items now.0 w.1 (omega (arith, bt, now.2.transactions))
        (omega (arith, bn, ln, now.2.notes)) (omega (arith, bv, lv, now.2.vins)) in
    (rest.0, rw now.1 rest.1)

pub drain_transparent_window_succeeds :
    (my_address : Blob) (first : Option Item) (txs : List Item) (lo hi : ℕ)
    → All (IsWithin lo hi) (replayed first txs)
    → length (all_transactions (replayed first txs)) ≤ max_buffered_txs
    → length (all_notes my_address (replayed first txs)) ≤ max_buffered_notes
    → length (all_vins (replayed first txs)) ≤ max_buffered_vins
    → (rows : WindowRows) × (drain_transparent_window my_address first txs lo hi ≡ ok rows)
unfolding drain_transparent_window
drain_transparent_window_succeeds my_address first txs lo hi w bt bn bv =
    drain_items-Gives my_address lo hi (replayed first txs) no_rows w (omega (arith, bt))
      (omega (arith, bn)) (omega (arith, bv))

-- The transactions of a stream, their inputs, and their outputs to an address, in order.
abbrev pub collected : Blob → List Item → WindowRows
collected my_address items = record {
  transactions = all_transactions items;
  notes = all_notes my_address items;
  vins = all_vins items;
}

-- A window is drained into rows exactly when each item of its stream is a transaction at a height
-- within the window, the rows are the transactions, their inputs and their outputs to the address,
-- all of them and in order, and there are no more of each than the limits.
pub drain_transparent_window_iff :
    (my_address : Blob) (first : Option Item) (txs : List Item) (lo hi : ℕ) (rows : WindowRows)
    → (drain_transparent_window my_address first txs lo hi ≡ ok rows) ↔ (
        All (IsWithin lo hi) (replayed first txs)
        × IsFitting rows
        × (rows ≡ collected my_address (replayed first txs)))
drain_transparent_window_iff my_address first txs lo hi rows =
    let items = replayed first txs in
    (
      λ h.
          let v = drain_transparent_window-collects my_address first txs lo hi rows h in
          (v.0, v.4, same v.1 v.2 v.3),
      λ c.
          let f = subst IsFitting c.2 c.1 in
          let v =
            drain_transparent_window_succeeds my_address first txs lo hi c.0 f.transactions f.notes
              f.vins in
          let w = drain_transparent_window-collects my_address first txs lo hi v.0 v.1 in
          v.1 ∙ ap ok (same w.1 w.2 w.3 ∙ sym c.2),
    )
  where
    same :
        {r : WindowRows}
        → r.transactions ≡ all_transactions (replayed first txs)
        → r.notes ≡ all_notes my_address (replayed first txs)
        → r.vins ≡ all_vins (replayed first txs)
        → r ≡ collected my_address (replayed first txs)
    same t n v = λ i. record { transactions = t i; notes = n i; vins = v i }
