-- ===== src/Sync/Drain/Collects.antt =====
-- What a drain that succeeds has buffered.
use mathlib.Core.List.{append_assoc, append-nil}
use zcash_sdk_kmp.Base.{
  ℕ, ◌+◌, arith, ◌≡◌, refl, sym, ap, ◌∙◌, subst, Bool, true, false, ◌&&◌, Option, none, some, List,
  [], ◌∷◌, ◌++◌, length, All, leb, leb→le, inl, inr, Bool-cases, &&-parts,
}
use zcash_sdk_kmp.Base.Results.{ok, ◌>>◌, ensure, >>=-eq-ok, ensure-eq-ok, ok-inj}
use zcash_sdk_kmp.Store.{Blob}
use zcash_sdk_kmp.Sync.Windows.{fetch, window_full}
use zcash_sdk_kmp.Sync.Drain.{
  TxOut, Bundle, Transaction, Item, broken, mined, NoteRow, VinRow, WindowRows, max_buffered_txs,
  no_rows, le_bytes, add_transaction, add_vin, add_note, drain_vins, is_paid_to, drain_vouts,
  drain_bundle, drain_item, drain_items, replayed, drain_transparent_window,
}
use zcash_sdk_kmp.Sync.Drain.Carried.{
  vins_of, notes_of, bundle_vins, bundle_notes, all_transactions, all_vins, all_notes, IsWithin,
  IsFitting,
}

-- Rows with others added at their ends, all within the limits.
pub record Added (rows : WindowRows) (ts : List (Blob × ℕ)) (ns : List NoteRow) (vs : List VinRow)
    (rows' : WindowRows) : Type 0 where
  pub transactions : rows'.transactions ≡ rows.transactions ++ ts
  pub notes : rows'.notes ≡ rows.notes ++ ns
  pub vins : rows'.vins ≡ rows.vins ++ vs
  pub fits : IsFitting rows'

Added-nothing :
    (rows rows' : WindowRows) → IsFitting rows → rows ≡ rows' → Added rows [] [] [] rows'
Added-nothing rows rows' f e = subst (Added rows [] [] []) e (record {
  transactions = sym (append-nil rows.transactions);
  notes = sym (append-nil rows.notes);
  vins = sym (append-nil rows.vins);
  fits = f;
})

Added-trans :
    (a b c : WindowRows) {ts ts' : List (Blob × ℕ)} {ns ns' : List NoteRow} {vs vs' : List VinRow}
    → Added a ts ns vs b
    → Added b ts' ns' vs' c
    → Added a (ts ++ ts') (ns ++ ns') (vs ++ vs') c
Added-trans a b c {ts} {ts'} {ns} {ns'} {vs} {vs'} p q = record {
  transactions =
      q.transactions ∙ ap (λ x. x ++ ts') p.transactions ∙ append_assoc a.transactions ts ts';
  notes = q.notes ∙ ap (λ x. x ++ ns') p.notes ∙ append_assoc a.notes ns ns';
  vins = q.vins ∙ ap (λ x. x ++ vs') p.vins ∙ append_assoc a.vins vs vs';
  fits = q.fits;
}

pub drain_vins-Added :
    (txid : Blob) (height : ℕ) (vin : List Blob) (rows rows' : WindowRows)
    → IsFitting rows
    → drain_vins txid height vin rows ≡ ok rows'
    → Added rows [] [] (vins_of txid height vin) rows'
unfolding drain_vins
drain_vins-Added txid height [] rows rows' f h = Added-nothing rows rows' f (ok-inj h)
drain_vins-Added txid height (o ∷ vin) rows rows' f h =
    let v : VinRow = record { txid = txid; height = height; outpoint = o } in
    let p = ensure-eq-ok _ window_full _ h in
    let one : Added rows [] [] (v ∷ []) (add_vin rows v) = record {
      transactions = sym (append-nil rows.transactions);
      notes = sym (append-nil rows.notes);
      vins = refl;
      fits = record { transactions = f.transactions; notes = f.notes; vins = leb→le _ _ p.0 };
    } in
    Added-trans rows (add_vin rows v) rows' one
      (drain_vins-Added txid height vin (add_vin rows v) rows' one.fits p.1)

drain_vouts-Added :
    (my_address txid : Blob) (height i : ℕ) (vout : List TxOut) (rows rows' : WindowRows)
    → IsFitting rows
    → drain_vouts my_address txid height i vout rows ≡ ok rows'
    → Added rows [] (notes_of my_address txid height i vout) [] rows'
unfolding drain_vouts
drain_vouts-Added my_address txid height i [] rows rows' f h = Added-nothing rows rows' f (ok-inj h)
drain_vouts-Added my_address txid height i (out ∷ vout) rows rows' f h =
    elim (Bool-cases (is_paid_to my_address out)) [
      | inl t ↦
          let n : NoteRow = record {
            txid = txid;
            height = height;
            nullifier = txid ++ le_bytes i;
            value = out.value;
          } in
          let p = ensure-eq-ok _ window_full _ (rw t at h) in
          let one : Added rows [] (n ∷ []) [] (add_note rows n) = record {
            transactions = sym (append-nil rows.transactions);
            notes = refl;
            vins = sym (append-nil rows.vins);
            fits = record { transactions = f.transactions; notes = leb→le _ _ p.0; vins = f.vins };
          } in
          rw t (
            Added-trans rows (add_note rows n) rows' one (
              drain_vouts-Added my_address txid height (i + 1) vout (add_note rows n) rows' one.fits
                p.1))
      | inr g ↦
          rw g (drain_vouts-Added my_address txid height (i + 1) vout rows rows' f (rw g at h))
    ]

drain_bundle-Added :
    (my_address txid : Blob) (height : ℕ) (bundle : Option Bundle) (rows rows' : WindowRows)
    → IsFitting rows
    → drain_bundle my_address txid height bundle rows ≡ ok rows'
    → Added rows []
        (bundle_notes my_address txid height bundle)
        (bundle_vins txid height bundle)
        rows'
unfolding drain_bundle
drain_bundle-Added my_address txid height none rows rows' f h =
    Added-nothing rows rows' f (ok-inj h)
drain_bundle-Added my_address txid height (some b) rows rows' f h =
    let p = >>=-eq-ok _ _ h in
    let first = drain_vins-Added txid height b.vin rows p.0 f p.1 in
    let both =
      Added-trans rows p.0 rows' first
        (drain_vouts-Added my_address txid height 0 b.vout p.0 rows' first.fits p.2) in
    subst (λ vs. Added rows [] (notes_of my_address txid height 0 b.vout) vs rows')
      (append-nil (vins_of txid height b.vin)) both

drain_item-broken :
    (my_address : Blob) (lo hi : ℕ) (rows rows' : WindowRows)
    → drain_item my_address lo hi broken rows ≡ ok rows'
    → ⊥
unfolding drain_item
drain_item-broken my_address lo hi rows rows' h = cc

ensure-true : {E : Type 0} (b : Bool) (e : E) {u : Unit {0}} → ensure b e ≡ ok u → b ≡ true
ensure-true false e h = cc
ensure-true true e h = refl

pub drain_item-Added :
    (my_address : Blob) (lo hi height : ℕ) (tx : Transaction) (rows rows' : WindowRows)
    → IsFitting rows
    → drain_item my_address lo hi (mined height tx) rows ≡ ok rows'
    → IsWithin lo hi (mined height tx)
      × Added rows
          ((tx.txid, height) ∷ [])
          (bundle_notes my_address tx.txid height tx.transparent_bundle)
          (bundle_vins tx.txid height tx.transparent_bundle)
          rows'
unfolding drain_item
drain_item-Added my_address lo hi height tx rows rows' f h =
    let near = leb lo height && leb height hi in
    let next = add_transaction rows (tx.txid, height) in
    let few = leb (length next.transactions) max_buffered_txs in
    let p = >>=-eq-ok (ensure near fetch >> ensure few window_full) _ h in
    let q = ensure-eq-ok near fetch (ensure few window_full) p.1 in
    let within = &&-parts (leb lo height) (leb height hi) q.0 in
    let one : Added rows ((tx.txid, height) ∷ []) [] [] next = record {
      transactions = refl;
      notes = sym (append-nil rows.notes);
      vins = sym (append-nil rows.vins);
      fits = record {
        transactions = leb→le _ _ (ensure-true few window_full q.1);
        notes = f.notes;
        vins = f.vins;
      };
    } in
    (
      (leb→le lo height within.0, leb→le height hi within.1),
      Added-trans rows next rows' one (
          drain_bundle-Added my_address tx.txid height tx.transparent_bundle next rows' one.fits
            p.2),
    )

drain_items-Added :
    (my_address : Blob) (lo hi : ℕ) (items : List Item) (rows rows' : WindowRows)
    → IsFitting rows
    → drain_items my_address lo hi items rows ≡ ok rows'
    → All (IsWithin lo hi) items
      × Added rows (all_transactions items) (all_notes my_address items) (all_vins items) rows'
unfolding drain_items
drain_items-Added my_address lo hi [] rows rows' f h = (tt, Added-nothing rows rows' f (ok-inj h))
drain_items-Added my_address lo hi (broken ∷ items) rows rows' f h =
    let p = >>=-eq-ok _ _ h in absurd (drain_item-broken my_address lo hi rows p.0 p.1)
drain_items-Added my_address lo hi (mined height tx ∷ items) rows rows' f h =
    let p = >>=-eq-ok _ _ h in
    let now = drain_item-Added my_address lo hi height tx rows p.0 f p.1 in
    let rest = drain_items-Added my_address lo hi items p.0 rows' now.1.fits p.2 in
    ((now.0, rest.0), Added-trans rows p.0 rows' now.1 rest.1)

-- A drain that succeeds.
pub drain_transparent_window-collects :
    (my_address : Blob) (first : Option Item) (txs : List Item) (lo hi : ℕ) (rows : WindowRows)
    → drain_transparent_window my_address first txs lo hi ≡ ok rows
    → let items = replayed first txs in
      All (IsWithin lo hi) items
      × (rows.transactions ≡ all_transactions items)
      × (rows.notes ≡ all_notes my_address items)
      × (rows.vins ≡ all_vins items)
      × IsFitting rows
unfolding drain_transparent_window
drain_transparent_window-collects my_address first txs lo hi rows h =
    let v =
      drain_items-Added my_address lo hi (replayed first txs) no_rows rows
        (record { transactions = omega arith; notes = omega arith; vins = omega arith }) h in
    (v.0, v.1.transactions, v.1.notes, v.1.vins, v.1.fits)
