-- ===== src/Sync/Ingest/Resolves.antt =====
-- The outputs and the inputs of a window are recorded.
use zcash_sdk_kmp.Base.{
  All-map, ℕ, ◌≡◌, refl, Bool, true, Option, none, some, List, [], ◌∷◌, ◌++◌, ◌==◌, ==_iff, All,
  inl, inr, Bool-cases,
}
use zcash_sdk_kmp.Base.Results.{ok}
use zcash_sdk_kmp.Store.{Blob}
use zcash_sdk_kmp.Sync.Drain.{Item, NoteRow, VinRow, WindowRows, drain_transparent_window}
use zcash_sdk_kmp.Sync.Drain.Carried.{all_vins, all_notes, IsWithin, IsFitting}
use zcash_sdk_kmp.Sync.Drain.Succeeds.{collected, drain_transparent_window_iff}
use zcash_sdk_kmp.Sync.Ingest.Notes.{IsStored, insert_notes-IsStored}
use zcash_sdk_kmp.Sync.Ingest.Spends.{HasSpend, resolve_vins-HasSpend}
use zcash_sdk_kmp.Sync.Ingest.Listed.{
  IsFound, IsListed, insert_transactions-IsFound, all_vins-IsListed, all_notes-IsListed,
}
use zcash_sdk_kmp.Sync.Ingest.{
  TransactionRow, StoredNote, SpendRow, WindowDb, find_transaction, find_note, has_spend,
  spend_found, insert_transactions, insert_notes, resolve_vin, resolve_vins,
  write_transparent_window, is_used, ingest_window,
}

-- The note that an outpoint finds, if any, is spent.
abbrev pub IsSpent : Option StoredNote → List SpendRow → Type 0
IsSpent none ss = Unit
IsSpent (some n) ss = has_spend n.id_note ss ≡ true

has_spend-append :
    (id_note : ℕ) (ss us : List SpendRow)
    → has_spend id_note ss ≡ true
    → has_spend id_note (ss ++ us) ≡ true
has_spend-append id_note [] us h = cc
has_spend-append id_note (s ∷ ss) us h = elim (Bool-cases (s.id_note == id_note)) [
  | inl e ↦ rw e refl
  | inr e ↦ rw e (has_spend-append id_note ss us (rw e at h))
]

has_spend-last :
    (id_note : ℕ) (ss : List SpendRow) (s : SpendRow)
    → (s.id_note == id_note) ≡ true
    → has_spend id_note (ss ++ s ∷ []) ≡ true
has_spend-last id_note [] s e = rw e refl
has_spend-last id_note (x ∷ ss) s e = elim (Bool-cases (x.id_note == id_note)) [
  | inl g ↦ rw g refl
  | inr g ↦ rw g (has_spend-last id_note ss s e)
]

module _ (account : ℕ) (ts : List TransactionRow) (ns : List StoredNote) where
  resolve_vin-IsSpent :
      (v : VinRow) (ss : List SpendRow)
      → IsFound (find_transaction account v.txid ts)
      → IsSpent (find_note account v.outpoint ns) (resolve_vin account ts ns v ss)
  unfolding resolve_vin
  resolve_vin-IsSpent v ss f =
      go (find_note account v.outpoint ns) (find_transaction account v.txid ts) f
    where
      go :
          (n : Option StoredNote) (t : Option TransactionRow)
          → IsFound t
          → IsSpent n (spend_found account v ss n t)
      go none t f = tt
      go (some n) none f = absurd f
      go (some n) (some t) f = elim (Bool-cases (has_spend n.id_note ss)) [
        | inl e ↦ rw (e, e) refl
        | inr e ↦ rw e (has_spend-last n.id_note ss _ ((==_iff n.id_note n.id_note).1 refl))
      ]

  resolve_vin-keeps :
      (v : VinRow) (ss : List SpendRow) (n : Option StoredNote)
      → IsSpent n ss
      → IsSpent n (resolve_vin account ts ns v ss)
  unfolding resolve_vin
  resolve_vin-keeps v ss none h = tt
  resolve_vin-keeps v ss (some n) h =
      go (find_note account v.outpoint ns) (find_transaction account v.txid ts)
    where
      go :
          (m : Option StoredNote) (t : Option TransactionRow)
          → has_spend n.id_note (spend_found account v ss m t) ≡ true
      go none t = h
      go (some m) none = h
      go (some m) (some t) = elim (Bool-cases (has_spend m.id_note ss)) [
        | inl e ↦ rw e h
        | inr e ↦ rw e (has_spend-append n.id_note ss _ h)
      ]

  resolve_vins-keeps :
      (vs : List VinRow) (ss : List SpendRow) (n : Option StoredNote)
      → IsSpent n ss
      → IsSpent n (resolve_vins account ts ns vs ss)
  unfolding resolve_vins
  resolve_vins-keeps [] ss n h = h
  resolve_vins-keeps (v ∷ vs) ss n h =
      resolve_vins-keeps vs (resolve_vin account ts ns v ss) n (resolve_vin-keeps v ss n h)

  abbrev IsDone : List SpendRow → VinRow → Type 0
  IsDone ss v = IsSpent (find_note account v.outpoint ns) ss

  resolve_vins-IsDone :
      (vs : List VinRow) (ss : List SpendRow)
      → All (λ v. IsFound (find_transaction account v.txid ts)) vs
      → All (IsDone (resolve_vins account ts ns vs ss)) vs
  unfolding resolve_vins
  resolve_vins-IsDone [] ss f = tt
  resolve_vins-IsDone (v ∷ vs) ss f = (
    resolve_vins-keeps vs (resolve_vin account ts ns v ss) (find_note account v.outpoint ns)
        (resolve_vin-IsSpent v ss f.0),
    resolve_vins-IsDone vs (resolve_vin account ts ns v ss) f.1,
  )

-- The account's note at the outpoint of an input, if it has one there, has a spend.
abbrev pub IsResolved : ℕ → List VinRow → WindowDb → WindowDb → VinRow → Type 0
IsResolved account all before after v =
    HasSpend account after.transactions after.notes all before.spends after.spends
      (find_note account v.outpoint after.notes)

resolved :
    (account : ℕ) (ts : List TransactionRow) (ns : List StoredNote) (all : List VinRow)
    (before : List SpendRow) (o : Option StoredNote)
    → IsSpent o (resolve_vins account ts ns all before)
    → HasSpend account ts ns all before (resolve_vins account ts ns all before) o
resolved account ts ns all before none h = tt
resolved account ts ns all before (some n) h = resolve_vins-HasSpend account ts ns all before n h

module _ (db : WindowDb) (account id_taddress : ℕ) (rows : WindowRows) (used : Bool) where
  write_transparent_window-IsStored :
      All (λ (n : NoteRow). IsListed n.txid rows.transactions) rows.notes
      → All
          (IsStored account id_taddress
            (write_transparent_window db account id_taddress rows used).transactions
            rows.notes
            db.notes
            (write_transparent_window db account id_taddress rows used).notes)
          rows.notes
  unfolding write_transparent_window
  write_transparent_window-IsStored l =
      let ts = insert_transactions account rows.transactions db.transactions in
      insert_notes-IsStored account id_taddress ts rows.notes db.notes (
        All-map (λ (n : NoteRow). IsListed n.txid rows.transactions)
          (λ n. IsFound (find_transaction account n.txid ts)) rows.notes
          (λ n k. insert_transactions-IsFound account rows.transactions n.txid db.transactions k) l)

  write_transparent_window-IsResolved :
      All (λ (v : VinRow). IsListed v.txid rows.transactions) rows.vins
      → All
          (IsResolved account rows.vins db
            (write_transparent_window db account id_taddress rows used))
          rows.vins
  unfolding write_transparent_window
  write_transparent_window-IsResolved l =
      let ts = insert_transactions account rows.transactions db.transactions in
      let ns = insert_notes account id_taddress ts rows.notes db.notes in
      All-map _ _ rows.vins
        (λ v h. resolved account ts ns rows.vins db.spends (find_note account v.outpoint ns) h)
        (resolve_vins-IsDone account ts ns rows.vins db.spends (
          All-map (λ (v : VinRow). IsListed v.txid rows.transactions)
            (λ v. IsFound (find_transaction account v.txid ts)) rows.vins
            (λ v k. insert_transactions-IsFound account rows.transactions v.txid db.transactions k)
            l))

ingest_window-drained :
    (db : WindowDb) (account id_taddress : ℕ) (my_address : Blob) (txs : List Item) (lo hi : ℕ)
    (rows : WindowRows)
    → drain_transparent_window my_address none txs lo hi ≡ ok rows
    → ingest_window db account id_taddress my_address txs lo hi
      ≡ ok (write_transparent_window db account id_taddress rows (is_used rows.transactions))
unfolding ingest_window
ingest_window-drained db account id_taddress my_address txs lo hi rows e = rw e refl

-- A window whose stream is transactions at heights within it, and no more than the limits, is
-- ingested. Then each output to the address is a note of the account, which was there before or has
-- the output's height, value and address and its transaction; and the account's note at the outpoint
-- of an input, also one that came later in the stream, has a spend, which was there before or has the
-- height and the transaction of an input of the window at the outpoint of a note with that id, and
-- the value of that note taken away.
pub ingest_window-IsResolved :
    (db : WindowDb) (account id_taddress : ℕ) (my_address : Blob) (txs : List Item) (lo hi : ℕ)
    → All (IsWithin lo hi) txs
    → IsFitting (collected my_address txs)
    → (db' : WindowDb) × (ingest_window db account id_taddress my_address txs lo hi ≡ ok db')
      × All
          (IsStored account id_taddress db'.transactions
            (all_notes my_address txs)
            db.notes
            db'.notes)
          (all_notes my_address txs)
      × All (IsResolved account (all_vins txs) db db') (all_vins txs)
ingest_window-IsResolved db account id_taddress my_address txs lo hi w f =
    let rows = collected my_address txs in
    let used = is_used rows.transactions in
    (
      write_transparent_window db account id_taddress rows used,
      ingest_window-drained db account id_taddress my_address txs lo hi rows
          ((drain_transparent_window_iff my_address none txs lo hi rows).1 (w, f, refl)),
      write_transparent_window-IsStored db account id_taddress rows used
          (all_notes-IsListed my_address txs),
      write_transparent_window-IsResolved db account id_taddress rows used (all_vins-IsListed txs),
    )
