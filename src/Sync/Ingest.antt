-- ===== src/Sync/Ingest.antt =====
-- The rows of one address's window written to the database: write_transparent_window of
-- rust/rlz/src/sync.rs. A new row takes the id after the largest, as SQLite does; an INSERT that
-- meets a row with its key does nothing. That a statement itself fails is not modelled.
use zcash_sdk_kmp.Base.{
  ℕ, ◌+◌, max, Bool, true, false, ◌&&◌, ◌||◌, Option, none, some, List, [], ◌∷◌, ◌++◌, map, ◌==◌,
  list_eq, if◌then◌else◌,
}
use zcash_sdk_kmp.Base.Integers.{ℤ, neg}
use zcash_sdk_kmp.Store.{Blob}
use zcash_sdk_kmp.Base.Results.{Result, ok, err, ◌>>=◌}
use zcash_sdk_kmp.Sync.Windows.{BackfillError}
use zcash_sdk_kmp.Sync.Drain.{Item, NoteRow, VinRow, WindowRows, drain_transparent_window}
pub mod Listed
pub mod Notes
pub mod Spends
pub mod Resolves

pub record TransactionRow : Type 0 where
  pub id_tx : ℕ
  pub account : ℕ
  pub txid : Blob
  pub height : ℕ
  pub time : ℕ

pub record StoredNote : Type 0 where
  pub id_note : ℕ
  pub account : ℕ
  pub height : ℕ
  pub pool : ℕ
  pub tx : ℕ
  pub taddress : Option ℕ
  pub nullifier : Blob
  pub value : ℕ

pub record SpendRow : Type 0 where
  pub id_note : ℕ
  pub account : ℕ
  pub pool : ℕ
  pub tx : ℕ
  pub height : ℕ
  pub value : ℤ

pub record SeenAddress : Type 0 where
  pub id_taddress : ℕ
  pub seen_used : Bool

pub record WindowDb : Type 0 where
  pub addresses : List SeenAddress
  pub transactions : List TransactionRow
  pub notes : List StoredNote
  pub spends : List SpendRow

abbrev pub find_transaction : ℕ → Blob → List TransactionRow → Option TransactionRow
find_transaction account txid [] = none
find_transaction account txid (t ∷ ts) =
    let rest = find_transaction account txid ts in
    if t.account == account && list_eq t.txid txid then some t else rest

abbrev pub find_note : ℕ → Blob → List StoredNote → Option StoredNote
find_note account nullifier [] = none
find_note account nullifier (n ∷ ns) =
    let rest = find_note account nullifier ns in
    if n.account == account && list_eq n.nullifier nullifier then some n else rest

abbrev pub has_spend : ℕ → List SpendRow → Bool
has_spend id_note [] = false
has_spend id_note (s ∷ ss) = s.id_note == id_note || has_spend id_note ss

abbrev next_id_tx : List TransactionRow → ℕ
next_id_tx [] = 1
next_id_tx (t ∷ ts) = max (t.id_tx + 1) (next_id_tx ts)

abbrev next_id_note : List StoredNote → ℕ
next_id_note [] = 1
next_id_note (n ∷ ns) = max (n.id_note + 1) (next_id_note ns)

abbrev see : ℕ → SeenAddress → SeenAddress
see id_taddress a =
    if a.id_taddress == id_taddress
    then record { id_taddress = a.id_taddress; seen_used = true }
    else a

abbrev pub unless_found :
    ℕ → Blob × ℕ → List TransactionRow → Option TransactionRow → List TransactionRow
unless_found account t ts none =
    ts
    ++ record { id_tx = next_id_tx ts; account = account; txid = t.0; height = t.1; time = 0 } ∷ []
unless_found account t ts (some _) = ts

unfoldable pub insert_transaction : ℕ → Blob × ℕ → List TransactionRow → List TransactionRow
insert_transaction account t ts = unless_found account t ts (find_transaction account t.0 ts)

unfoldable pub insert_transactions : ℕ → List (Blob × ℕ) → List TransactionRow → List TransactionRow
insert_transactions account [] ts = ts
insert_transactions account (t ∷ rest) ts =
    insert_transactions account rest (insert_transaction account t ts)

-- The row of a note, unless its key is there.
abbrev pub unless_stored :
    ℕ → ℕ → NoteRow → List StoredNote → TransactionRow → Option StoredNote → List StoredNote
unless_stored account id_taddress n ns t none =
    ns
    ++ record {
      id_note = next_id_note ns;
      account = account;
      height = n.height;
      pool = 0;
      tx = t.id_tx;
      taddress = some id_taddress;
      nullifier = n.nullifier;
      value = n.value;
    }
      ∷ []
unless_stored account id_taddress n ns t (some _) = ns

-- The note of a transaction that is stored.
abbrev pub note_added :
    ℕ → ℕ → NoteRow → List StoredNote → Option TransactionRow → Option StoredNote → List StoredNote
note_added account id_taddress n ns none o = ns
note_added account id_taddress n ns (some t) o = unless_stored account id_taddress n ns t o

unfoldable pub insert_note :
    ℕ → ℕ → List TransactionRow → NoteRow → List StoredNote → List StoredNote
insert_note account id_taddress ts n ns =
    note_added account id_taddress n ns (find_transaction account n.txid ts)
      (find_note account n.nullifier ns)

unfoldable pub insert_notes :
    ℕ → ℕ → List TransactionRow → List NoteRow → List StoredNote → List StoredNote
insert_notes account id_taddress ts [] ns = ns
insert_notes account id_taddress ts (n ∷ rest) ns =
    insert_notes account id_taddress ts rest (insert_note account id_taddress ts n ns)

-- The spend of the account's note at an outpoint, if it has one there.
abbrev pub spend_found :
    ℕ → VinRow → List SpendRow → Option StoredNote → Option TransactionRow → List SpendRow
spend_found account v ss none t = ss
spend_found account v ss (some n) none = ss
spend_found account v ss (some n) (some t) =
    if has_spend n.id_note ss
    then ss
    else ss
      ++ record {
        id_note = n.id_note;
        account = account;
        pool = 0;
        tx = t.id_tx;
        height = v.height;
        value = neg n.value;
      }
        ∷ []

unfoldable pub resolve_vin :
    ℕ → List TransactionRow → List StoredNote → VinRow → List SpendRow → List SpendRow
resolve_vin account ts ns v ss =
    spend_found account v ss (find_note account v.outpoint ns) (find_transaction account v.txid ts)

unfoldable pub resolve_vins :
    ℕ → List TransactionRow → List StoredNote → List VinRow → List SpendRow → List SpendRow
resolve_vins account ts ns [] ss = ss
resolve_vins account ts ns (v ∷ vs) ss =
    resolve_vins account ts ns vs (resolve_vin account ts ns v ss)

unfoldable pub write_transparent_window : WindowDb → ℕ → ℕ → WindowRows → Bool → WindowDb
write_transparent_window db account id_taddress rows used =
    let ts = insert_transactions account rows.transactions db.transactions in
    let ns = insert_notes account id_taddress ts rows.notes db.notes in
    record {
      addresses = if used then map (see id_taddress) db.addresses else db.addresses;
      transactions = ts;
      notes = ns;
      spends = resolve_vins account ts ns rows.vins db.spends;
    }

abbrev pub is_used : List (Blob × ℕ) → Bool
is_used [] = false
is_used (_ ∷ _) = true

-- What `sync_address_window` does with the stream that the server answers with.
unfoldable pub ingest_window :
    WindowDb → ℕ → ℕ → Blob → List Item → ℕ → ℕ → Result BackfillError WindowDb
ingest_window db account id_taddress my_address txs start_height end_height =
    drain_transparent_window my_address none txs start_height end_height >>= λ rows.
    ok (write_transparent_window db account id_taddress rows (is_used rows.transactions))
