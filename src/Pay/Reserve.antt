-- ===== src/Pay/Reserve.antt =====
-- The reservation of a transaction's inputs, rust/rlz/src/pay/reserve.rs. A database that is given
-- back is committed; an error gives none back, since its transaction is rolled back.
use zcash_sdk_kmp.Base.{
  ℕ, Bool, true, false, not, ◌&&◌, ◌||◌, Option, none, some, List, [], ◌∷◌, ◌++◌, map, ltb, ◌==◌,
  if◌then◌else◌, list_eq,
}
use zcash_sdk_kmp.Base.Results.{Result, ok, err, ◌>>=◌, ◌>>◌, ensure}
use zcash_sdk_kmp.Store.{
  Blob, NoteRow, SpendRow, TransactionRow, PendingTxRow, PendingSpendRow, Db, padded, filter,
  get_sync_height, coalesce, has_key, active_pending_spend_input,
}
pub mod Claims
pub mod Held
pub mod Owner
pub mod Again
pub mod Succeeds

pub record ParsedTransaction : Type 0 where
  pub txid : Blob
  pub expiry_height : ℕ
  pub inputs : List Blob

pub data OwnInputs : Type 0 where
  required : OwnInputs
  optional : OwnInputs

-- The errors by their messages.
pub data Failure : Type 0 where
  expired : Failure
  spends_no_owned_input : Failure
  reserved_by_another : Failure
  from_another_account : Failure
  manually_locked : Failure
  already_spent : Failure

-- What `validate_owned_inputs` reads of a note: its account, its lock, whether it is spent, and the
-- id of the transaction that spends it.
pub record OwnedRow : Type 0 where
  pub owner : ℕ
  pub locked : Bool
  pub is_spent : Bool
  pub spend_txid : Option Blob

abbrev is_spend_of : NoteRow → SpendRow → Bool
is_spend_of n s = s.id_note == n.id_note

abbrev is_transaction_of : SpendRow → TransactionRow → Bool
is_transaction_of s t = t.id_tx == s.tx && t.account == s.account

abbrev spend_rows : Db → NoteRow × Option SpendRow → List OwnedRow
spend_rows db (n, none) =
    record { owner = n.account; locked = n.locked; is_spent = false; spend_txid = none } ∷ []
spend_rows db (n, some s) =
    map
      (λ (r : SpendRow × Option TransactionRow). record {
        owner = n.account;
        locked = n.locked;
        is_spent = true;
        spend_txid = elim r.1 [ none ↦ none | some t ↦ some t.txid ];
      })
      (padded s (filter (is_transaction_of s) db.transactions))

abbrev all_spend_rows : Db → List (NoteRow × Option SpendRow) → List OwnedRow
all_spend_rows db [] = []
all_spend_rows db (r ∷ rs) = spend_rows db r ++ all_spend_rows db rs

abbrev note_rows : Db → List NoteRow → List OwnedRow
note_rows db [] = []
note_rows db (n ∷ ns) =
    all_spend_rows db (padded n (filter (is_spend_of n) db.spends)) ++ note_rows db ns

-- The query of `validate_owned_inputs`.
unfoldable pub owned_rows : Db → Blob → List OwnedRow
owned_rows db input = note_rows db (filter (λ n. list_eq n.nullifier input) db.notes)

abbrev pub contains : List Blob → Blob → Bool
contains [] input = false
contains (x ∷ xs) input = list_eq x input || contains xs input

abbrev is_txid : Option Blob → Blob → Bool
is_txid none txid = false
is_txid (some t) txid = list_eq t txid

abbrev validate_row : ℕ → Blob → OwnedRow → Result Failure (Unit {0})
validate_row account txid row =
    ensure (row.owner == account) from_another_account
    >> ensure (not row.locked) manually_locked
    >> ensure (not row.is_spent || is_txid row.spend_txid txid) already_spent

abbrev validate_rows : ℕ → Blob → Blob → List OwnedRow → List Blob → Result Failure (List Blob)
validate_rows account txid input [] owned = ok owned
validate_rows account txid input (row ∷ rows) owned =
    validate_row account txid row
    >> validate_rows account txid input rows
        (if contains owned input then owned else owned ++ input ∷ [])

abbrev validate_inputs : Db → ℕ → Blob → List Blob → List Blob → Result Failure (List Blob)
validate_inputs db account txid [] owned = ok owned
validate_inputs db account txid (input ∷ inputs) owned =
    validate_rows account txid input (owned_rows db input) owned >>= λ owned'.
    validate_inputs db account txid inputs owned'

unfoldable pub validate_owned_inputs : Db → ℕ → ParsedTransaction → Result Failure (List Blob)
validate_owned_inputs db account parsed = validate_inputs db account parsed.txid parsed.inputs []

abbrev pub is_held_by_another : Db → ℕ → Blob → Blob → Bool
is_held_by_another db account txid input = elim (active_pending_spend_input db account input) [
  | none ↦ false
  | some r ↦ not (list_eq r.owner_txid txid)
]

abbrev any_held_by_another : Db → ℕ → Blob → List Blob → Bool
any_held_by_another db account txid [] = false
any_held_by_another db account txid (input ∷ inputs) =
    is_held_by_another db account txid input || any_held_by_another db account txid inputs

unfoldable pub reserved_by_another_transaction : Db → ℕ → ParsedTransaction → Bool
reserved_by_another_transaction db account parsed =
    any_held_by_another db account parsed.txid parsed.inputs

-- `INSERT ... ON CONFLICT(account, nullifier) DO UPDATE ... WHERE`: the table, and whether a row was
-- affected.
unfoldable pub upsert_pending_spend :
    (PendingSpendRow → Bool) → PendingSpendRow → List PendingSpendRow → List PendingSpendRow × Bool
upsert_pending_spend may row [] = (row ∷ [], true)
upsert_pending_spend may row (r ∷ rs) =
    let rest = upsert_pending_spend may row rs in
    if has_key row.account row.nullifier r
    then (if may r
        then (
          record {
            account = r.account;
            nullifier = r.nullifier;
            owner_txid = row.owner_txid;
            expiry_height = row.expiry_height;
          }
              ∷ rs,
          true,
        )
        else (r ∷ rs, false))
    else (r ∷ rest.0, rest.1)

abbrev pub may_take : Db → Blob → PendingSpendRow → Bool
may_take db txid r =
    list_eq r.owner_txid txid
    || elim (active_pending_spend_input db r.account r.nullifier) [ none ↦ true | some _ ↦ false ]

abbrev pub claim : ℕ → ParsedTransaction → Blob → PendingSpendRow
claim account parsed input = record {
  account = account;
  nullifier = input;
  owner_txid = parsed.txid;
  expiry_height = parsed.expiry_height;
}

abbrev pub with_inputs : Db → List PendingSpendRow → Db
with_inputs db rows = record {
  notes = db.notes;
  spends = db.spends;
  transactions = db.transactions;
  sync_heights = db.sync_heights;
  pending_txs = db.pending_txs;
  pending_spend_inputs = rows;
}

unfoldable pub claim_input : Db → ℕ → ParsedTransaction → Blob → Result Failure Db
claim_input db account parsed input =
    let r =
      upsert_pending_spend (may_take db parsed.txid) (claim account parsed input)
        db.pending_spend_inputs in
    ensure r.1 reserved_by_another >> ok (with_inputs db r.0)

unfoldable pub claim_inputs : Db → ℕ → ParsedTransaction → List Blob → Result Failure Db
claim_inputs db account parsed [] = ok db
claim_inputs db account parsed (input ∷ inputs) =
    claim_input db account parsed input >>= λ db'. claim_inputs db' account parsed inputs

-- `INSERT ... ON CONFLICT(account, txid) DO UPDATE`, which leaves the price and the category.
unfoldable pub upsert_pending_tx : PendingTxRow → List PendingTxRow → List PendingTxRow
upsert_pending_tx row [] = row ∷ []
upsert_pending_tx row (r ∷ rs) =
    let rest = upsert_pending_tx row rs in
    if r.account == row.account && list_eq r.txid row.txid
    then record {
      account = r.account;
      txid = r.txid;
      height = row.height;
      price = r.price;
      category = r.category;
      expiry_height = row.expiry_height;
    }
      ∷ rs
    else r ∷ rest

unfoldable pub record_pending_tx : Db → ℕ → ParsedTransaction → Option ℕ → Db
record_pending_tx db account parsed scanned_height = record {
  notes = db.notes;
  spends = db.spends;
  transactions = db.transactions;
  sync_heights = db.sync_heights;
  pending_txs =
      upsert_pending_tx
        (record {
          account = account;
          txid = parsed.txid;
          height = coalesce scanned_height;
          price = none;
          category = none;
          expiry_height = some parsed.expiry_height;
        })
        db.pending_txs;
  pending_spend_inputs = db.pending_spend_inputs;
}

abbrev pub is_in_time : Option ℕ → ParsedTransaction → Bool
is_in_time none parsed = true
is_in_time (some height) parsed = parsed.expiry_height == 0 || ltb height parsed.expiry_height

unfoldable pub reserve_owned :
    Db → ℕ → ParsedTransaction → OwnInputs → List Blob → Result Failure Db
reserve_owned db account parsed required [] = err spends_no_owned_input
reserve_owned db account parsed optional [] =
    ensure (not (reserved_by_another_transaction db account parsed)) reserved_by_another >> ok db
reserve_owned db account parsed own_inputs (input ∷ inputs) =
    claim_inputs db account parsed (input ∷ inputs) >>= λ db'.
    ok (record_pending_tx db' account parsed (get_sync_height db account))

unfoldable pub reserve_parsed_transaction :
    Db → ℕ → ParsedTransaction → OwnInputs → Result Failure Db
reserve_parsed_transaction db account parsed own_inputs =
    ensure (is_in_time (get_sync_height db account) parsed) expired
    >> validate_owned_inputs db account parsed
    >>= λ owned. reserve_owned db account parsed own_inputs owned
