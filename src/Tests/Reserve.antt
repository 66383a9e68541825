-- ===== src/Tests/Reserve.antt =====
-- A wallet at height 100 whose account 1 owns a note, while another transaction holds one of
-- account 2; the reservations of the tests of rust/rlz/src/pay/reserve.rs there.
use zcash_sdk_kmp.Base.{All, ℕ, ◌≡◌, refl, true, false, none, some, [], ◌∷◌}
use zcash_sdk_kmp.Base.Results.{ok, err}
use zcash_sdk_kmp.Store.{get_sync_height, Blob, Db, PendingSpendRow, active_pending_spend_input}
use zcash_sdk_kmp.Pay.Reserve.{
  is_in_time, is_held_by_another, ParsedTransaction, required, expired, spends_no_owned_input,
  reserved_by_another, from_another_account, manually_locked, already_spent, claim, owned_rows,
  validate_owned_inputs, upsert_pending_spend, claim_input, claim_inputs, upsert_pending_tx,
  record_pending_tx, reserve_owned, reserve_parsed_transaction,
}
use zcash_sdk_kmp.Pay.Reserve.Owner.{Holds, reserve_parsed_transaction-Keeps}
use zcash_sdk_kmp.Pay.Reserve.Succeeds.{reserve_parsed_transaction_reserves}
use zcash_sdk_kmp.Pay.Reserve.Again.{
  reserve_parsed_transaction_twice, reserve_parsed_transaction_exclusive,
}

abbrev note : Blob
note = 8 ∷ 0 ∷ []

abbrev elsewhere : PendingSpendRow
elsewhere = record { account = 2; nullifier = 9 ∷ []; owner_txid = 5 ∷ []; expiry_height = 0 }

abbrev wallet : Db
wallet = record {
  notes =
      record { id_note = 1; account = 1; nullifier = note; locked = false }
      ∷ record { id_note = 2; account = 2; nullifier = 9 ∷ []; locked = false }
      ∷ record { id_note = 3; account = 1; nullifier = 4 ∷ []; locked = true }
      ∷ record { id_note = 4; account = 1; nullifier = 6 ∷ []; locked = false }
      ∷ [];
  spends = record { id_note = 4; account = 1; tx = 11 } ∷ [];
  transactions = record { id_tx = 11; account = 1; txid = 3 ∷ [] } ∷ [];
  sync_heights =
      record { account = 1; pool = 0; height = 100 }
      ∷ record { account = 1; pool = 1; height = 110 }
      ∷ [];
  pending_txs = [];
  pending_spend_inputs = elsewhere ∷ [];
}

abbrev spending : ℕ → ℕ → Blob → ParsedTransaction
spending id expiry input = record { txid = id ∷ []; expiry_height = expiry; inputs = input ∷ [] }

abbrev reserved : Db
reserved = record {
  notes = wallet.notes;
  spends = wallet.spends;
  transactions = wallet.transactions;
  sync_heights = wallet.sync_heights;
  pending_txs =
      record {
        account = 1;
        txid = 1 ∷ [];
        height = 100;
        price = none;
        category = none;
        expiry_height = some 120;
      }
      ∷ [];
  pending_spend_inputs = elsewhere ∷ claim 1 (spending 1 120 note) note ∷ [];
}

reserves : reserve_parsed_transaction wallet 1 (spending 1 120 note) required ≡ ok reserved
unfolding reserve_parsed_transaction validate_owned_inputs owned_rows reserve_owned claim_inputs
    claim_input upsert_pending_spend record_pending_tx upsert_pending_tx active_pending_spend_input
reserves = refl

owns : validate_owned_inputs wallet 1 (spending 1 120 note) ≡ ok (note ∷ [])
unfolding validate_owned_inputs owned_rows
owns = refl

-- The checks in turn: an expiry at the scanned height, an unknown input, the input of another
-- account, a locked one, one spent by another transaction, and one that is held.
expires : reserve_parsed_transaction wallet 1 (spending 1 100 note) required ≡ err expired
unfolding reserve_parsed_transaction
expires = refl

owns_nothing :
    reserve_parsed_transaction wallet 1 (spending 1 120 (7 ∷ [])) required
    ≡ err spends_no_owned_input
unfolding reserve_parsed_transaction validate_owned_inputs owned_rows reserve_owned
owns_nothing = refl

is_foreign :
    reserve_parsed_transaction wallet 1 (spending 1 120 (9 ∷ [])) required
    ≡ err from_another_account
unfolding reserve_parsed_transaction validate_owned_inputs owned_rows
is_foreign = refl

is_locked :
    reserve_parsed_transaction wallet 1 (spending 1 120 (4 ∷ [])) required ≡ err manually_locked
unfolding reserve_parsed_transaction validate_owned_inputs owned_rows
is_locked = refl

is_spent :
    reserve_parsed_transaction wallet 1 (spending 1 120 (6 ∷ [])) required ≡ err already_spent
unfolding reserve_parsed_transaction validate_owned_inputs owned_rows
is_spent = refl

is_held :
    reserve_parsed_transaction reserved 1 (spending 2 120 note) required ≡ err reserved_by_another
unfolding reserve_parsed_transaction validate_owned_inputs owned_rows reserve_owned claim_inputs
    claim_input upsert_pending_spend active_pending_spend_input
is_held = refl

reserve_parsed_transaction-Keeps_example :
    active_pending_spend_input reserved 2 (9 ∷ []) ≡ some elsewhere
unfolding active_pending_spend_input
reserve_parsed_transaction-Keeps_example =
    reserve_parsed_transaction-Keeps wallet reserved 1 (spending 1 120 note) required reserves 2
      (9 ∷ []) elsewhere refl refl

in_time : is_in_time (get_sync_height wallet 1) (spending 1 120 note) ≡ true
in_time = refl

is_free : is_held_by_another wallet 1 (1 ∷ []) note ≡ false
unfolding active_pending_spend_input
is_free = refl

reserve_parsed_transaction_reserves_example :
    (db' : Db) × (reserve_parsed_transaction wallet 1 (spending 1 120 note) required ≡ ok db')
    × All (Holds db' 1 (spending 1 120 note)) (note ∷ [])
reserve_parsed_transaction_reserves_example =
    reserve_parsed_transaction_reserves wallet 1 (spending 1 120 note) required note [] in_time owns
      (is_free, tt)

reserve_parsed_transaction_twice_example :
    reserve_parsed_transaction reserved 1 (spending 1 120 note) required ≡ ok reserved
reserve_parsed_transaction_twice_example =
    reserve_parsed_transaction_twice wallet reserved 1 (spending 1 120 note) required reserves

-- The second transaction has the same id.
owns_again : validate_owned_inputs reserved 1 (spending 1 120 note) ≡ ok (note ∷ [])
unfolding validate_owned_inputs owned_rows
owns_again = refl

reserve_parsed_transaction_exclusive_example : Path Blob (1 ∷ []) (1 ∷ [])
reserve_parsed_transaction_exclusive_example =
    reserve_parsed_transaction_exclusive wallet reserved reserved 1 (spending 1 120 note)
      (spending 1 120 note) required required (note ∷ []) (note ∷ []) note reserves
      reserve_parsed_transaction_twice_example owns owns_again refl refl
