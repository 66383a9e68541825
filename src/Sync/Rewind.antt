-- ===== src/Sync/Rewind.antt =====
-- Rewinding an account: trim_sync_data, rewind_sync and prune_old_checkpoints of
-- rust/rlz/src/sync.rs, reset_sync and init_sync_heights of rust/rlz/src/account.rs, and the debts
-- and counters of rust/rlz/src/db.rs that they write. A transaction that fails is not modelled.
use zcash_sdk_kmp.Base.{
  ℕ, ◌+◌, ◌%◌, ◌^◌, max, Bool, true, false, not, ◌&&◌, ◌||◌, Option, none, some, List, [], ◌∷◌, map,
  ltb, ◌==◌, if◌then◌else◌,
}
use zcash_sdk_kmp.Base.Partial.{◌>>=◌}
use zcash_sdk_kmp.Sync.Tables.{
  Row, NoteRow, WitnessRow, AddressRow, SyncDb, is_above, any, max_height, counter, set_counter,
  row_above, note_above, witness_above, delete, with_heights, with_witnesses, with_addresses,
  with_headers, with_lives,
}
use zcash_sdk_kmp.Store.{SyncHeightRow, filter, coalesce}
pub mod Trimmed
pub mod Owed
pub mod Heights
pub mod Checkpoint

abbrev pub pays : ℕ → NoteRow → Bool
pays id_taddress n = elim n.taddress [ none ↦ false | some t ↦ t == id_taddress ] && n.pool == 0

abbrev pub is_paid_above : ℕ → ℕ → NoteRow → Bool
is_paid_above height id_taddress n = pays id_taddress n && ltb height n.height

abbrev pub loses_note : ℕ → ℕ → ℕ → NoteRow → Bool
loses_note account height id_taddress n = is_paid_above height id_taddress n && n.account == account

-- The catch-up that a trim owes an address again.
unfoldable pub owe : List NoteRow → ℕ → ℕ → AddressRow → AddressRow
owe notes account height a =
    if any (loses_note account height a.id_taddress) notes
    then record {
      id_taddress = a.id_taddress;
      account = a.account;
      backfilled_height = a.backfilled_height;
      catch_up_owed_through = some (
          max (coalesce a.catch_up_owed_through) (
            coalesce (
              max_height (
                map (λ (n : NoteRow). n.height)
                  (filter (is_paid_above height a.id_taddress) notes)))));
    }
    else a

abbrev pub is_marked_above : ℕ → ℕ → AddressRow → Bool
is_marked_above account height a =
    a.account == account && elim a.backfilled_height [ none ↦ false | some b ↦ ltb height b ]

unfoldable pub clamp : ℕ → ℕ → AddressRow → AddressRow
clamp account height a =
    if is_marked_above account height a
    then record {
      id_taddress = a.id_taddress;
      account = a.account;
      backfilled_height = some height;
      catch_up_owed_through = a.catch_up_owed_through;
    }
    else a

abbrev pub set_height : ℕ → ℕ → SyncHeightRow → SyncHeightRow
set_height account height r =
    if r.account == account
    then record { account = r.account; pool = r.pool; height = height }
    else r

-- Whether a trim deletes or clamps a row.
unfoldable pub trims_any : SyncDb → ℕ → ℕ → Bool
trims_any db account height =
    any (note_above account height) db.notes
    || any (row_above account height) db.spends
    || any (row_above account height) db.transactions
    || any (witness_above account height) db.witnesses
    || any (row_above account height) db.outputs
    || any (row_above account height) db.memos
    || any (is_marked_above account height) (map (owe db.notes account height) db.addresses)

unfoldable pub trim_sync_data : SyncDb → ℕ → ℕ → SyncDb
trim_sync_data db account height = record {
  notes = delete (note_above account height) db.notes;
  spends = delete (row_above account height) db.spends;
  transactions = delete (row_above account height) db.transactions;
  witnesses = delete (witness_above account height) db.witnesses;
  outputs = delete (row_above account height) db.outputs;
  memos = delete (row_above account height) db.memos;
  addresses = map (clamp account height) (map (owe db.notes account height) db.addresses);
  sync_heights = map (set_height account height) db.sync_heights;
  headers = db.headers;
  births = db.births;
  trims =
      if trims_any db account height
      then set_counter account (elim (counter account db.trims) [ none ↦ 1 | some c ↦ c + 1 ])
          db.trims
      else db.trims;
  lives = db.lives;
}

-- The activation heights of a network; without `nu6_3` it has three pools.
pub record Network : Type 0 where
  pub sapling : ℕ
  pub nu5 : ℕ
  pub nu6_3 : Option ℕ

abbrev set_pool_height : ℕ → ℕ → ℕ → SyncHeightRow → SyncHeightRow
set_pool_height account pool height r =
    if r.account == account && r.pool == pool
    then record { account = r.account; pool = r.pool; height = height }
    else r

abbrev init_pool : ℕ → ℕ → ℕ → ℕ → SyncDb → SyncDb
init_pool account birth_height pool activation_height db =
    with_heights db
      (map (set_pool_height account pool (max birth_height activation_height)) db.sync_heights)

unfoldable pub init_sync_heights : Network → SyncDb → ℕ → ℕ → SyncDb
init_sync_heights network db account birth_height =
    let three =
      init_pool account birth_height 2 network.nu5 (
        init_pool account birth_height 1 network.sapling (init_pool account birth_height 0 0 db)) in
    elim network.nu6_3 [ none ↦ three | some h ↦ init_pool account birth_height 3 h three ]

abbrev clear_debt : ℕ → AddressRow → AddressRow
clear_debt account a =
    if a.account == account
    then record {
      id_taddress = a.id_taddress;
      account = a.account;
      backfilled_height = a.backfilled_height;
      catch_up_owed_through = none;
    }
    else a

unfoldable pub clear_catch_up_debts : SyncDb → ℕ → SyncDb
clear_catch_up_debts db account = with_addresses db (map (clear_debt account) db.addresses)

unfoldable pub retire_transparent_walks : SyncDb → ℕ → SyncDb
retire_transparent_walks db account =
    with_lives db
      (set_counter account ((coalesce (counter account db.lives) + 1) % 2 ^ 32) db.lives)

-- No row with the account's birth is an error.
unfoldable pub reset_sync : Network → SyncDb → ℕ → Option SyncDb
reset_sync network db account = counter account db.births >>= λ birth_height. some (
    init_sync_heights network
      (retire_transparent_walks (clear_catch_up_debts (trim_sync_data db account 0) account)
        account)
      account birth_height)

abbrev pub is_checkpoint : ℕ → ℕ → WitnessRow → Bool
is_checkpoint account height w = ltb w.height height && w.account == account

-- The latest height before the given one at which the account has witnesses.
unfoldable pub last_checkpoint : SyncDb → ℕ → ℕ → Option ℕ
last_checkpoint db account height =
    max_height
      (map (λ (w : WitnessRow). w.height) (filter (is_checkpoint account height) db.witnesses))

unfoldable pub delete_headers : ℕ → SyncDb → SyncDb
delete_headers height db = with_headers db (delete (ltb height) db.headers)

unfoldable pub rewind_sync : Network → SyncDb → ℕ → ℕ → Option SyncDb
rewind_sync network db account height =
    elim (last_checkpoint db account height) [
      | none ↦ reset_sync network db account
      | some prev_height ↦
          some (retire_transparent_walks (trim_sync_data db account prev_height) account)
    ]
    >>= λ db'. some (delete_headers height db')

abbrev is_pruned : ℕ → ℕ → WitnessRow → Bool
is_pruned account height w = w.account == account && ltb w.height height

unfoldable pub prune_old_checkpoints : SyncDb → ℕ → ℕ → SyncDb
prune_old_checkpoints db account height = elim (last_checkpoint db account height) [
  | none ↦ db
  | some checkpoint_height ↦
      with_witnesses db (delete (is_pruned account checkpoint_height) db.witnesses)
]
