-- ===== src/Tests/Rewind.antt =====
-- A wallet with notes of account 1 at 50 and 90 and a witness at 60, rewound below 80.
use zcash_sdk_kmp.Base.{ℕ, ◌<◌, ◌≡◌, refl, true, false, Option, none, some, List, [], ◌∷◌, map}
use zcash_sdk_kmp.Store.{SyncHeightRow}
use zcash_sdk_kmp.Sync.Tables.{SyncDb, any}
use zcash_sdk_kmp.Sync.Rewind.{
  Network, owe, clamp, trims_any, trim_sync_data, last_checkpoint, rewind_sync, reset_sync,
  retire_transparent_walks, clear_catch_up_debts, init_sync_heights, delete_headers,
  prune_old_checkpoints,
}
use zcash_sdk_kmp.Sync.Rewind.Trimmed.{IsClear, trim_sync_data_twice}
use zcash_sdk_kmp.Sync.Rewind.Owed.{owes_less, trim_sync_data_owes}
use zcash_sdk_kmp.Sync.Rewind.Checkpoint.{is_off, is_witness_at, is_between, rewind_sync-IsClear}

abbrev network : Network
network = record { sapling = 10; nu5 = 20; nu6_3 = some 70 }

abbrev wallet : SyncDb
wallet = record {
  notes =
      record { id_note = 1; account = 1; height = 50; pool = 1; taddress = none }
      ∷ record { id_note = 2; account = 1; height = 90; pool = 0; taddress = some 5 }
      ∷ record { id_note = 3; account = 2; height = 95; pool = 2; taddress = none }
      ∷ [];
  spends = [];
  transactions = record { id = 1; account = 1; height = 90 } ∷ [];
  witnesses =
      record { note = 1; account = 1; height = 60 }
      ∷ record { note = 1; account = 1; height = 90 }
      ∷ record { note = 1; account = 1; height = 50 }
      ∷ [];
  outputs = [];
  memos = [];
  addresses =
      record {
        id_taddress = 5;
        account = 1;
        backfilled_height = some 90;
        catch_up_owed_through = none;
      }
      ∷ [];
  sync_heights =
      record { account = 1; pool = 0; height = 90 }
      ∷ record { account = 1; pool = 1; height = 90 }
      ∷ [];
  headers = 60 ∷ 80 ∷ 90 ∷ [];
  births = (1, 15) ∷ [];
  trims = [];
  lives = [];
}

rewinds_to_60 : last_checkpoint wallet 1 80 ≡ some 60
unfolding last_checkpoint
rewinds_to_60 = refl

owes_90 :
    (trim_sync_data wallet 1 60).addresses
    ≡ record {
      id_taddress = 5;
      account = 1;
      backfilled_height = some 60;
      catch_up_owed_through = some 90;
    }
      ∷ []
unfolding trim_sync_data owe clamp
owes_90 = refl

counts_one_trim : (trim_sync_data wallet 1 60).trims ≡ (1, 1) ∷ []
unfolding trim_sync_data trims_any owe
counts_one_trim = refl

-- Without a witness below 50 the account starts over: its pools are at its birth or at their
-- activation, and nothing is owed.
abbrev pool_heights : Option SyncDb → List ℕ
pool_heights none = []
pool_heights (some db) = map (λ (r : SyncHeightRow). r.height) db.sync_heights

starts_over : pool_heights (rewind_sync network wallet 1 50) ≡ 15 ∷ 15 ∷ []
unfolding rewind_sync last_checkpoint reset_sync init_sync_heights delete_headers
    clear_catch_up_debts retire_transparent_walks trim_sync_data
starts_over = refl

prunes_below_60 :
    (prune_old_checkpoints wallet 1 80).witnesses
    ≡ record { note = 1; account = 1; height = 60 }
      ∷ record { note = 1; account = 1; height = 90 }
      ∷ []
unfolding prune_old_checkpoints last_checkpoint
prunes_below_60 = refl

trim_sync_data_twice_example :
    trim_sync_data (trim_sync_data wallet 1 60) 1 60 ≡ trim_sync_data wallet 1 60
trim_sync_data_twice_example = trim_sync_data_twice wallet 1 60

trim_sync_data_owes_example : any (owes_less 5 90) (trim_sync_data wallet 1 60).addresses ≡ false
trim_sync_data_owes_example = trim_sync_data_owes wallet 1 60 5 90 refl

rewind_sync-IsClear_example :
    (c : ℕ) × (c < 80)
    × (any (is_witness_at 1 c) wallet.witnesses ≡ true)
    × (any (is_between 1 c 80) wallet.witnesses ≡ false)
    × ((db' : SyncDb) × (rewind_sync network wallet 1 80 ≡ some db')
        × IsClear 1 c db'
        × (any (is_off 1 c) db'.sync_heights ≡ false)
        × (any (is_witness_at 1 c) db'.witnesses ≡ true))
rewind_sync-IsClear_example = rewind_sync-IsClear network wallet 1 80 refl
