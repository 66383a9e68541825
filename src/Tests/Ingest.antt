-- ===== src/Tests/Ingest.antt =====
-- A stream whose first transaction spends the output of its second.
use zcash_sdk_kmp.Base.{◌≡◌, ◌↔◌, refl, true, false, none, some, List, [], ◌∷◌, All, arith}
use zcash_sdk_kmp.Base.Integers.{neg}
use zcash_sdk_kmp.Base.Results.{ok, err}
use zcash_sdk_kmp.Store.{Blob}
use zcash_sdk_kmp.Sync.Windows.{fetch}
use zcash_sdk_kmp.Sync.Drain.{
  Item, mined, drain_vins, drain_vouts, drain_bundle, drain_item, drain_items,
  drain_transparent_window,
}
use zcash_sdk_kmp.Sync.Drain.Carried.{IsWithin, IsFitting, all_vins, all_notes}
use zcash_sdk_kmp.Sync.Drain.Succeeds.{collected, drain_transparent_window_iff}
use zcash_sdk_kmp.Sync.Ingest.{
  WindowDb, insert_transaction, insert_transactions, insert_note, insert_notes, resolve_vin,
  resolve_vins, write_transparent_window, ingest_window,
}
use zcash_sdk_kmp.Sync.Ingest.Notes.{IsStored}
use zcash_sdk_kmp.Sync.Ingest.Resolves.{IsResolved, ingest_window-IsResolved}

abbrev mine : Blob
mine = 7 ∷ []

abbrev coin : Blob
coin = 2 ∷ 0 ∷ 0 ∷ 0 ∷ 0 ∷ []

abbrev stream : List Item
stream =
    mined 105
      (record { txid = 1 ∷ []; transparent_bundle = some (record { vin = coin ∷ []; vout = [] }) })
    ∷ mined 104 (record {
      txid = 2 ∷ [];
      transparent_bundle = some (record {
        vin = [];
        vout =
            record { recipient_address = some mine; value = 30 }
            ∷ record { recipient_address = none; value = 40 }
            ∷ [];
      });
    })
    ∷ []

abbrev wallet : WindowDb
wallet = record {
  addresses = record { id_taddress = 5; seen_used = false } ∷ [];
  transactions = [];
  notes = [];
  spends = [];
}

ingests :
    ingest_window wallet 1 5 mine stream 100 110
    ≡ ok (record {
      addresses = record { id_taddress = 5; seen_used = true } ∷ [];
      transactions =
          record { id_tx = 1; account = 1; txid = 1 ∷ []; height = 105; time = 0 }
          ∷ record { id_tx = 2; account = 1; txid = 2 ∷ []; height = 104; time = 0 }
          ∷ [];
      notes =
          record {
            id_note = 1;
            account = 1;
            height = 104;
            pool = 0;
            tx = 2;
            taddress = some 5;
            nullifier = coin;
            value = 30;
          }
          ∷ [];
      spends =
          record { id_note = 1; account = 1; pool = 0; tx = 1; height = 105; value = neg 30 } ∷ [];
    })
unfolding ingest_window drain_transparent_window drain_items drain_item drain_bundle drain_vins
    drain_vouts write_transparent_window insert_transactions insert_transaction insert_notes
    insert_note resolve_vins resolve_vin
ingests = refl

outside : drain_transparent_window mine none stream 105 110 ≡ err fetch
unfolding drain_transparent_window drain_items drain_item drain_bundle drain_vins drain_vouts
outside = refl

drain_transparent_window_iff_example :
    (drain_transparent_window mine none stream 100 110 ≡ ok (collected mine stream)) ↔ (
      All (IsWithin 100 110) stream
      × IsFitting (collected mine stream)
      × (collected mine stream ≡ collected mine stream))
drain_transparent_window_iff_example =
    drain_transparent_window_iff mine none stream 100 110 (collected mine stream)

ingest_window-IsResolved_example :
    (db' : WindowDb) × (ingest_window wallet 1 5 mine stream 100 110 ≡ ok db')
    × All
        (IsStored 1 5 db'.transactions (all_notes mine stream) wallet.notes db'.notes)
        (all_notes mine stream)
    × All (IsResolved 1 (all_vins stream) wallet db') (all_vins stream)
ingest_window-IsResolved_example =
    ingest_window-IsResolved wallet 1 5 mine stream 100 110
      ((omega arith, omega arith), ((omega arith, omega arith), tt))
      (record { transactions = omega arith; notes = omega arith; vins = omega arith })
