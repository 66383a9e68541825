-- ===== src/Sync/Rewind/Checkpoint.antt =====
-- Where a rewind leaves an account.
use zcash_sdk_kmp.Base.{
  ℕ, ◌<◌, ◌≡◌, refl, sym, subst, Bool, true, false, not, ◌&&◌, some, map, ltb, ◌==◌, ==_iff, arith,
  inl, inr, Bool-cases, &&-parts,
}
use zcash_sdk_kmp.Store.{SyncHeightRow}
use zcash_sdk_kmp.Sync.Tables.{WitnessRow, SyncDb, any, delete, witness_above}
use zcash_sdk_kmp.Sync.Rewind.{
  Network, set_height, trim_sync_data, retire_transparent_walks, is_checkpoint, last_checkpoint,
  delete_headers, rewind_sync,
}
use zcash_sdk_kmp.Sync.Rewind.Trimmed.{IsClear, any-map, trim_sync_data-IsClear}
use zcash_sdk_kmp.Sync.Rewind.Owed.{any-some}
use zcash_sdk_kmp.Sync.Rewind.Heights.{
  IsTop, max_height-some, any-delete_other, any-exists, max_height-IsTop, any-none, max_height-any,
}

-- The account has a witness at a height.
abbrev pub is_witness_at : ℕ → ℕ → WitnessRow → Bool
is_witness_at account height w = w.account == account && w.height == height

-- A row of the account whose pool is synchronized to another height.
abbrev pub is_off : ℕ → ℕ → SyncHeightRow → Bool
is_off account height r = r.account == account && not (r.height == height)

set_height-is_off :
    (account height : ℕ) (r : SyncHeightRow)
    → is_off account height (set_height account height r) ≡ false
set_height-is_off account height r = elim (Bool-cases (r.account == account)) [
  | inl t ↦ rw (t, t, (==_iff height height).1 refl) refl
  | inr f ↦ rw (f, f) refl
]

-- The rest of a rewind keeps what a trim clears.
retired-IsClear :
    (db : SyncDb) (account height top : ℕ)
    → IsClear account height db
    → IsClear account height (delete_headers top (retire_transparent_walks db account))
unfolding delete_headers retire_transparent_walks
retired-IsClear db account height top v = record {
  notes = v.notes;
  spends = v.spends;
  transactions = v.transactions;
  witnesses = v.witnesses;
  outputs = v.outputs;
  memos = v.memos;
  markers = v.markers;
}

rewind_sync-some :
    (network : Network) (db : SyncDb) (account height prev_height : ℕ)
    → last_checkpoint db account height ≡ some prev_height
    → rewind_sync network db account height
      ≡ some (
          delete_headers height
            (retire_transparent_walks (trim_sync_data db account prev_height) account))
unfolding rewind_sync
rewind_sync-some network db account height prev_height e = rw e refl

rewound-heights :
    (db : SyncDb) (account height prev_height : ℕ)
    → (delete_headers height
        (retire_transparent_walks (trim_sync_data db account prev_height) account)).sync_heights
      ≡ map (set_height account prev_height) db.sync_heights
unfolding delete_headers retire_transparent_walks trim_sync_data
rewound-heights db account height prev_height = refl

rewound-witnesses :
    (db : SyncDb) (account height prev_height : ℕ)
    → (delete_headers height
        (retire_transparent_walks (trim_sync_data db account prev_height) account)).witnesses
      ≡ delete (witness_above account prev_height) db.witnesses
unfolding delete_headers retire_transparent_walks trim_sync_data
rewound-witnesses db account height prev_height = refl

last_checkpoint-any :
    (db : SyncDb) (account height c : ℕ)
    → last_checkpoint db account height ≡ some c
    → any (λ w. is_checkpoint account height w && w.height == c) db.witnesses ≡ true
unfolding last_checkpoint
last_checkpoint-any db account height c e =
    max_height-some (λ (w : WitnessRow). w.height) (is_checkpoint account height) db.witnesses c e

last_checkpoint-at :
    (db : SyncDb) (account height c : ℕ)
    → last_checkpoint db account height ≡ some c
    → any (is_witness_at account c) db.witnesses ≡ true
last_checkpoint-at db account height c e =
    any-some _ (is_witness_at account c) db.witnesses (λ w h. at w h)
      (last_checkpoint-any db account height c e)
  where
    at :
        (w : WitnessRow)
        → (is_checkpoint account height w && w.height == c) ≡ true
        → is_witness_at account c w ≡ true
    at w h =
        let p = &&-parts (is_checkpoint account height w) (w.height == c) h in
        let q = &&-parts (ltb w.height height) (w.account == account) p.0 in rw q.1 p.1

rewound-IsClear :
    (network : Network) (db : SyncDb) (account height c : ℕ)
    → last_checkpoint db account height ≡ some c
    → (c < height)
      × (db' : SyncDb) × (rewind_sync network db account height ≡ some db')
      × IsClear account c db'
      × (any (is_off account c) db'.sync_heights ≡ false)
      × (any (is_witness_at account c) db'.witnesses ≡ true)
rewound-IsClear network db account height c e =
    let found = last_checkpoint-any db account height c e in
    let w = any-exists _ db.witnesses found in
    let db' =
      delete_headers height (retire_transparent_walks (trim_sync_data db account c) account) in
    (
      below w.0 w.1,
      db',
      rewind_sync-some network db account height c e,
      retired-IsClear (trim_sync_data db account c) account c height
          (trim_sync_data-IsClear db account c),
      rw (rewound-heights db account height c) (
          any-map (is_off account c) (set_height account c) db.sync_heights
            (set_height-is_off account c)),
      rw (rewound-witnesses db account height c) (
          any-delete_other (is_witness_at account c) (witness_above account c) db.witnesses
            (λ x h. kept x h) (last_checkpoint-at db account height c e)),
    )
  where
    below : (w : WitnessRow) → (is_checkpoint account height w && w.height == c) ≡ true → c < height
    below w h =
        let p = &&-parts (is_checkpoint account height w) (w.height == c) h in
        let q = &&-parts (ltb w.height height) (w.account == account) p.0 in lower w.height q.0 p.1
      where
        lower : (k : ℕ) → ltb k height ≡ true → (k == c) ≡ true → c < height
        lower k l s = ground (arith, l, s)

    kept : (w : WitnessRow) → is_witness_at account c w ≡ true → witness_above account c w ≡ false
    kept w h =
        level w.height (w.account == account) (&&-parts (w.account == account) (w.height == c) h).1
      where
        level : (k : ℕ) (b : Bool) → (k == c) ≡ true → (ltb c k && b) ≡ false
        level k b s = ground (arith, s)

-- A row of the account between two heights.
abbrev pub is_between : ℕ → ℕ → ℕ → WitnessRow → Bool
is_between account low high w = (w.account == account && ltb w.height high) && ltb low w.height

last_checkpoint-exists :
    (db : SyncDb) (account height : ℕ)
    → any (λ w. w.account == account && ltb w.height height) db.witnesses ≡ true
    → (c : ℕ) × (last_checkpoint db account height ≡ some c)
      × (any (is_between account c height) db.witnesses ≡ false)
unfolding last_checkpoint
last_checkpoint-exists db account height e =
    let (c, found) =
      max_height-any (λ (w : WitnessRow). w.height) (is_checkpoint account height) db.witnesses
        (any-some _ (is_checkpoint account height) db.witnesses (λ w h. swapped w h) e) in
    (
      c,
      found,
      any-none (λ w. is_checkpoint account height w && ltb c w.height) (is_between account c height)
          db.witnesses (λ w h. between c w h)
          (max_height-IsTop (λ (w : WitnessRow). w.height) (is_checkpoint account height)
            db.witnesses c (subst (IsTop c) (sym found) (omega arith))),
    )
  where
    swapped :
        (w : WitnessRow)
        → (w.account == account && ltb w.height height) ≡ true
        → is_checkpoint account height w ≡ true
    swapped w h =
        let q = &&-parts (w.account == account) (ltb w.height height) h in rw (q.1, q.0) refl

    between :
        (c : ℕ) (w : WitnessRow)
        → is_between account c height w ≡ true
        → (is_checkpoint account height w && ltb c w.height) ≡ true
    between c w h =
        let q = &&-parts (w.account == account && ltb w.height height) (ltb c w.height) h in
        rw (swapped w q.0) q.1

-- A rewind below a height of an account that has a checkpoint there succeeds and leaves the account
-- at the latest such checkpoint: the account has a witness there and none between it and the height.
-- Its pools are synchronized to the checkpoint, the witness there is kept, and no row of the account
-- and no marker of its addresses is above.
pub rewind_sync-IsClear :
    (network : Network) (db : SyncDb) (account height : ℕ)
    → any (λ w. w.account == account && ltb w.height height) db.witnesses ≡ true
    → (c : ℕ) × (c < height)
      × (any (is_witness_at account c) db.witnesses ≡ true)
      × (any (is_between account c height) db.witnesses ≡ false)
      × ((db' : SyncDb) × (rewind_sync network db account height ≡ some db')
          × IsClear account c db'
          × (any (is_off account c) db'.sync_heights ≡ false)
          × (any (is_witness_at account c) db'.witnesses ≡ true))
rewind_sync-IsClear network db account height e =
    let (c, found, latest) = last_checkpoint-exists db account height e in
    let r = rewound-IsClear network db account height c found in
    (c, r.0, last_checkpoint-at db account height c found, latest, (r.1, r.2, r.3, r.4, r.5))
