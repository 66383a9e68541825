-- ===== src/Sync/Rewind/Trimmed.antt =====
-- A trim leaves nothing above its height, and a second one changes nothing.
use zcash_sdk_kmp.Base.{
  ℕ, ◌≡◌, refl, ap, Bool, true, false, ◌&&◌, List, [], ◌∷◌, map, ltb, ◌==◌, arith, inl, inr,
  Bool-cases,
}
use zcash_sdk_kmp.Store.{SyncHeightRow}
use zcash_sdk_kmp.Sync.Tables.{
  NoteRow, AddressRow, SyncDb, any, row_above, note_above, witness_above, delete,
}
use zcash_sdk_kmp.Sync.Rewind.{
  pays, loses_note, owe, is_marked_above, clamp, set_height, trims_any, trim_sync_data,
}

module _ {A : Type 0} where
  pub any-delete : (p : A → Bool) (xs : List A) → any p (delete p xs) ≡ false
  any-delete p [] = refl
  any-delete p (x ∷ xs) = elim (Bool-cases (p x)) [
    | inl t ↦ rw t (any-delete p xs)
    | inr f ↦ rw (f, f) (any-delete p xs)
  ]

  pub delete-again : (p : A → Bool) (xs : List A) → delete p (delete p xs) ≡ delete p xs
  delete-again p [] = refl
  delete-again p (x ∷ xs) = elim (Bool-cases (p x)) [
    | inl t ↦ rw t (delete-again p xs)
    | inr f ↦ rw (f, f) (ap (◌∷◌ x) (delete-again p xs))
  ]

  -- A test that fails wherever another does.
  pub any-none :
      (p q : A → Bool) (xs : List A)
      → ((x : A) → p x ≡ false → q x ≡ false)
      → any p xs ≡ false
      → any q xs ≡ false
  any-none p q [] h e = refl
  any-none p q (x ∷ xs) h e = elim (Bool-cases (p x)) [
    | inl t ↦ let stuck : true ≡ false = rw t at e in cc
    | inr f ↦ rw (h x f) (any-none p q xs h (rw f at e))
  ]

  pub any-map :
      (p : A → Bool) (f : A → A) (xs : List A)
      → ((x : A) → p (f x) ≡ false)
      → any p (map f xs) ≡ false
  any-map p f [] h = refl
  any-map p f (x ∷ xs) h = rw (h x) (any-map p f xs h)

  pub map-again :
      (f : A → A) (xs : List A) → ((x : A) → f (f x) ≡ f x) → map f (map f xs) ≡ map f xs
  map-again f [] h = refl
  map-again f (x ∷ xs) h = rw (h x, map-again f xs h) refl

  pub map-same : (f : A → A) (xs : List A) → ((x : A) → f x ≡ x) → map f xs ≡ xs
  map-same f [] h = refl
  map-same f (x ∷ xs) h = rw (h x, map-same f xs h) refl

-- No row of the account is above the height, and no marker of its addresses.
pub record IsClear (account height : ℕ) (db : SyncDb) : Type 0 where
  pub notes : any (note_above account height) db.notes ≡ false
  pub spends : any (row_above account height) db.spends ≡ false
  pub transactions : any (row_above account height) db.transactions ≡ false
  pub witnesses : any (witness_above account height) db.witnesses ≡ false
  pub outputs : any (row_above account height) db.outputs ≡ false
  pub memos : any (row_above account height) db.memos ≡ false
  pub markers : any (is_marked_above account height) db.addresses ≡ false

pub clamp-unmarked :
    (account height : ℕ) (a : AddressRow)
    → is_marked_above account height (clamp account height a) ≡ false
unfolding clamp
clamp-unmarked account height a = elim (Bool-cases (is_marked_above account height a)) [
  | inl t ↦ rw t (below (a.account == account))
  | inr f ↦ rw f f
]
  where
    below : (b : Bool) → (b && ltb height height) ≡ false
    below true = ground arith
    below false = refl

pub trim_sync_data-IsClear :
    (db : SyncDb) (account height : ℕ) → IsClear account height (trim_sync_data db account height)
unfolding trim_sync_data
trim_sync_data-IsClear db account height = record {
  notes = any-delete _ db.notes;
  spends = any-delete _ db.spends;
  transactions = any-delete _ db.transactions;
  witnesses = any-delete _ db.witnesses;
  outputs = any-delete _ db.outputs;
  memos = any-delete _ db.memos;
  markers =
      any-map (is_marked_above account height) (clamp account height)
        (map (owe db.notes account height) db.addresses) (clamp-unmarked account height);
}

-- Above a clear height nothing is owed, clamped or counted.
clamp-clear :
    (account height : ℕ) (a : AddressRow)
    → is_marked_above account height a ≡ false
    → clamp account height a ≡ a
unfolding clamp
clamp-clear account height a f = rw f refl

owe-clear :
    (notes : List NoteRow) (account height : ℕ) (a : AddressRow)
    → any (note_above account height) notes ≡ false
    → owe notes account height a ≡ a
unfolding owe
owe-clear notes account height a f =
    rw
      (any-none (note_above account height) (loses_note account height a.id_taddress) notes
        (λ n e. loses (pays a.id_taddress n) (ltb height n.height) (n.account == account) e) f)
      refl
  where
    loses : (b c d : Bool) → (c && d) ≡ false → ((b && c) && d) ≡ false
    loses true c d e = e
    loses false c d e = refl

set_height-again :
    (account height : ℕ) (r : SyncHeightRow)
    → set_height account height (set_height account height r) ≡ set_height account height r
set_height-again account height r = elim (Bool-cases (r.account == account)) [
  | inl t ↦ rw (t, t) refl
  | inr f ↦ rw (f, f) refl
]

trims_any-clear :
    (db : SyncDb) (account height : ℕ)
    → IsClear account height db
    → trims_any db account height ≡ false
unfolding trims_any
trims_any-clear db account height v =
    rw
      (
        map-same (owe db.notes account height) db.addresses
            (λ a. owe-clear db.notes account height a v.notes),
        v.notes,
        v.spends,
        v.transactions,
        v.witnesses,
        v.outputs,
        v.memos,
        v.markers,
      )
      refl

addresses-again :
    (db : SyncDb) (account height : ℕ)
    → IsClear account height db
    → map (clamp account height) (map (owe db.notes account height) db.addresses) ≡ db.addresses
addresses-again db account height v =
    rw
      (map-same (owe db.notes account height) db.addresses
        (λ a. owe-clear db.notes account height a v.notes))
      (clamps db.addresses v.markers)
  where
    clamps :
        (rows : List AddressRow)
        → any (is_marked_above account height) rows ≡ false
        → map (clamp account height) rows ≡ rows
    clamps [] e = refl
    clamps (a ∷ rows) e = elim (Bool-cases (is_marked_above account height a)) [
      | inl t ↦ let stuck : true ≡ false = rw t at e in cc
      | inr f ↦ rw (clamp-clear account height a f, clamps rows (rw f at e)) refl
    ]

-- A trim that finds nothing.
trim_sync_data-clear :
    (db : SyncDb) (account height : ℕ)
    → trims_any db account height ≡ false
    → trim_sync_data db account height ≡ record {
      notes = delete (note_above account height) db.notes;
      spends = delete (row_above account height) db.spends;
      transactions = delete (row_above account height) db.transactions;
      witnesses = delete (witness_above account height) db.witnesses;
      outputs = delete (row_above account height) db.outputs;
      memos = delete (row_above account height) db.memos;
      addresses = map (clamp account height) (map (owe db.notes account height) db.addresses);
      sync_heights = map (set_height account height) db.sync_heights;
      headers = db.headers;
      births = db.births;
      trims = db.trims;
      lives = db.lives;
    }
unfolding trim_sync_data
trim_sync_data-clear db account height f = rw f refl

-- Trimming an account a second time to the same height changes nothing, and so counts no trim.
pub trim_sync_data_twice :
    (db : SyncDb) (account height : ℕ)
    → trim_sync_data (trim_sync_data db account height) account height
      ≡ trim_sync_data db account height
unfolding trim_sync_data
trim_sync_data_twice db account height =
    let once = trim_sync_data db account height in
    let v = trim_sync_data-IsClear db account height in
    let trims = trims_any-clear once account height v in
    rw (trim_sync_data-clear once account height trims) (λ i. record {
      notes = delete-again (note_above account height) db.notes i;
      spends = delete-again (row_above account height) db.spends i;
      transactions = delete-again (row_above account height) db.transactions i;
      witnesses = delete-again (witness_above account height) db.witnesses i;
      outputs = delete-again (row_above account height) db.outputs i;
      memos = delete-again (row_above account height) db.memos i;
      addresses = addresses-again once account height v i;
      sync_heights =
          map-again (set_height account height) db.sync_heights (set_height-again account height) i;
      headers = db.headers;
      births = db.births;
      trims = once.trims;
      lives = db.lives;
    })
