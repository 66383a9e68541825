-- ===== src/Sync/Tables.antt =====
-- The tables of rust/rlz/src/db.rs that a rewind reads and writes, by the columns that it uses, and
-- the statements on one of them.
use zcash_sdk_kmp.Base.{
  ℕ, Bool, false, not, ◌&&◌, ◌||◌, Option, none, some, List, [], ◌∷◌, ltb, ◌==◌, max, if◌then◌else◌,
}
use zcash_sdk_kmp.Store.{SyncHeightRow, filter}

-- A row of `spends`, `transactions`, `outputs` or `memos`, by the columns that a trim reads.
pub record Row : Type 0 where
  pub id : ℕ
  pub account : ℕ
  pub height : ℕ

pub record NoteRow : Type 0 where
  pub id_note : ℕ
  pub account : ℕ
  pub height : ℕ
  pub pool : ℕ
  pub taddress : Option ℕ

pub record WitnessRow : Type 0 where
  pub note : ℕ
  pub account : ℕ
  pub height : ℕ

pub record AddressRow : Type 0 where
  pub id_taddress : ℕ
  pub account : ℕ
  pub backfilled_height : Option ℕ
  pub catch_up_owed_through : Option ℕ

-- `trims` and `lives` are the rows of `props` under `tcov_trim:` and `tcov_life:`, by account.
pub record SyncDb : Type 0 where
  pub notes : List NoteRow
  pub spends : List Row
  pub transactions : List Row
  pub witnesses : List WitnessRow
  pub outputs : List Row
  pub memos : List Row
  pub addresses : List AddressRow
  pub sync_heights : List SyncHeightRow
  pub headers : List ℕ
  pub births : List (ℕ × ℕ)
  pub trims : List (ℕ × ℕ)
  pub lives : List (ℕ × ℕ)

-- `height > ? AND account = ?`.
abbrev pub is_above : ℕ → ℕ → ℕ → ℕ → Bool
is_above account height row_account row_height = ltb height row_height && row_account == account

abbrev pub any : {A : Type 0} → (A → Bool) → List A → Bool
any p [] = false
any p (x ∷ xs) = p x || any p xs

-- The largest of some heights, NULL without any.
abbrev pub max_height : List ℕ → Option ℕ
max_height [] = none
max_height (h ∷ hs) = some (elim (max_height hs) [ none ↦ h | some m ↦ max h m ])

abbrev pub row_above : ℕ → ℕ → Row → Bool
row_above account height r = is_above account height r.account r.height

abbrev pub note_above : ℕ → ℕ → NoteRow → Bool
note_above account height n = is_above account height n.account n.height

abbrev pub witness_above : ℕ → ℕ → WitnessRow → Bool
witness_above account height w = is_above account height w.account w.height

-- `DELETE ... WHERE`.
abbrev pub delete : {A : Type 0} → (A → Bool) → List A → List A
delete p xs = filter (λ x. not (p x)) xs

-- A counter of `props`, and the upserts of one.
abbrev pub counter : ℕ → List (ℕ × ℕ) → Option ℕ
counter account [] = none
counter account (c ∷ cs) =
    let rest = counter account cs in if c.0 == account then some c.1 else rest

abbrev pub set_counter : ℕ → ℕ → List (ℕ × ℕ) → List (ℕ × ℕ)
set_counter account value [] = (account, value) ∷ []
set_counter account value (c ∷ cs) =
    let rest = set_counter account value cs in
    if c.0 == account then (account, value) ∷ cs else c ∷ rest

-- A database with one table changed.
abbrev pub with_heights : SyncDb → List SyncHeightRow → SyncDb
with_heights db rows = record {
  notes = db.notes;
  spends = db.spends;
  transactions = db.transactions;
  witnesses = db.witnesses;
  outputs = db.outputs;
  memos = db.memos;
  addresses = db.addresses;
  sync_heights = rows;
  headers = db.headers;
  births = db.births;
  trims = db.trims;
  lives = db.lives;
}

abbrev pub with_witnesses : SyncDb → List WitnessRow → SyncDb
with_witnesses db rows = record {
  notes = db.notes;
  spends = db.spends;
  transactions = db.transactions;
  witnesses = rows;
  outputs = db.outputs;
  memos = db.memos;
  addresses = db.addresses;
  sync_heights = db.sync_heights;
  headers = db.headers;
  births = db.births;
  trims = db.trims;
  lives = db.lives;
}

abbrev pub with_addresses : SyncDb → List AddressRow → SyncDb
with_addresses db rows = record {
  notes = db.notes;
  spends = db.spends;
  transactions = db.transactions;
  witnesses = db.witnesses;
  outputs = db.outputs;
  memos = db.memos;
  addresses = rows;
  sync_heights = db.sync_heights;
  headers = db.headers;
  births = db.births;
  trims = db.trims;
  lives = db.lives;
}

abbrev pub with_headers : SyncDb → List ℕ → SyncDb
with_headers db rows = record {
  notes = db.notes;
  spends = db.spends;
  transactions = db.transactions;
  witnesses = db.witnesses;
  outputs = db.outputs;
  memos = db.memos;
  addresses = db.addresses;
  sync_heights = db.sync_heights;
  headers = rows;
  births = db.births;
  trims = db.trims;
  lives = db.lives;
}

abbrev pub with_lives : SyncDb → List (ℕ × ℕ) → SyncDb
with_lives db rows = record {
  notes = db.notes;
  spends = db.spends;
  transactions = db.transactions;
  witnesses = db.witnesses;
  outputs = db.outputs;
  memos = db.memos;
  addresses = db.addresses;
  sync_heights = db.sync_heights;
  headers = db.headers;
  births = db.births;
  trims = db.trims;
  lives = rows;
}
