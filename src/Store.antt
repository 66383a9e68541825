-- ===== src/Store.antt =====
-- The tables of the wallet's database that reservations read and write, rust/rlz/src/db.rs.
use zcash_sdk_kmp.Base.{
  ℕ, Bool, ◌&&◌, ◌||◌, Option, none, some, List, [], ◌∷◌, map, min, ltb, ◌==◌, if◌then◌else◌,
  list_eq,
}
use zcash_sdk_kmp.Base.Partial.{◌>>=◌}

-- A nullifier, an outpoint or a transaction id by its bytes.
abbrev pub Blob : Type 0
Blob = List ℕ

pub record NoteRow : Type 0 where
  pub id_note : ℕ
  pub account : ℕ
  pub nullifier : Blob
  pub locked : Bool

pub record SpendRow : Type 0 where
  pub id_note : ℕ
  pub account : ℕ
  pub tx : ℕ

pub record TransactionRow : Type 0 where
  pub id_tx : ℕ
  pub account : ℕ
  pub txid : Blob

pub record SyncHeightRow : Type 0 where
  pub account : ℕ
  pub pool : ℕ
  pub height : ℕ

-- `pending_txs`; a price is given by the bits of its REAL.
pub record PendingTxRow : Type 0 where
  pub account : ℕ
  pub txid : Blob
  pub height : ℕ
  pub price : Option ℕ
  pub category : Option ℕ
  pub expiry_height : Option ℕ

pub record PendingSpendRow : Type 0 where
  pub account : ℕ
  pub nullifier : Blob
  pub owner_txid : Blob
  pub expiry_height : ℕ

pub record Db : Type 0 where
  pub notes : List NoteRow
  pub spends : List SpendRow
  pub transactions : List TransactionRow
  pub sync_heights : List SyncHeightRow
  pub pending_txs : List PendingTxRow
  pub pending_spend_inputs : List PendingSpendRow

module _ {A B : Type 0} where
  -- The rows of the right table that a row of the left one meets, or one NULL.
  abbrev pub padded : A → List B → List (A × Option B)
  padded a [] = (a, none) ∷ []
  padded a (b ∷ bs) = map (λ r. (a, some r)) (b ∷ bs)

abbrev pub filter : {A : Type 0} → (A → Bool) → List A → List A
filter p [] = []
filter p (x ∷ xs) = let rest = filter p xs in if p x then x ∷ rest else rest

-- The smallest of the heights, NULL without any.
abbrev pub min_height : List SyncHeightRow → Option ℕ
min_height [] = none
min_height (r ∷ rs) = some (elim (min_height rs) [ none ↦ r.height | some h ↦ min r.height h ])

abbrev pub get_sync_height : Db → ℕ → Option ℕ
get_sync_height db account = min_height (filter (λ r. r.account == account) db.sync_heights)

-- `(account, nullifier)` is the primary key of the table.
abbrev pub has_key : ℕ → Blob → PendingSpendRow → Bool
has_key account nullifier r = r.account == account && list_eq r.nullifier nullifier

abbrev pub find : ℕ → Blob → List PendingSpendRow → Option PendingSpendRow
find account nullifier [] = none
find account nullifier (r ∷ rs) =
    let rest = find account nullifier rs in if has_key account nullifier r then some r else rest

-- A condition of the view: the height the account is synchronized to, 0 without one.
abbrev pub coalesce : Option ℕ → ℕ
coalesce none = 0
coalesce (some h) = h

abbrev pub is_active : Db → PendingSpendRow → Bool
is_active db r =
    r.expiry_height == 0 || ltb (coalesce (get_sync_height db r.account)) r.expiry_height

-- The row of the view `active_pending_spend_inputs` at a key.
unfoldable pub active_pending_spend_input : Db → ℕ → Blob → Option PendingSpendRow
active_pending_spend_input db account nullifier =
    find account nullifier db.pending_spend_inputs >>= λ r. if is_active db r then some r else none
