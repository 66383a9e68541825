-- ===== src/Sync/Ingest/Listed.antt =====
-- The transactions of a window are stored, and each input and output comes with its transaction.
use zcash_sdk_kmp.Base.{
  All-map, ℕ, ◌+◌, ◌≡◌, ◌⊎◌, refl, sym, subst, true, ◌&&◌, Option, none, some, List, [], ◌∷◌, ◌++◌,
  ◌==◌, ==_iff, All, All-append, list_eq, list_eq_refl, inl, inr, Bool-cases,
}
use zcash_sdk_kmp.Store.{Blob}
use zcash_sdk_kmp.Sync.Drain.{Item, broken, mined, Bundle, TxOut, NoteRow, VinRow, is_paid_to}
use zcash_sdk_kmp.Sync.Drain.Carried.{
  vins_of, bundle_vins, notes_of, bundle_notes, all_transactions, all_vins, all_notes,
}
use zcash_sdk_kmp.Sync.Ingest.{
  TransactionRow, find_transaction, unless_found, insert_transaction, insert_transactions,
}

abbrev pub IsFound : {A : Type 0} → Option A → Type 0
IsFound none = ⊥
IsFound (some _) = Unit

-- A search in a table with a row at its end.
find_transaction-append :
    (account : ℕ) (txid : Blob) (ts us : List TransactionRow)
    → IsFound (find_transaction account txid ts)
    → IsFound (find_transaction account txid (ts ++ us))
find_transaction-append account txid [] us f = absurd f
find_transaction-append account txid (t ∷ ts) us f =
    elim (Bool-cases (t.account == account && list_eq t.txid txid)) [
      | inl e ↦ rw e tt
      | inr e ↦ rw e (find_transaction-append account txid ts us (rw e at f))
    ]

find_transaction-last :
    (account : ℕ) (txid : Blob) (ts : List TransactionRow) (t : TransactionRow)
    → (t.account == account && list_eq t.txid txid) ≡ true
    → IsFound (find_transaction account txid (ts ++ t ∷ []))
find_transaction-last account txid [] t e = rw e tt
find_transaction-last account txid (x ∷ ts) t e =
    elim (Bool-cases (x.account == account && list_eq x.txid txid)) [
      | inl g ↦ rw g tt
      | inr g ↦ rw g (find_transaction-last account txid ts t e)
    ]

insert_transaction-IsFound :
    (account : ℕ) (t : Blob × ℕ) (ts : List TransactionRow)
    → IsFound (find_transaction account t.0 (insert_transaction account t ts))
unfolding insert_transaction
insert_transaction-IsFound account t ts = go (find_transaction account t.0 ts) refl
  where
    go :
        (o : Option TransactionRow)
        → find_transaction account t.0 ts ≡ o
        → IsFound (find_transaction account t.0 (unless_found account t ts o))
    go none e =
        find_transaction-last account t.0 ts _
          (rw ((==_iff account account).1 refl) (list_eq_refl t.0))
    go (some x) e = subst IsFound (sym e) tt

insert_transaction-keeps :
    (account : ℕ) (t : Blob × ℕ) (txid : Blob) (ts : List TransactionRow)
    → IsFound (find_transaction account txid ts)
    → IsFound (find_transaction account txid (insert_transaction account t ts))
unfolding insert_transaction
insert_transaction-keeps account t txid ts f = go (find_transaction account t.0 ts)
  where
    go :
        (o : Option TransactionRow)
        → IsFound (find_transaction account txid (unless_found account t ts o))
    go none = find_transaction-append account txid ts _ f
    go (some x) = f

insert_transactions-keeps :
    (account : ℕ) (us : List (Blob × ℕ)) (txid : Blob) (ts : List TransactionRow)
    → IsFound (find_transaction account txid ts)
    → IsFound (find_transaction account txid (insert_transactions account us ts))
unfolding insert_transactions
insert_transactions-keeps account [] txid ts f = f
insert_transactions-keeps account (u ∷ us) txid ts f =
    insert_transactions-keeps account us txid (insert_transaction account u ts)
      (insert_transaction-keeps account u txid ts f)

-- A transaction that is among some rows.
abbrev pub IsListed : Blob → List (Blob × ℕ) → Type 0
IsListed txid [] = ⊥
IsListed txid (t ∷ ts) = (txid ≡ t.0) ⊎ IsListed txid ts

pub insert_transactions-IsFound :
    (account : ℕ) (us : List (Blob × ℕ)) (txid : Blob) (ts : List TransactionRow)
    → IsListed txid us
    → IsFound (find_transaction account txid (insert_transactions account us ts))
unfolding insert_transactions
insert_transactions-IsFound account [] txid ts l = absurd l
insert_transactions-IsFound account (u ∷ us) txid ts (inl e) =
    insert_transactions-keeps account us txid (insert_transaction account u ts) (
      subst (λ x. IsFound (find_transaction account x (insert_transaction account u ts))) (sym e)
        (insert_transaction-IsFound account u ts))
insert_transactions-IsFound account (u ∷ us) txid ts (inr l) =
    insert_transactions-IsFound account us txid (insert_transaction account u ts) l

-- Each input comes with its transaction.
vins_of-IsListed :
    (txid : Blob) (height : ℕ) (vin : List Blob) (ts : List (Blob × ℕ))
    → IsListed txid ts
    → All (λ (v : VinRow). IsListed v.txid ts) (vins_of txid height vin)
vins_of-IsListed txid height [] ts l = tt
vins_of-IsListed txid height (o ∷ vin) ts l = (l, vins_of-IsListed txid height vin ts l)

bundle_vins-IsListed :
    (txid : Blob) (height : ℕ) (b : Option Bundle) (ts : List (Blob × ℕ))
    → IsListed txid ts
    → All (λ (v : VinRow). IsListed v.txid ts) (bundle_vins txid height b)
bundle_vins-IsListed txid height none ts l = tt
bundle_vins-IsListed txid height (some b) ts l = vins_of-IsListed txid height b.vin ts l

pub all_vins-IsListed :
    (items : List Item)
    → All (λ (v : VinRow). IsListed v.txid (all_transactions items)) (all_vins items)
all_vins-IsListed [] = tt
all_vins-IsListed (broken ∷ items) = all_vins-IsListed items
all_vins-IsListed (mined height tx ∷ items) =
    All-append (λ (v : VinRow). IsListed v.txid (all_transactions (mined height tx ∷ items)))
      (bundle_vins tx.txid height tx.transparent_bundle) (all_vins items)
      (bundle_vins-IsListed tx.txid height tx.transparent_bundle
        (all_transactions (mined height tx ∷ items)) (inl refl))
      (All-map _ _ (all_vins items) (λ v l. inr l) (all_vins-IsListed items))

-- Each note comes with its transaction.
notes_of-IsListed :
    (my_address txid : Blob) (height i : ℕ) (vout : List TxOut) (ts : List (Blob × ℕ))
    → IsListed txid ts
    → All (λ (n : NoteRow). IsListed n.txid ts) (notes_of my_address txid height i vout)
notes_of-IsListed my_address txid height i [] ts l = tt
notes_of-IsListed my_address txid height i (out ∷ vout) ts l =
    let rest = notes_of-IsListed my_address txid height (i + 1) vout ts l in
    elim (Bool-cases (is_paid_to my_address out)) [ inl t ↦ rw t (l, rest) | inr f ↦ rw f rest ]

bundle_notes-IsListed :
    (my_address txid : Blob) (height : ℕ) (b : Option Bundle) (ts : List (Blob × ℕ))
    → IsListed txid ts
    → All (λ (n : NoteRow). IsListed n.txid ts) (bundle_notes my_address txid height b)
bundle_notes-IsListed my_address txid height none ts l = tt
bundle_notes-IsListed my_address txid height (some b) ts l =
    notes_of-IsListed my_address txid height 0 b.vout ts l

pub all_notes-IsListed :
    (my_address : Blob) (items : List Item)
    → All (λ (n : NoteRow). IsListed n.txid (all_transactions items)) (all_notes my_address items)
all_notes-IsListed my_address [] = tt
all_notes-IsListed my_address (broken ∷ items) = all_notes-IsListed my_address items
all_notes-IsListed my_address (mined height tx ∷ items) =
    All-append (λ (n : NoteRow). IsListed n.txid (all_transactions (mined height tx ∷ items)))
      (bundle_notes my_address tx.txid height tx.transparent_bundle) (all_notes my_address items)
      (bundle_notes-IsListed my_address tx.txid height tx.transparent_bundle
        (all_transactions (mined height tx ∷ items)) (inl refl))
      (All-map _ _ (all_notes my_address items) (λ n l. inr l)
        (all_notes-IsListed my_address items))
