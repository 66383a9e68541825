-- ===== src/Sync/Ingest/Spends.antt =====
-- The inputs of a window that spend a note are recorded.
use zcash_sdk_kmp.Base.{
  ℕ, ◌≡◌, ◌⊎◌, refl, true, Option, none, some, List, [], ◌∷◌, ◌==◌, ==_iff, IsIn, IsIn-snoc, inl,
  inr, Bool-cases,
}
use zcash_sdk_kmp.Base.Integers.{neg}
use zcash_sdk_kmp.Sync.Drain.{VinRow}
use zcash_sdk_kmp.Sync.Ingest.{
  TransactionRow, StoredNote, SpendRow, find_transaction, find_note, has_spend, spend_found,
  resolve_vin, resolve_vins,
}

-- The row of the spend of a note by an input of the window: its transaction is the stored one with
-- the input's txid.
pub record IsSpendOf (account : ℕ) (ts : List TransactionRow) (ns : List StoredNote) (v : VinRow)
    (s : SpendRow) : Type 0 where
  pub note : StoredNote
  pub note_found : find_note account v.outpoint ns ≡ some note
  pub id_note : s.id_note ≡ note.id_note
  pub account_of : s.account ≡ account
  pub pool : s.pool ≡ 0
  pub height : s.height ≡ v.height
  pub value : s.value ≡ neg note.value
  pub transaction : TransactionRow
  pub transaction_found : find_transaction account v.txid ts ≡ some transaction
  pub tx : s.tx ≡ transaction.id_tx

-- A row was in the table, or is that of an input of the window.
abbrev pub IsSpendFrom :
    ℕ → List TransactionRow → List StoredNote → List VinRow → List SpendRow → SpendRow → Type 0
IsSpendFrom account ts ns all before s =
    IsIn s before ⊎ ((v : VinRow) × IsIn v all × IsSpendOf account ts ns v s)

has_spend-row :
    (id_note : ℕ) (ss : List SpendRow)
    → has_spend id_note ss ≡ true
    → (s : SpendRow) × IsIn s ss × (s.id_note ≡ id_note)
has_spend-row id_note [] h = cc
has_spend-row id_note (s ∷ ss) h = elim (Bool-cases (s.id_note == id_note)) [
  | inl t ↦ (s, inl refl, (==_iff s.id_note id_note).0 t)
  | inr f ↦ let later = has_spend-row id_note ss (rw f at h) in (later.0, inr later.1, later.2)
]

module _ (account : ℕ) (ts : List TransactionRow) (ns : List StoredNote) (all : List VinRow)
    (before : List SpendRow) where
  abbrev AreFrom : List SpendRow → Type 0
  AreFrom ss = (s : SpendRow) → IsIn s ss → IsSpendFrom account ts ns all before s

  resolve_vin-AreFrom :
      (v : VinRow) (ss : List SpendRow)
      → IsIn v all
      → AreFrom ss
      → AreFrom (resolve_vin account ts ns v ss)
  unfolding resolve_vin
  resolve_vin-AreFrom v ss i k s =
      by (find_note account v.outpoint ns) refl (find_transaction account v.txid ts) refl
    where
      by :
          (n : Option StoredNote)
          → find_note account v.outpoint ns ≡ n
          → (t : Option TransactionRow) → find_transaction account v.txid ts ≡ t
          → IsIn s (spend_found account v ss n t)
          → IsSpendFrom account ts ns all before s
      by none e t g j = k s j
      by (some n) e none g j = k s j
      by (some n) e (some t) g j = elim (Bool-cases (has_spend n.id_note ss)) [
        | inl h ↦ k s (rw h at j)
        | inr h ↦ elim (IsIn-snoc s _ ss (rw h at j)) [
          | inl old ↦ k s old
          | inr new ↦ rw new (
              inr (
                v,
                i,
                record {
                  note = n;
                  note_found = e;
                  id_note = refl;
                  account_of = refl;
                  pool = refl;
                  height = refl;
                  value = refl;
                  transaction = t;
                  transaction_found = g;
                  tx = refl;
                },
              ))
        ]
      ]

  resolve_vins-AreFrom :
      (vs : List VinRow) (ss : List SpendRow)
      → ((v : VinRow) → IsIn v vs → IsIn v all)
      → AreFrom ss
      → AreFrom (resolve_vins account ts ns vs ss)
  unfolding resolve_vins
  resolve_vins-AreFrom [] ss i k = k
  resolve_vins-AreFrom (v ∷ vs) ss i k =
      resolve_vins-AreFrom vs (resolve_vin account ts ns v ss) (λ x j. i x (inr j))
        (resolve_vin-AreFrom v ss (i v (inl refl)) k)

-- A note has a spend, which was in the table or is that of an input of the window.
abbrev pub HasSpend :
    ℕ
    → List TransactionRow
    → List StoredNote
    → List VinRow
    → List SpendRow
    → List SpendRow
    → Option StoredNote
    → Type 0
HasSpend account ts ns all before after none = Unit
HasSpend account ts ns all before after (some n) =
    (s : SpendRow) × IsIn s after × (s.id_note ≡ n.id_note) × IsSpendFrom account ts ns all before s

pub resolve_vins-HasSpend :
    (account : ℕ) (ts : List TransactionRow) (ns : List StoredNote) (all : List VinRow)
    (before : List SpendRow) (n : StoredNote)
    → has_spend n.id_note (resolve_vins account ts ns all before) ≡ true
    → HasSpend account ts ns all before (resolve_vins account ts ns all before) (some n)
resolve_vins-HasSpend account ts ns all before n h =
    let (s, i, e) = has_spend-row n.id_note (resolve_vins account ts ns all before) h in
    (
      s,
      i,
      e,
      resolve_vins-AreFrom account ts ns all before all before (λ v j. j) (λ s j. inl j) s i,
    )
