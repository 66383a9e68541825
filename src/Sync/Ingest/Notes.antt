-- ===== src/Sync/Ingest/Notes.antt =====
-- The notes of a window are stored.
use zcash_sdk_kmp.Base.{
  ℕ, ◌≡◌, ◌⊎◌, refl, sym, subst, true, ◌&&◌, Option, none, some, List, [], ◌∷◌, ◌++◌, ◌==◌, ==_iff,
  All, All-map, IsIn, list_eq, list_eq_refl, list_eq→eq, &&-parts, inl, inr, Bool-cases,
}
use zcash_sdk_kmp.Store.{Blob}
use zcash_sdk_kmp.Sync.Drain.{NoteRow}
use zcash_sdk_kmp.Sync.Ingest.{
  TransactionRow, StoredNote, find_transaction, find_note, unless_stored, note_added, insert_note,
  insert_notes,
}
use zcash_sdk_kmp.Sync.Ingest.Listed.{IsFound}

find_note-append :
    (account : ℕ) (k : Blob) (ns us : List StoredNote) (m : StoredNote)
    → find_note account k ns ≡ some m
    → find_note account k (ns ++ us) ≡ some m
find_note-append account k [] us m e = cc
find_note-append account k (n ∷ ns) us m e =
    elim (Bool-cases (n.account == account && list_eq n.nullifier k)) [
      | inl t ↦ rw t (rw t at e)
      | inr f ↦ rw f (find_note-append account k ns us m (rw f at e))
    ]

-- A note that is found with another row at the end of the table.
find_note-snoc :
    (account : ℕ) (k : Blob) (ns : List StoredNote) (x m : StoredNote)
    → find_note account k (ns ++ x ∷ []) ≡ some m
    → (find_note account k ns ≡ some m) ⊎ ((x ≡ m) × (list_eq x.nullifier k ≡ true))
find_note-snoc account k [] x m e =
    elim (Bool-cases (x.account == account && list_eq x.nullifier k)) [
      | inl t ↦
          let found : some x ≡ some m = rw t at e in
          inr (cc, (&&-parts (x.account == account) (list_eq x.nullifier k) t).1)
      | inr f ↦ let never : none ≡ some m = rw f at e in cc
    ]
find_note-snoc account k (n ∷ ns) x m e =
    elim (Bool-cases (n.account == account && list_eq n.nullifier k)) [
      | inl t ↦ inl (rw t (rw t at e))
      | inr f ↦ rw f (find_note-snoc account k ns x m (rw f at e))
    ]

find_note-last :
    (account : ℕ) (k : Blob) (ns : List StoredNote) (x : StoredNote)
    → (x.account == account && list_eq x.nullifier k) ≡ true
    → IsFound (find_note account k (ns ++ x ∷ []))
find_note-last account k [] x t = rw t tt
find_note-last account k (n ∷ ns) x t =
    elim (Bool-cases (n.account == account && list_eq n.nullifier k)) [
      | inl g ↦ rw g tt
      | inr g ↦ rw g (find_note-last account k ns x t)
    ]

found : {A : Type 0} (o : Option A) → IsFound o → (a : A) × (o ≡ some a)
found none f = absurd f
found (some a) f = (a, refl)

-- The row of a note of the window: its transaction is the stored one with its txid.
pub record IsNoteOf (account id_taddress : ℕ) (ts : List TransactionRow) (n : NoteRow)
    (m : StoredNote) : Type 0 where
  pub account_of : m.account ≡ account
  pub height : m.height ≡ n.height
  pub pool : m.pool ≡ 0
  pub taddress : m.taddress ≡ some id_taddress
  pub nullifier : m.nullifier ≡ n.nullifier
  pub value : m.value ≡ n.value
  pub transaction : TransactionRow
  pub transaction_found : find_transaction account n.txid ts ≡ some transaction
  pub tx : m.tx ≡ transaction.id_tx

-- A note was in the table, or is the row of a note of the window with its nullifier.
abbrev pub IsFrom :
    ℕ → ℕ → List TransactionRow → List NoteRow → List StoredNote → Blob → StoredNote → Type 0
IsFrom account id_taddress ts all before k m =
    (find_note account k before ≡ some m)
    ⊎ ((n : NoteRow) × IsIn n all × (n.nullifier ≡ k) × IsNoteOf account id_taddress ts n m)

-- The note of the window is in the table.
abbrev pub IsStored :
    ℕ
    → ℕ
    → List TransactionRow
    → List NoteRow
    → List StoredNote
    → List StoredNote
    → NoteRow
    → Type 0
IsStored account id_taddress ts all before after n =
    (m : StoredNote) × (find_note account n.nullifier after ≡ some m)
    × IsFrom account id_taddress ts all before n.nullifier m

module _ (account id_taddress : ℕ) (ts : List TransactionRow) where
  module _ (all : List NoteRow) (before : List StoredNote) where
    abbrev AreFrom : List StoredNote → Type 0
    AreFrom ns =
        (k : Blob) (m : StoredNote)
        → find_note account k ns ≡ some m
        → IsFrom account id_taddress ts all before k m

    insert_note-AreFrom :
        (n : NoteRow) (ns : List StoredNote)
        → IsIn n all
        → AreFrom ns
        → AreFrom (insert_note account id_taddress ts n ns)
    unfolding insert_note
    insert_note-AreFrom n ns i v k m =
        by_transaction (find_transaction account n.txid ts) refl (find_note account n.nullifier ns)
      where
        by_note :
            (t : TransactionRow)
            → find_transaction account n.txid ts ≡ some t
            → (o : Option StoredNote)
            → find_note account k (unless_stored account id_taddress n ns t o) ≡ some m
            → IsFrom account id_taddress ts all before k m
        by_note t at (some x) e = v k m e
        by_note t at none e = elim (find_note-snoc account k ns _ m e) [
          | inl old ↦ v k m old
          | inr (same, key) ↦ inr (
            n,
            i,
            list_eq→eq n.nullifier k key,
            subst (IsNoteOf account id_taddress ts n) same (record {
              account_of = refl;
              height = refl;
              pool = refl;
              taddress = refl;
              nullifier = refl;
              value = refl;
              transaction = t;
              transaction_found = at;
              tx = refl;
            }),
          )
        ]

        by_transaction :
            (p : Option TransactionRow)
            → find_transaction account n.txid ts ≡ p
            → (o : Option StoredNote)
            → find_note account k (note_added account id_taddress n ns p o) ≡ some m
            → IsFrom account id_taddress ts all before k m
        by_transaction none at o e = v k m e
        by_transaction (some t) at o e = by_note t at o e

    insert_notes-AreFrom :
        (rows : List NoteRow) (ns : List StoredNote)
        → ((n : NoteRow) → IsIn n rows → IsIn n all)
        → AreFrom ns
        → AreFrom (insert_notes account id_taddress ts rows ns)
    unfolding insert_notes
    insert_notes-AreFrom [] ns i v = v
    insert_notes-AreFrom (n ∷ rows) ns i v =
        insert_notes-AreFrom rows (insert_note account id_taddress ts n ns) (λ x j. i x (inr j))
          (insert_note-AreFrom n ns (i n (inl refl)) v)

  -- A note is found after its insert, as its transaction is.
  insert_note-IsFound :
      (n : NoteRow) (ns : List StoredNote)
      → IsFound (find_transaction account n.txid ts)
      → IsFound (find_note account n.nullifier (insert_note account id_taddress ts n ns))
  unfolding insert_note
  insert_note-IsFound n ns f =
      by (find_transaction account n.txid ts) f (find_note account n.nullifier ns) refl
    where
      by :
          (p : Option TransactionRow)
          → IsFound p
          → (o : Option StoredNote) → find_note account n.nullifier ns ≡ o
          → IsFound (find_note account n.nullifier (note_added account id_taddress n ns p o))
      by none f o e = absurd f
      by (some t) f none e =
          find_note-last account n.nullifier ns _
            (rw ((==_iff account account).1 refl) (list_eq_refl n.nullifier))
      by (some t) f (some x) e = subst IsFound (sym e) tt

  insert_note-keeps :
      (n : NoteRow) (k : Blob) (ns : List StoredNote) (m : StoredNote)
      → find_note account k ns ≡ some m
      → find_note account k (insert_note account id_taddress ts n ns) ≡ some m
  unfolding insert_note
  insert_note-keeps n k ns m e =
      by (find_transaction account n.txid ts) (find_note account n.nullifier ns)
    where
      by :
          (p : Option TransactionRow) (o : Option StoredNote)
          → find_note account k (note_added account id_taddress n ns p o) ≡ some m
      by none o = e
      by (some t) none = find_note-append account k ns _ m e
      by (some t) (some x) = e

  insert_notes-keeps :
      (rows : List NoteRow) (k : Blob) (ns : List StoredNote) (m : StoredNote)
      → find_note account k ns ≡ some m
      → find_note account k (insert_notes account id_taddress ts rows ns) ≡ some m
  unfolding insert_notes
  insert_notes-keeps [] k ns m e = e
  insert_notes-keeps (n ∷ rows) k ns m e =
      insert_notes-keeps rows k (insert_note account id_taddress ts n ns) m
        (insert_note-keeps n k ns m e)

  insert_notes-found :
      (rows : List NoteRow) (ns : List StoredNote)
      → All (λ n. IsFound (find_transaction account n.txid ts)) rows
      → All
          (λ (n : NoteRow).
            (m : StoredNote) × (find_note account n.nullifier
                (insert_notes account id_taddress ts rows ns)
              ≡ some m))
          rows
  unfolding insert_notes
  insert_notes-found [] ns f = tt
  insert_notes-found (n ∷ rows) ns f =
      let ns' = insert_note account id_taddress ts n ns in
      let here = found (find_note account n.nullifier ns') (insert_note-IsFound n ns f.0) in
      (
        (here.0, insert_notes-keeps rows n.nullifier ns' here.0 here.1),
        insert_notes-found rows ns' f.1,
      )

  pub insert_notes-IsStored :
      (rows : List NoteRow) (before : List StoredNote)
      → All (λ n. IsFound (find_transaction account n.txid ts)) rows
      → All
          (IsStored account id_taddress ts rows before
            (insert_notes account id_taddress ts rows before))
          rows
  insert_notes-IsStored rows before f =
      All-map _ _ rows
        (λ n s. (
          s.0,
          s.1,
          insert_notes-AreFrom rows before rows before (λ n i. i) (λ k m e. inl e) n.nullifier s.0
              s.1,
        ))
        (insert_notes-found rows before f)
