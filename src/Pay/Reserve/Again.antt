-- ===== src/Pay/Reserve/Again.antt =====
-- A transaction that is reserved a second time, and one that competes with a reserved one.
use zcash_sdk_kmp.Base.{
  ℕ, ◌≡◌, refl, sym, ap, ◌∙◌, subst, Bool, true, Option, some, List, [], ◌∷◌, ◌&&◌, ◌==◌, inl, inr,
  Bool-cases, list_eq, list_eq_refl, list_eq→eq, ==_iff, All,
}
use zcash_sdk_kmp.Base.Results.{ok}
use zcash_sdk_kmp.Store.{Blob, Db, PendingTxRow, PendingSpendRow, has_key, find, get_sync_height}
use zcash_sdk_kmp.Pay.Reserve.{
  ParsedTransaction, OwnInputs, required, optional, claim, with_inputs, claim_input, claim_inputs,
  is_in_time, upsert_pending_spend, upsert_pending_tx, may_take, validate_owned_inputs,
  reserve_owned, record_pending_tx, reserve_parsed_transaction, contains, owned_rows,
}
use zcash_sdk_kmp.Pay.Reserve.Held.{IsClaimed, claim_inputs-IsClaimed, claim_inputs-with_inputs}
use zcash_sdk_kmp.Pay.Reserve.Owner.{
  Holds, reserve-parts, reserve_owned-nil, reserve_owned-cons, reserve_parsed_transaction-Holds,
  reserve_parsed_transaction-Keeps,
}

-- Writing the row that is there changes nothing.
upsert_pending_spend-again :
    (may : PendingSpendRow → Bool) (row : PendingSpendRow) (rs : List PendingSpendRow)
    → may row ≡ true
    → find row.account row.nullifier rs ≡ some row
    → upsert_pending_spend may row rs ≡ (rs, true)
unfolding upsert_pending_spend
upsert_pending_spend-again may row [] m h = cc
upsert_pending_spend-again may row (r ∷ rs) m h =
    elim (Bool-cases (has_key row.account row.nullifier r)) [
      | inl t ↦
          let found : some r ≡ some row = rw t at h in
          let same : row ≡ r = cc in
          let at_row : has_key row.account row.nullifier row ≡ true =
            subst (λ x. has_key row.account row.nullifier x ≡ true) (sym same) t in
          let there : upsert_pending_spend may row (row ∷ rs) ≡ (row ∷ rs, true) =
            rw (at_row, m) refl in
          subst (λ x. upsert_pending_spend may row (x ∷ rs) ≡ (x ∷ rs, true)) same there
      | inr f ↦ rw (f, upsert_pending_spend-again may row rs m (rw f at h)) refl
    ]

claim_input-again :
    (db : Db) (account : ℕ) (parsed : ParsedTransaction) (i : Blob)
    → IsClaimed account parsed db i
    → claim_input db account parsed i ≡ ok db
unfolding claim_input
claim_input-again db account parsed i c =
    let may : may_take db parsed.txid (claim account parsed i) ≡ true =
      rw (list_eq_refl parsed.txid) refl in
    rw (upsert_pending_spend-again _ (claim account parsed i) db.pending_spend_inputs may c) refl

claim_inputs-again :
    (db : Db) (account : ℕ) (parsed : ParsedTransaction) (is : List Blob)
    → All (IsClaimed account parsed db) is
    → claim_inputs db account parsed is ≡ ok db
unfolding claim_inputs
claim_inputs-again db account parsed [] c = refl
claim_inputs-again db account parsed (i ∷ is) c =
    rw (claim_input-again db account parsed i c.0) (claim_inputs-again db account parsed is c.1)

upsert_pending_tx-again :
    (row : PendingTxRow) (rs : List PendingTxRow)
    → upsert_pending_tx row (upsert_pending_tx row rs) ≡ upsert_pending_tx row rs
unfolding upsert_pending_tx
upsert_pending_tx-again row [] =
    rw ((==_iff row.account row.account).1 refl, list_eq_refl row.txid) refl
upsert_pending_tx-again row (r ∷ rs) =
    elim (Bool-cases (r.account == row.account && list_eq r.txid row.txid)) [
      | inl t ↦ rw t (rw t refl)
      | inr f ↦ rw f (rw (f, upsert_pending_tx-again row rs) refl)
    ]

-- What is read before the claims is the same after them.
validate-recorded :
    (db : Db) (rows : List PendingSpendRow) (account : ℕ) (parsed : ParsedTransaction)
    (o : Option ℕ)
    → validate_owned_inputs
        (record_pending_tx (with_inputs db rows) account parsed o)
        account
        parsed
      ≡ validate_owned_inputs db account parsed
unfolding validate_owned_inputs record_pending_tx owned_rows
validate-recorded db rows account parsed o = refl

height-recorded :
    (db : Db) (rows : List PendingSpendRow) (account : ℕ) (parsed : ParsedTransaction)
    (o : Option ℕ)
    → get_sync_height (record_pending_tx (with_inputs db rows) account parsed o) account
      ≡ get_sync_height db account
unfolding record_pending_tx
height-recorded db rows account parsed o = refl

record_pending_tx-again :
    (db : Db) (account : ℕ) (parsed : ParsedTransaction) (o : Option ℕ)
    → record_pending_tx (record_pending_tx db account parsed o) account parsed o
      ≡ record_pending_tx db account parsed o
unfolding record_pending_tx
record_pending_tx-again db account parsed o = rw (upsert_pending_tx-again _ db.pending_txs) refl

recorded-IsClaimed :
    (db : Db) (account : ℕ) (parsed : ParsedTransaction) (o : Option ℕ) (is : List Blob)
    → All (IsClaimed account parsed db) is
    → All (IsClaimed account parsed (record_pending_tx db account parsed o)) is
unfolding record_pending_tx
recorded-IsClaimed db account parsed o [] c = tt
recorded-IsClaimed db account parsed o (i ∷ is) c =
    (c.0, recorded-IsClaimed db account parsed o is c.1)

-- Reserving with the same claims again leaves the database.
reserve_owned-again :
    (db mid : Db) (account : ℕ) (parsed : ParsedTransaction) (own : OwnInputs) (i : Blob)
    (is : List Blob)
    → claim_inputs db account parsed (i ∷ is) ≡ ok mid
    → let db' = record_pending_tx mid account parsed (get_sync_height db account) in
      get_sync_height db' account ≡ get_sync_height db account
      → reserve_owned db' account parsed own (i ∷ is) ≡ ok db'
unfolding reserve_owned
reserve_owned-again db mid account parsed own i is h same =
    let o = get_sync_height db account in
    let claimed =
      recorded-IsClaimed mid account parsed o (i ∷ is)
        (claim_inputs-IsClaimed account parsed (i ∷ is) db mid h) in
    let claims =
      claim_inputs-again (record_pending_tx mid account parsed o) account parsed (i ∷ is) claimed in
    elim own [
      | required ↦ rw (claims, same) (ap ok (record_pending_tx-again mid account parsed o))
      | optional ↦ rw (claims, same) (ap ok (record_pending_tx-again mid account parsed o))
    ]

pub reserve_parsed_transaction-eq :
    (db : Db) (account : ℕ) (parsed : ParsedTransaction) (own : OwnInputs) (owned : List Blob)
    → is_in_time (get_sync_height db account) parsed ≡ true
    → validate_owned_inputs db account parsed ≡ ok owned
    → reserve_parsed_transaction db account parsed own ≡ reserve_owned db account parsed own owned
unfolding reserve_parsed_transaction
reserve_parsed_transaction-eq db account parsed own owned t v = rw (t, v) refl

-- A transaction that was reserved can be reserved again by the same call, which succeeds and leaves
-- the database as it is.
pub reserve_parsed_transaction_twice :
    (db db' : Db) (account : ℕ) (parsed : ParsedTransaction) (own : OwnInputs)
    → reserve_parsed_transaction db account parsed own ≡ ok db'
    → reserve_parsed_transaction db' account parsed own ≡ ok db'
reserve_parsed_transaction_twice db db' account parsed own h =
    let p = reserve-parts db db' account parsed own h in go p.1 p.0 p.2 p.3
  where
    go :
        (owned : List Blob)
        → is_in_time (get_sync_height db account) parsed ≡ true
        → validate_owned_inputs db account parsed ≡ ok owned
        → reserve_owned db account parsed own owned ≡ ok db'
        → reserve_parsed_transaction db' account parsed own ≡ ok db'
    go [] t v r =
        subst (λ d. reserve_parsed_transaction d account parsed own ≡ ok db')
          (reserve_owned-nil db db' account parsed own r) h
    go (i ∷ is) t v r =
        let m = reserve_owned-cons db db' account parsed own i is r in
        let o = get_sync_height db account in
        let whole = claim_inputs-with_inputs account parsed (i ∷ is) db m.0 m.1 in
        let height =
          subst (λ d. get_sync_height (record_pending_tx d account parsed o) account ≡ o) whole
            (height-recorded db m.0.pending_spend_inputs account parsed o) in
        let valid =
          subst
            (λ d.
              validate_owned_inputs (record_pending_tx d account parsed o) account parsed
              ≡ validate_owned_inputs db account parsed)
            whole (validate-recorded db m.0.pending_spend_inputs account parsed o) in
        subst (λ d. reserve_parsed_transaction d account parsed own ≡ ok d) m.2
          (reserve_parsed_transaction-eq _ account parsed own (i ∷ is) (rw height t) (valid ∙ v)
            ∙ reserve_owned-again db m.0 account parsed own i is m.1 height)

-- Two transactions that were both reserved while an input of theirs was validated as the account's
-- own, one after the other, have the same id.
pub reserve_parsed_transaction_exclusive :
    (db db' db'' : Db) (account : ℕ) (p q : ParsedTransaction) (own own' : OwnInputs)
    (ps qs : List Blob) (i : Blob)
    → reserve_parsed_transaction db account p own ≡ ok db'
    → reserve_parsed_transaction db' account q own' ≡ ok db''
    → validate_owned_inputs db account p ≡ ok ps
    → validate_owned_inputs db' account q ≡ ok qs
    → contains ps i ≡ true
    → contains qs i ≡ true
    → p.txid ≡ q.txid
reserve_parsed_transaction_exclusive db db' db'' account p q own own' ps qs i h k v w m n =
    let holds_p : Holds db' account p i =
      All-contains _ ps i m (reserve_parsed_transaction-Holds db db' account p own ps v h) in
    let holds_q : Holds db'' account q i =
      All-contains _ qs i n (reserve_parsed_transaction-Holds db' db'' account q own' qs w k) in
    elim (Bool-cases (list_eq p.txid q.txid)) [
      | inl t ↦ list_eq→eq p.txid q.txid t
      | inr f ↦
          let kept =
            reserve_parsed_transaction-Keeps db' db'' account q own' k account i (claim account p i)
              holds_p f in
          let rows : some (claim account p i) ≡ some (claim account q i) = sym kept ∙ holds_q in
          let same : claim account p i ≡ claim account q i = cc in
          ap (λ (r : PendingSpendRow). r.owner_txid) same
    ]
  where
    All-contains :
        (P : Blob → Type 0) (xs : List Blob) (i : Blob) → contains xs i ≡ true → All P xs → P i
    All-contains P [] i m h = cc
    All-contains P (x ∷ xs) i m h = elim (Bool-cases (list_eq x i)) [
      | inl t ↦ subst P (list_eq→eq x i t) h.0
      | inr f ↦ All-contains P xs i (rw f at m) h.1
    ]
