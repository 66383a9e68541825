-- ===== src/Pay/Reserve/Claims.antt =====
-- One claim: what the upsert does to the row of a key, and what the view then shows.
use zcash_sdk_kmp.Base.{
  &&-parts, ℕ, ◌≡◌, refl, ◌∙◌, subst, Bool, true, false, none, some, List, [], ◌∷◌, ◌==◌, inl, inr,
  Bool-cases, list_eq, list_eq_refl, list_eq→eq, ==_iff,
}
use zcash_sdk_kmp.Base.Partial.{>>=-eq-some}
use zcash_sdk_kmp.Base.Results.{ok, ensure-eq-ok, ok-inj}
use zcash_sdk_kmp.Store.{
  Blob, PendingSpendRow, Db, has_key, find, is_active, active_pending_spend_input,
}
use zcash_sdk_kmp.Pay.Reserve.{
  ParsedTransaction, reserved_by_another, upsert_pending_spend, may_take, claim, with_inputs,
  claim_input,
}

pub has_key→eq :
    (account : ℕ) (nullifier : Blob) (r : PendingSpendRow)
    → has_key account nullifier r ≡ true
    → (r.account ≡ account) × (r.nullifier ≡ nullifier)
has_key→eq account nullifier r h =
    let p = &&-parts (r.account == account) (list_eq r.nullifier nullifier) h in
    ((==_iff r.account account).0 p.0, list_eq→eq r.nullifier nullifier p.1)

pub has_key_refl : (r : PendingSpendRow) → has_key r.account r.nullifier r ≡ true
has_key_refl r = rw ((==_iff r.account r.account).1 refl) (list_eq_refl r.nullifier)

pub find-has_key :
    (a : ℕ) (n : Blob) (rs : List PendingSpendRow) (r : PendingSpendRow)
    → find a n rs ≡ some r
    → has_key a n r ≡ true
find-has_key a n [] r h = cc
find-has_key a n (x ∷ xs) r h = elim (Bool-cases (has_key a n x)) [
  | inl t ↦
      let same : some x ≡ some r = rw t at h in
      let row_eq : x ≡ r = cc in subst (λ y. has_key a n y ≡ true) row_eq t
  | inr f ↦ find-has_key a n xs r (rw f at h)
]

-- The row of another key stays.
pub find-upsert_other :
    (may : PendingSpendRow → Bool) (row : PendingSpendRow) (a : ℕ) (n : Blob)
    → has_key a n row ≡ false
    → (rs : List PendingSpendRow) → find a n (upsert_pending_spend may row rs).0 ≡ find a n rs
unfolding upsert_pending_spend
find-upsert_other may row a n h [] = rw h refl
find-upsert_other may row a n h (r ∷ rs) = elim (Bool-cases (has_key row.account row.nullifier r)) [
  | inl t ↦
      let e = has_key→eq row.account row.nullifier r t in
      let away : has_key a n r ≡ false = rw (e.0, e.1) h in
      elim (Bool-cases (may r)) [ inl m ↦ rw (t, m, away) refl | inr m ↦ rw (t, m) refl ]
  | inr f ↦ rw (f, find-upsert_other may row a n h rs) refl
]

-- A row is written only where its key is free or where it may be, and the key then has it.
pub find-upsert_same :
    (may : PendingSpendRow → Bool) (row : PendingSpendRow) (rs : List PendingSpendRow)
    → (upsert_pending_spend may row rs).1 ≡ true
    → (find row.account row.nullifier (upsert_pending_spend may row rs).0 ≡ some row)
      × ((r : PendingSpendRow) → find row.account row.nullifier rs ≡ some r → may r ≡ true)
unfolding upsert_pending_spend
find-upsert_same may row [] h = (rw (has_key_refl row) refl, λ r e. cc)
find-upsert_same may row (r ∷ rs) h = elim (Bool-cases (has_key row.account row.nullifier r)) [
  | inl t ↦
      let e = has_key→eq row.account row.nullifier r t in
      elim (Bool-cases (may r)) [
        | inl m ↦ (
          rw (t, m, e.0, e.1) (rw (has_key_refl row) refl),
          λ r' e'.
              let same : some r ≡ some r' = rw t at e' in
              let row_eq : r ≡ r' = cc in subst (λ x. may x ≡ true) row_eq m,
        )
        | inr m ↦ let stuck : false ≡ true = rw (t, m) at h in cc
      ]
  | inr f ↦
      let rest = find-upsert_same may row rs (rw f at h) in
      (rw (f, rest.0, f) refl, λ r' e'. rest.1 r' (rw f at e'))
]

-- The view at a key has the key's row, when that is active.
pub view-parts :
    (db : Db) (a : ℕ) (n : Blob) (r : PendingSpendRow)
    → active_pending_spend_input db a n ≡ some r
    → (find a n db.pending_spend_inputs ≡ some r) × (is_active db r ≡ true)
unfolding active_pending_spend_input
view-parts db a n r h =
    let p = >>=-eq-some (find a n db.pending_spend_inputs) _ h in
    elim (Bool-cases (is_active db p.0)) [
      | inl t ↦
          let same : some p.0 ≡ some r = rw t at p.2 in
          let row_eq : p.0 ≡ r = cc in (p.1 ∙ same, subst (λ x. is_active db x ≡ true) row_eq t)
      | inr f ↦ let stuck : none ≡ some r = rw f at p.2 in cc
    ]

pub view-eq :
    (db : Db) (a : ℕ) (n : Blob) (r : PendingSpendRow)
    → find a n db.pending_spend_inputs ≡ some r
    → is_active db r ≡ true
    → active_pending_spend_input db a n ≡ some r
unfolding active_pending_spend_input
view-eq db a n r e t = rw (e, t) refl

-- What a claim that succeeds did: the table it leaves, and that it was let.
pub claim_input-parts :
    (db : Db) (account : ℕ) (parsed : ParsedTransaction) (input : Blob) (db' : Db)
    → claim_input db account parsed input ≡ ok db'
    → let u =
        upsert_pending_spend
          (may_take db parsed.txid)
          (claim account parsed input)
          db.pending_spend_inputs in
      (u.1 ≡ true) × (with_inputs db u.0 ≡ db')
unfolding claim_input
claim_input-parts db account parsed input db' h =
    let p = ensure-eq-ok _ reserved_by_another _ h in (p.0, ok-inj p.1)

may_take-own :
    (db : Db) (a : ℕ) (n txid : Blob) (r : PendingSpendRow)
    → (r.account ≡ a) × (r.nullifier ≡ n)
    → active_pending_spend_input db a n ≡ some r
    → may_take db txid r ≡ true
    → list_eq r.owner_txid txid ≡ true
may_take-own db a n txid r k v h = elim (Bool-cases (list_eq r.owner_txid txid)) [
  | inl t ↦ t
  | inr f ↦ let stuck : false ≡ true = rw (f, k.0, k.1, v) at h in cc
]

module _ (account : ℕ) (parsed : ParsedTransaction) where
  -- After a claim the view shows it, when it is in time.
  pub claim_input-claimed :
      (db db' : Db) (input : Blob)
      → claim_input db account parsed input ≡ ok db'
      → find account input db'.pending_spend_inputs ≡ some (claim account parsed input)
  claim_input-claimed db db' input h =
      let p = claim_input-parts db account parsed input db' h in
      subst (λ d. find account input d.pending_spend_inputs ≡ some (claim account parsed input)) p.1
        (find-upsert_same _ _ _ p.0).0

  -- The rows of other keys stay.
  pub claim_input-other :
      (db db' : Db) (input : Blob) (a : ℕ) (n : Blob)
      → claim_input db account parsed input ≡ ok db'
      → has_key a n (claim account parsed input) ≡ false
      → find a n db'.pending_spend_inputs ≡ find a n db.pending_spend_inputs
  claim_input-other db db' input a n h away =
      let p = claim_input-parts db account parsed input db' h in
      subst (λ d. find a n d.pending_spend_inputs ≡ find a n db.pending_spend_inputs) p.1
        (find-upsert_other _ _ a n away db.pending_spend_inputs)

  -- A claim changes one table.
  pub claim_input-with_inputs :
      (db db' : Db) (input : Blob)
      → claim_input db account parsed input ≡ ok db'
      → with_inputs db db'.pending_spend_inputs ≡ db'
  claim_input-with_inputs db db' input h =
      let p = claim_input-parts db account parsed input db' h in
      subst (λ d. with_inputs db d.pending_spend_inputs ≡ d) p.1 refl

  -- A key that another transaction holds is not claimed.
  pub claim_input-held :
      (db db' : Db) (input : Blob) (r : PendingSpendRow)
      → claim_input db account parsed input ≡ ok db'
      → active_pending_spend_input db account input ≡ some r
      → list_eq r.owner_txid parsed.txid ≡ true
  claim_input-held db db' input r h v =
      let p = claim_input-parts db account parsed input db' h in
      let w = view-parts db account input r v in
      let may = (find-upsert_same _ _ _ p.0).1 r w.0 in
      let k =
        has_key→eq account input r (find-has_key account input db.pending_spend_inputs r w.0) in
      may_take-own db account input parsed.txid r k v may
