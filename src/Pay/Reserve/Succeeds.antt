-- ===== src/Pay/Reserve/Succeeds.antt =====
-- When a reservation succeeds.
use zcash_sdk_kmp.Base.{
  ℕ, ◌≡◌, refl, sym, ◌∙◌, subst, Bool, true, false, not, Option, none, some, List, [], ◌∷◌, inl,
  inr, Bool-cases, list_eq, list_eq_refl, All,
}
use zcash_sdk_kmp.Base.Results.{ok}
use zcash_sdk_kmp.Store.{
  Blob, Db, PendingSpendRow, has_key, find, is_active, active_pending_spend_input, get_sync_height,
}
use zcash_sdk_kmp.Pay.Reserve.{
  ParsedTransaction, OwnInputs, required, optional, claim, with_inputs, upsert_pending_spend,
  may_take, claim_input, claim_inputs, is_held_by_another, is_in_time, validate_owned_inputs,
  reserve_owned, record_pending_tx, reserve_parsed_transaction,
}
use zcash_sdk_kmp.Pay.Reserve.Claims.{
  has_key→eq, find-has_key, view-parts, view-eq, claim_input-claimed, claim_input-other,
  claim_input-with_inputs,
}
use zcash_sdk_kmp.Pay.Reserve.Owner.{Holds, reserve_parsed_transaction-Holds}
use zcash_sdk_kmp.Pay.Reserve.Again.{reserve_parsed_transaction-eq}

upsert_pending_spend-allowed :
    (may : PendingSpendRow → Bool) (row : PendingSpendRow) (rs : List PendingSpendRow)
    → ((r : PendingSpendRow) → find row.account row.nullifier rs ≡ some r → may r ≡ true)
    → (upsert_pending_spend may row rs).1 ≡ true
unfolding upsert_pending_spend
upsert_pending_spend-allowed may row [] h = refl
upsert_pending_spend-allowed may row (r ∷ rs) h =
    elim (Bool-cases (has_key row.account row.nullifier r)) [
      | inl t ↦ rw (t, h r (rw t refl)) refl
      | inr f ↦ rw f (upsert_pending_spend-allowed may row rs (λ x e. h x (rw f e)))
    ]

module _ (account : ℕ) (parsed : ParsedTransaction) where
  abbrev held : Option PendingSpendRow → Bool
  held o = elim o as (λ _. Bool) [ none ↦ false | some r ↦ not (list_eq r.owner_txid parsed.txid) ]

  -- No other transaction actively holds the input.
  abbrev pub IsFree : Db → Blob → Type 0
  IsFree db input = is_held_by_another db account parsed.txid input ≡ false

  may_take-free :
      (db : Db) (i : Blob) (r : PendingSpendRow)
      → IsFree db i
      → find account i db.pending_spend_inputs ≡ some r
      → may_take db parsed.txid r ≡ true
  may_take-free db i r f e =
      let k = has_key→eq account i r (find-has_key account i db.pending_spend_inputs r e) in
      elim (Bool-cases (list_eq r.owner_txid parsed.txid)) [
        | inl t ↦ rw t refl
        | inr g ↦ rw (g, k.0, k.1) (view (active_pending_spend_input db account i) refl g)
      ]
    where
      view :
          (o : Option PendingSpendRow)
          → active_pending_spend_input db account i ≡ o
          → list_eq r.owner_txid parsed.txid ≡ false
          → elim o as (λ _. Bool) [ none ↦ true | some _ ↦ false ] ≡ true
      view none v g = refl
      view (some x) v g =
          let found : some x ≡ some r = sym (view-parts db account i x v).0 ∙ e in
          let same : x ≡ r = cc in
          let held : not (list_eq x.owner_txid parsed.txid) ≡ false =
            subst (λ o. held o ≡ false) v f in
          let stuck : true ≡ false = rw (same, g) at held in cc

  claim_input-free :
      (db : Db) (i : Blob) → IsFree db i → (db' : Db) × (claim_input db account parsed i ≡ ok db')
  unfolding claim_input
  claim_input-free db i f =
      let u =
        upsert_pending_spend (may_take db parsed.txid) (claim account parsed i)
          db.pending_spend_inputs in
      let done : u.1 ≡ true =
        upsert_pending_spend-allowed (may_take db parsed.txid) (claim account parsed i)
          db.pending_spend_inputs (λ r e. may_take-free db i r f e) in
      (with_inputs db u.0, rw done refl)

  claim_input-keeps_IsFree :
      (db db' : Db) (j i : Blob)
      → claim_input db account parsed j ≡ ok db'
      → IsFree db i
      → IsFree db' i
  claim_input-keeps_IsFree db db' j i h f = view (active_pending_spend_input db' account i) refl
    where
      view :
          (o : Option PendingSpendRow)
          → active_pending_spend_input db' account i ≡ o
          → held (active_pending_spend_input db' account i) ≡ false
      view none v = rw v refl
      view (some r) v =
          let p = view-parts db' account i r v in
          elim (Bool-cases (has_key account i (claim account parsed j))) [
            | inl t ↦
                let k = has_key→eq account i (claim account parsed j) t in
                let c =
                  subst
                    (λ x. find account x db'.pending_spend_inputs ≡ some (claim account parsed j))
                    k.1 (claim_input-claimed account parsed db db' j h) in
                let found : some r ≡ some (claim account parsed j) = sym p.0 ∙ c in
                let same : r ≡ claim account parsed j = cc in
                rw (v, same, list_eq_refl parsed.txid) refl
            | inr g ↦
                let e = sym (claim_input-other account parsed db db' j account i h g) ∙ p.0 in
                let active : is_active db r ≡ true =
                  subst (λ d. is_active d r ≡ true)
                    (sym (claim_input-with_inputs account parsed db db' j h)) p.1 in
                let before = view-eq db account i r e active in
                rw v (subst (λ o. held o ≡ false) before f)
          ]

  claim_inputs-free :
      (is : List Blob) (db : Db)
      → All (IsFree db) is
      → (db' : Db) × (claim_inputs db account parsed is ≡ ok db')
  unfolding claim_inputs
  claim_inputs-free [] db f = (db, refl)
  claim_inputs-free (i ∷ is) db f =
      let now = claim_input-free db i f.0 in
      let rest = claim_inputs-free is now.0 (stay is now.0 now.1 f.1) in (rest.0, rw now.1 rest.1)
    where
      stay :
          (js : List Blob) (mid : Db)
          → claim_input db account parsed i ≡ ok mid
          → All (IsFree db) js
          → All (IsFree mid) js
      stay [] mid e g = tt
      stay (j ∷ js) mid e g = (claim_input-keeps_IsFree db mid i j e g.0, stay js mid e g.1)

reserve_owned-free :
    (db : Db) (account : ℕ) (parsed : ParsedTransaction) (own : OwnInputs) (i : Blob)
    (is : List Blob)
    → All (IsFree account parsed db) (i ∷ is)
    → (db' : Db) × (reserve_owned db account parsed own (i ∷ is) ≡ ok db')
unfolding reserve_owned
reserve_owned-free db account parsed required i is f =
    let c = claim_inputs-free account parsed (i ∷ is) db f in
    (record_pending_tx c.0 account parsed (get_sync_height db account), rw c.1 refl)
reserve_owned-free db account parsed optional i is f =
    let c = claim_inputs-free account parsed (i ∷ is) db f in
    (record_pending_tx c.0 account parsed (get_sync_height db account), rw c.1 refl)

-- A transaction that is in time, and of whose inputs at least one is validated as the account's own
-- and none of these is actively held by another transaction, is reserved. Then it actively holds
-- all of these inputs, until its expiry height.
pub reserve_parsed_transaction_reserves :
    (db : Db) (account : ℕ) (parsed : ParsedTransaction) (own : OwnInputs) (i : Blob)
    (is : List Blob)
    → is_in_time (get_sync_height db account) parsed ≡ true
    → validate_owned_inputs db account parsed ≡ ok (i ∷ is)
    → All (IsFree account parsed db) (i ∷ is)
    → (db' : Db) × (reserve_parsed_transaction db account parsed own ≡ ok db')
      × All (Holds db' account parsed) (i ∷ is)
reserve_parsed_transaction_reserves db account parsed own i is t v f =
    let r = reserve_owned-free db account parsed own i is f in
    let e = reserve_parsed_transaction-eq db account parsed own (i ∷ is) t v ∙ r.1 in
    (r.0, e, reserve_parsed_transaction-Holds db r.0 account parsed own (i ∷ is) v e)
