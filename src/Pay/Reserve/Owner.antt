-- ===== src/Pay/Reserve/Owner.antt =====
-- What a reservation that succeeds establishes, for its own inputs and for those of others.
use zcash_sdk_kmp.Base.{
  All-map, ℕ, ◌≡◌, refl, sym, ◌∙◌, subst, true, false, Option, some, List, [], ◌∷◌, list_eq, All,
}
use zcash_sdk_kmp.Base.Results.{ok, >>=-eq-ok, ensure-eq-ok, ok-inj}
use zcash_sdk_kmp.Store.{
  Blob, Db, PendingSpendRow, is_active, active_pending_spend_input, get_sync_height,
}
use zcash_sdk_kmp.Pay.Reserve.{
  ParsedTransaction, OwnInputs, required, optional, expired, reserved_by_another, claim,
  with_inputs, claim_inputs, is_in_time, validate_owned_inputs, reserve_owned, record_pending_tx,
  reserve_parsed_transaction,
}
use zcash_sdk_kmp.Pay.Reserve.Claims.{view-eq}
use zcash_sdk_kmp.Pay.Reserve.Held.{
  Keeps, IsClaimed, claim_inputs-Keeps, claim_inputs-with_inputs, claim_inputs-IsClaimed,
  is_in_time-is_active,
}

-- The parts of a reservation that succeeds.
pub reserve-parts :
    (db db' : Db) (account : ℕ) (parsed : ParsedTransaction) (own : OwnInputs)
    → reserve_parsed_transaction db account parsed own ≡ ok db'
    → (is_in_time (get_sync_height db account) parsed ≡ true)
      × (owned : List Blob) × (validate_owned_inputs db account parsed ≡ ok owned)
      × (reserve_owned db account parsed own owned ≡ ok db')
unfolding reserve_parsed_transaction
reserve-parts db db' account parsed own h =
    let p = >>=-eq-ok _ _ h in let q = ensure-eq-ok _ expired _ p.1 in (q.0, p.0, q.1, p.2)

-- Without owned inputs nothing is written; otherwise the claims, and then the pending transaction.
pub reserve_owned-nil :
    (db db' : Db) (account : ℕ) (parsed : ParsedTransaction) (own : OwnInputs)
    → reserve_owned db account parsed own [] ≡ ok db'
    → db ≡ db'
unfolding reserve_owned
reserve_owned-nil db db' account parsed required h = cc
reserve_owned-nil db db' account parsed optional h =
    ok-inj (ensure-eq-ok _ reserved_by_another _ h).1

pub reserve_owned-cons :
    (db db' : Db) (account : ℕ) (parsed : ParsedTransaction) (own : OwnInputs) (input : Blob)
    (inputs : List Blob)
    → reserve_owned db account parsed own (input ∷ inputs) ≡ ok db'
    → (mid : Db) × (claim_inputs db account parsed (input ∷ inputs) ≡ ok mid)
      × (record_pending_tx mid account parsed (get_sync_height db account) ≡ db')
unfolding reserve_owned
reserve_owned-cons db db' account parsed required input inputs h =
    let p = >>=-eq-ok _ _ h in (p.0, p.1, ok-inj p.2)
reserve_owned-cons db db' account parsed optional input inputs h =
    let p = >>=-eq-ok _ _ h in (p.0, p.1, ok-inj p.2)

-- The view does not read the pending transactions.
record_pending_tx-active :
    (db : Db) (account : ℕ) (parsed : ParsedTransaction) (o : Option ℕ) (a : ℕ) (n : Blob)
    → active_pending_spend_input (record_pending_tx db account parsed o) a n
      ≡ active_pending_spend_input db a n
unfolding record_pending_tx active_pending_spend_input
record_pending_tx-active db account parsed o a n = refl

reserve_owned-Keeps :
    (db db' : Db) (account : ℕ) (parsed : ParsedTransaction) (own : OwnInputs) (owned : List Blob)
    → reserve_owned db account parsed own owned ≡ ok db'
    → Keeps account parsed db db'
reserve_owned-Keeps db db' account parsed own [] h a n r v other =
    subst (λ d. active_pending_spend_input d a n ≡ some r)
      (reserve_owned-nil db db' account parsed own h) v
reserve_owned-Keeps db db' account parsed own (i ∷ is) h a n r v other =
    let p = reserve_owned-cons db db' account parsed own i is h in
    subst (λ d. active_pending_spend_input d a n ≡ some r) p.2
      (record_pending_tx-active p.0 account parsed _ a n
        ∙ claim_inputs-Keeps account parsed (i ∷ is) db p.0 p.1 a n r v other)

-- A reservation that succeeds leaves every input that another transaction actively holds with that
-- transaction, on any account: the row of the view at the input's key is the same before and after.
pub reserve_parsed_transaction-Keeps :
    (db db' : Db) (account : ℕ) (parsed : ParsedTransaction) (own : OwnInputs)
    → reserve_parsed_transaction db account parsed own ≡ ok db'
    → (a : ℕ) (n : Blob) (r : PendingSpendRow) → active_pending_spend_input db a n ≡ some r
    → list_eq r.owner_txid parsed.txid ≡ false
    → active_pending_spend_input db' a n ≡ some r
reserve_parsed_transaction-Keeps db db' account parsed own h =
    let p = reserve-parts db db' account parsed own h in
    reserve_owned-Keeps db db' account parsed own p.1 p.3

-- The inputs that the transaction owns are held in the view.
abbrev pub Holds : Db → ℕ → ParsedTransaction → Blob → Type 0
Holds db account parsed i = active_pending_spend_input db account i ≡ some (claim account parsed i)

reserve_owned-Holds :
    (db db' : Db) (account : ℕ) (parsed : ParsedTransaction) (own : OwnInputs) (owned : List Blob)
    → is_in_time (get_sync_height db account) parsed ≡ true
    → reserve_owned db account parsed own owned ≡ ok db'
    → All (Holds db' account parsed) owned
reserve_owned-Holds db db' account parsed own [] t h = tt
reserve_owned-Holds db db' account parsed own (i ∷ is) t h =
    let p = reserve_owned-cons db db' account parsed own i is h in
    let mid = p.0 in
    let whole : with_inputs db mid.pending_spend_inputs ≡ mid =
      claim_inputs-with_inputs account parsed (i ∷ is) db mid p.1 in
    All-map (IsClaimed account parsed mid) (Holds db' account parsed) (i ∷ is)
      (λ j c.
        subst (λ d. Holds d account parsed j) p.2
          (record_pending_tx-active mid account parsed _ account j
            ∙ view-eq mid account j (claim account parsed j) c (
                subst (λ d. is_active d (claim account parsed j) ≡ true) whole
                  (is_in_time-is_active db account parsed j t))))
      (claim_inputs-IsClaimed account parsed (i ∷ is) db mid p.1)

-- What a reservation that succeeds holds.
pub reserve_parsed_transaction-Holds :
    (db db' : Db) (account : ℕ) (parsed : ParsedTransaction) (own : OwnInputs) (owned : List Blob)
    → validate_owned_inputs db account parsed ≡ ok owned
    → reserve_parsed_transaction db account parsed own ≡ ok db'
    → All (Holds db' account parsed) owned
reserve_parsed_transaction-Holds db db' account parsed own owned e h =
    let p = reserve-parts db db' account parsed own h in
    let same : p.1 ≡ owned = ok-inj (sym p.2 ∙ e) in
    subst (λ xs. All (Holds db' account parsed) xs) same
      (reserve_owned-Holds db db' account parsed own p.1 p.0 p.3)
