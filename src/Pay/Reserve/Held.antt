-- ===== src/Pay/Reserve/Held.antt =====
-- The claims of a transaction: what they hold at the end, and what they leave to others.
use zcash_sdk_kmp.Base.{
  ℕ, ◌≡◌, refl, sym, ap, ◌∙◌, subst, true, false, Option, none, some, List, [], ◌∷◌, ◌==◌, ◌||◌,
  inl, inr, Bool-cases, arith, ltb, list_eq, All,
}
use zcash_sdk_kmp.Base.Results.{ok, >>=-eq-ok, ok-inj}
use zcash_sdk_kmp.Store.{
  Blob, PendingSpendRow, Db, has_key, find, is_active, active_pending_spend_input, get_sync_height,
  coalesce,
}
use zcash_sdk_kmp.Pay.Reserve.{
  ParsedTransaction, claim, with_inputs, claim_input, claim_inputs, is_in_time,
}
use zcash_sdk_kmp.Pay.Reserve.Claims.{
  has_key→eq, view-parts, view-eq, claim_input-claimed, claim_input-other, claim_input-with_inputs,
  claim_input-held,
}

module _ (account : ℕ) (parsed : ParsedTransaction) where
  -- A row that another transaction holds stays as it is.
  abbrev pub Keeps : Db → Db → Type 0
  Keeps db db' =
      (a : ℕ) (n : Blob) (r : PendingSpendRow)
      → active_pending_spend_input db a n ≡ some r
      → list_eq r.owner_txid parsed.txid ≡ false
      → active_pending_spend_input db' a n ≡ some r

  pub claim_input-Keeps :
      (db db' : Db) (input : Blob) → claim_input db account parsed input ≡ ok db' → Keeps db db'
  claim_input-Keeps db db' input h a n r v other =
      elim (Bool-cases (has_key a n (claim account parsed input))) [
        | inl t ↦
            let k = has_key→eq a n (claim account parsed input) t in
            let own = claim_input-held account parsed db db' input r h (rw (k.0, k.1) v) in
            let stuck : true ≡ false = sym own ∙ other in cc
        | inr f ↦
            let p = view-parts db a n r v in
            let active : is_active db' r ≡ true =
              subst (λ d. is_active d r ≡ true)
                (claim_input-with_inputs account parsed db db' input h) p.1 in
            view-eq db' a n r (claim_input-other account parsed db db' input a n h f ∙ p.0) active
      ]

  pub claim_inputs-Keeps :
      (inputs : List Blob) (db db' : Db)
      → claim_inputs db account parsed inputs ≡ ok db'
      → Keeps db db'
  unfolding claim_inputs
  claim_inputs-Keeps [] db db' h a n r v other =
      subst (λ d. active_pending_spend_input d a n ≡ some r) (ok-inj h) v
  claim_inputs-Keeps (i ∷ is) db db' h a n r v other =
      let p = >>=-eq-ok (claim_input db account parsed i) _ h in
      claim_inputs-Keeps is p.0 db' p.2 a n r (claim_input-Keeps db p.0 i p.1 a n r v other) other

  -- Claims leave the other tables.
  pub claim_inputs-with_inputs :
      (inputs : List Blob) (db db' : Db)
      → claim_inputs db account parsed inputs ≡ ok db'
      → with_inputs db db'.pending_spend_inputs ≡ db'
  unfolding claim_inputs
  claim_inputs-with_inputs [] db db' h =
      subst (λ d. with_inputs db d.pending_spend_inputs ≡ d) (ok-inj h) refl
  claim_inputs-with_inputs (i ∷ is) db db' h =
      let p = >>=-eq-ok (claim_input db account parsed i) _ h in
      let now : with_inputs db p.0.pending_spend_inputs ≡ p.0 =
        claim_input-with_inputs account parsed db p.0 i p.1 in
      ap (λ d. with_inputs d db'.pending_spend_inputs) now ∙ claim_inputs-with_inputs is p.0 db' p.2

  -- The key has the transaction's row.
  abbrev pub IsClaimed : Db → Blob → Type 0
  IsClaimed db input =
      find account input db.pending_spend_inputs ≡ some (claim account parsed input)

  claim_input-keeps_IsClaimed :
      (db db' : Db) (j i : Blob)
      → claim_input db account parsed j ≡ ok db'
      → IsClaimed db i
      → IsClaimed db' i
  claim_input-keeps_IsClaimed db db' j i h c =
      elim (Bool-cases (has_key account i (claim account parsed j))) [
        | inl t ↦
            let k = has_key→eq account i (claim account parsed j) t in
            subst (IsClaimed db') k.1 (claim_input-claimed account parsed db db' j h)
        | inr f ↦ claim_input-other account parsed db db' j account i h f ∙ c
      ]

  claim_inputs-keeps_IsClaimed :
      (js : List Blob) (db db' : Db) (i : Blob)
      → claim_inputs db account parsed js ≡ ok db'
      → IsClaimed db i
      → IsClaimed db' i
  unfolding claim_inputs
  claim_inputs-keeps_IsClaimed [] db db' i h c = subst (λ d. IsClaimed d i) (ok-inj h) c
  claim_inputs-keeps_IsClaimed (j ∷ js) db db' i h c =
      let p = >>=-eq-ok (claim_input db account parsed j) _ h in
      claim_inputs-keeps_IsClaimed js p.0 db' i p.2 (claim_input-keeps_IsClaimed db p.0 j i p.1 c)

  pub claim_inputs-IsClaimed :
      (inputs : List Blob) (db db' : Db)
      → claim_inputs db account parsed inputs ≡ ok db'
      → All (IsClaimed db') inputs
  unfolding claim_inputs
  claim_inputs-IsClaimed [] db db' h = tt
  claim_inputs-IsClaimed (i ∷ is) db db' h =
      let p = >>=-eq-ok (claim_input db account parsed i) _ h in
      (
        claim_inputs-keeps_IsClaimed is p.0 db' i p.2
            (claim_input-claimed account parsed db p.0 i p.1),
        claim_inputs-IsClaimed is p.0 db' p.2,
      )

-- A claim in time is active.
pub is_in_time-is_active :
    (db : Db) (account : ℕ) (parsed : ParsedTransaction) (input : Blob)
    → is_in_time (get_sync_height db account) parsed ≡ true
    → is_active db (claim account parsed input) ≡ true
is_in_time-is_active db account parsed input h = go (get_sync_height db account) h
  where
    go :
        (o : Option ℕ)
        → is_in_time o parsed ≡ true
        → (parsed.expiry_height == 0 || ltb (coalesce o) parsed.expiry_height) ≡ true
    go none h = ground arith
    go (some k) h = h
