-- ===== src/Pay/Solve/Asked.antt =====
-- The context of a search holds what the outputs ask for.
use zcash_sdk_kmp.Base.{
  wrapping_add, IsSum, ◌≤◌, ℕ, zero, suc, ◌+◌, ◌%◌, ◌^◌, ◌≡◌, refl, ap, ◌∙◌, inl, inr, some, List,
  [], ◌∷◌, length, replicate, leb, ◌==◌, if◌then◌else◌, u64_max, saturating_add, arith, Bool-cases,
  length-replicate,
}
use zcash_sdk_kmp.Base.Partial.{Gives, gives, Gives-bind, Gives-eq}
use zcash_sdk_kmp.Pay.PerPool.{filled, modify}
use zcash_sdk_kmp.Pay.Solve.{Note, Output, Context, zec_of, zec_needed}
use zcash_sdk_kmp.Pay.Solve.Search.{modify_at, one_more, sort_by}
use zcash_sdk_kmp.Pay.Solve.Gather.{
  max_asset, Totals, add_to_pool, add_outputs, preferred, Request, context_of,
}
use zcash_sdk_kmp.Pay.Solve.Covered.{entry}
use zcash_sdk_kmp.Pay.Solve.Reached.{modify_at-entry}

-- The value of the outputs of an asset.
abbrev pub asked : ℕ → List Output → ℕ
asked asset [] = 0
asked asset (o ∷ os) = (if o.asset_index == asset then o.amount else 0) + asked asset os

-- The totals count what was asked, unless a sum wraps.
abbrev pub Counts : Totals → List Output → Totals → Type 0
Counts t os t' =
    (length t'.asset_output_amounts ≡ length t.asset_output_amounts)
    × ((i : ℕ)
        → IsSum (entry t'.asset_output_amounts i) (entry t.asset_output_amounts i + asked i os))

add_to_pool-same :
    (o : Output) (t : Totals)
    → Gives (λ (t' : Totals). t'.asset_output_amounts ≡ t.asset_output_amounts) (add_to_pool o t)
unfolding add_to_pool
add_to_pool-same o t = elim (Bool-cases (leb 4 o.pool)) [
  | inl out ↦ rw out refl
  | inr here ↦ rw here (
      Gives-bind (λ _. Unit {0}) (λ (t' : Totals). t'.asset_output_amounts ≡ t.asset_output_amounts)
        (modify (λ a. saturating_add u64_max a o.amount) t.output_amounts o.pool) _
        (gives (λ _. Unit {0}) _ (λ a e. tt))
        (λ amounts _.
          Gives-bind (λ _. Unit {0})
            (λ (t' : Totals). t'.asset_output_amounts ≡ t.asset_output_amounts)
            (modify one_more t.n_outputs o.pool) _ (gives (λ _. Unit {0}) _ (λ a e. tt))
            (λ counts _.
              Gives-bind (λ _. Unit {0})
                (λ (t' : Totals). t'.asset_output_amounts ≡ t.asset_output_amounts)
                (if o.pool == 2
                  then modify_at one_more t.orchard_asset_outputs o.asset_index
                  else some t.orchard_asset_outputs)
                _ (gives (λ _. Unit {0}) _ (λ a e. tt)) (λ orchard _. refl))))
]

IsSum-step :
    (later grown here before amount more : ℕ)
    → IsSum later (grown + more)
    → IsSum grown (here + amount)
    → here ≡ before
    → IsSum later (before + (amount + more))
IsSum-step later grown here before amount more l g e = (
  omega (arith, l.0, g.0, e),
  λ h. let a = g.1 (omega (arith, h, e)) in omega (arith, l.1 (omega (arith, a, h, e)), a, e),
)

add_outputs-Counts : (os : List Output) (t : Totals) → Gives (Counts t os) (add_outputs os t)
unfolding add_outputs
add_outputs-Counts [] t = (refl, λ i. (omega arith, λ h. omega arith))
add_outputs-Counts (o ∷ os) t =
    Gives-bind (λ (t' : Totals). t'.asset_output_amounts ≡ t.asset_output_amounts)
      (Counts t (o ∷ os)) (add_to_pool o t) _ (add_to_pool-same o t)
      (λ t' same.
        Gives-bind
          (λ amounts.
            modify_at (λ a. wrapping_add a o.amount) t'.asset_output_amounts o.asset_index
            ≡ some amounts)
          (Counts t (o ∷ os))
          (modify_at (λ a. wrapping_add a o.amount) t'.asset_output_amounts o.asset_index) _
          (gives _ _ (λ amounts e. e))
          (λ amounts e.
            let grown = modify_at-entry o.amount o.asset_index t'.asset_output_amounts amounts e in
            gives (Counts t (o ∷ os))
              (add_outputs os (record t' { asset_output_amounts = amounts }))
              (λ t'' e'.
                let later =
                  Gives-eq (Counts (record t' { asset_output_amounts = amounts }) os) _ t''
                    (add_outputs-Counts os (record t' { asset_output_amounts = amounts })) e' in
                (
                  later.0 ∙ grown.0 ∙ ap length same,
                  λ i.
                      IsSum-step (entry t''.asset_output_amounts i) (entry amounts i)
                        (entry t'.asset_output_amounts i) (entry t.asset_output_amounts i)
                        (if o.asset_index == i then o.amount else 0) (asked i os) (later.1 i)
                        (grown.1 i) (ap (λ (xs : List ℕ). entry xs i) same),
                ))))

-- What the context holds of the outputs and the request.
pub record IsContext (considered : List Note) (outputs : List Output) (q : Request) (ctx : Context)
    : Type 0 where
  pub notes : ctx.notes ≡ considered
  pub amounts : (i : ℕ) → entry ctx.asset_output_amounts i ≡ asked i outputs
  pub size : length ctx.asset_output_amounts ≡ ctx.n_assets
  pub pays : ctx.recipient_pays_fee ≡ q.recipient_pays_fee
  pub first : ctx.first_recipient_amount ≡ q.first_recipient_amount

entry-zeros : (n i : ℕ) → entry (replicate n 0) i ≡ 0
entry-zeros zero i = refl
entry-zeros (suc n) zero = refl
entry-zeros (suc n) (suc i) = entry-zeros n i

pub context_of-IsContext :
    (notes : List Note) (outputs : List Output) (q : Request)
    → ((asset : ℕ) → asked asset outputs ≤ u64_max)
    → Gives (IsContext (sort_by preferred notes) outputs q) (context_of notes outputs q)
unfolding context_of
context_of-IsContext notes outputs q fits =
    let n_assets = (max_asset outputs + 1) % 2 ^ 8 in
    let start : Totals = record {
      output_amounts = filled 0;
      n_outputs = filled 0;
      asset_output_amounts = replicate n_assets 0;
      orchard_asset_outputs = replicate n_assets 0;
    } in
    Gives-bind (Counts start outputs) (IsContext (sort_by preferred notes) outputs q)
      (add_outputs outputs start) _ (add_outputs-Counts outputs start)
      (λ t c. record {
        notes = refl;
        amounts = λ i.
            let exact = (c.1 i).1 (omega (arith, fits i, entry-zeros n_assets i)) in
            omega (arith, exact, entry-zeros n_assets i);
        size = c.0 ∙ length-replicate n_assets 0;
        pays = refl;
        first = refl;
      })

zec_of-entry : (xs : List ℕ) → zec_of xs ≡ entry xs 0
zec_of-entry [] = refl
zec_of-entry (x ∷ xs) = refl

pub zec_needed-asked :
    (considered : List Note) (ctx : Context) (outputs : List Output) (q : Request)
    → IsContext considered outputs q ctx
    → (fee : ℕ)
    → zec_needed ctx fee ≡ (
        if q.recipient_pays_fee
        then asked 0 outputs
        else saturating_add u64_max (asked 0 outputs) fee)
zec_needed-asked considered ctx outputs q c fee =
    rw (zec_of-entry ctx.asset_output_amounts, c.amounts 0, c.pays) refl
