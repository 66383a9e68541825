-- ===== src/Pay/Solve/Gathered.antt =====
-- The context of a search is given, with every note in range, when the assets fit a byte.
use zcash_sdk_kmp.Base.{
  wrapping_add, ℕ, ◌+◌, ◌%◌, ◌^◌, ◌≤◌, ◌<◌, ◌≡◌, refl, ◌∙◌, inl, inr, some, List, [], ◌∷◌, length,
  replicate, leb, ◌==◌, if◌then◌else◌, u64_max, saturating_add, arith, All, Bool-cases,
  length-replicate,
}
use zcash_sdk_kmp.Pay.PerPool.{filled, modify}
use zcash_sdk_kmp.Pay.Solve.{Note, Output}
use zcash_sdk_kmp.Pay.Solve.Search.{modify_at, one_more}
use zcash_sdk_kmp.Pay.Solve.Gather.{
  max_asset, Totals, add_to_pool, add_outputs, preferred, Request, context_of,
}
use zcash_sdk_kmp.Pay.Solve.Ranked.{sort_by-All}
use zcash_sdk_kmp.Pay.Solve.Total.{Ok, Ok-bind, modify_at-Ok, modify-Ok, InRange}

-- Both vectors of the totals have k entries.
abbrev HasEntries : ℕ → Totals → Type 0
HasEntries k t = (length t.asset_output_amounts ≡ k) × (length t.orchard_asset_outputs ≡ k)

orchard_counts-Ok :
    (o : Output) (counts : List ℕ)
    → o.asset_index < length counts
    → Ok
        (λ ys. length ys ≡ length counts)
        (if o.pool == 2 then modify_at one_more counts o.asset_index else some counts)
orchard_counts-Ok o counts h = elim (Bool-cases (o.pool == 2)) [
  | inl here ↦ rw here (modify_at-Ok one_more counts o.asset_index h)
  | inr there ↦ rw there refl
]

add_to_pool-Ok :
    (k : ℕ) (o : Output) (t : Totals)
    → o.asset_index < k
    → HasEntries k t
    → Ok (HasEntries k) (add_to_pool o t)
unfolding add_to_pool
add_to_pool-Ok k o t h v = elim (Bool-cases (leb 4 o.pool)) [
  | inl out ↦ rw out v
  | inr here ↦
      let four : o.pool < 4 = ground arith in
      rw here (
        Ok-bind (λ _. Unit {0}) (HasEntries k)
          (modify (λ a. saturating_add u64_max a o.amount) t.output_amounts o.pool) _
          (modify-Ok (λ a. saturating_add u64_max a o.amount) t.output_amounts o.pool four)
          (λ amounts _.
            Ok-bind (λ _. Unit {0}) (HasEntries k) (modify one_more t.n_outputs o.pool) _
              (modify-Ok one_more t.n_outputs o.pool four)
              (λ counts _.
                Ok-bind (λ ys. length ys ≡ length t.orchard_asset_outputs) (HasEntries k)
                  (if o.pool == 2
                    then modify_at one_more t.orchard_asset_outputs o.asset_index
                    else some t.orchard_asset_outputs)
                  _ (orchard_counts-Ok o t.orchard_asset_outputs (omega (arith, v.1)))
                  (λ orchard e. (v.0, e ∙ v.1)))))
]

add_outputs-Ok :
    (k : ℕ) (os : List Output) (t : Totals)
    → All (λ o. o.asset_index < k) os
    → HasEntries k t
    → Ok (HasEntries k) (add_outputs os t)
unfolding add_outputs
add_outputs-Ok k [] t h v = v
add_outputs-Ok k (o ∷ os) t h v =
    Ok-bind (HasEntries k) (HasEntries k) (add_to_pool o t) _ (add_to_pool-Ok k o t h.0 v) (λ t' v'.
      Ok-bind (λ ys. length ys ≡ length t'.asset_output_amounts) (HasEntries k)
        (modify_at (λ a. wrapping_add a o.amount) t'.asset_output_amounts o.asset_index) _
        (modify_at-Ok (λ a. wrapping_add a o.amount) t'.asset_output_amounts o.asset_index
          (omega (arith, h.0, v'.0)))
        (λ amounts e.
          add_outputs-Ok k os (record t' { asset_output_amounts = amounts }) h.1 (e ∙ v'.0, v'.1)))

-- The assets of the outputs are among those counted.
assets-counted :
    (os : List Output)
    → All (λ o. o.asset_index ≤ 254) os
    → (max_asset os ≤ 254) × ((k : ℕ) → max_asset os < k → All (λ o. o.asset_index < k) os)
assets-counted [] v = (omega arith, λ k h. tt)
assets-counted (o ∷ os) v =
    let rest = assets-counted os v.1 in
    (omega (arith, rest.0, v.0), λ k h. (omega (arith, h), rest.1 k (omega (arith, h))))

-- What the caller makes sure of.
abbrev pub IsSpendable : List Output → Note → Type 0
IsSpendable outputs n = (n.pool < 4) × (n.asset_index ≤ max_asset outputs)

spendable-InRange :
    (k : ℕ) (outputs : List Output) (ns : List Note)
    → max_asset outputs < k
    → All (IsSpendable outputs) ns
    → All (λ n. (n.pool < 4) × (n.asset_index < k)) ns
spendable-InRange k outputs [] h v = tt
spendable-InRange k outputs (n ∷ ns) h v =
    ((v.0.0, omega (arith, v.0.1, h)), spendable-InRange k outputs ns h v.1)

pub context_of-Ok :
    (notes : List Note) (outputs : List Output) (q : Request)
    → All (λ o. o.asset_index ≤ 254) outputs
    → All (IsSpendable outputs) notes
    → Ok (λ ctx. All (InRange ctx) ctx.notes) (context_of notes outputs q)
unfolding context_of
context_of-Ok notes outputs q vo vn =
    let n_assets = (max_asset outputs + 1) % 2 ^ 8 in
    let counted = assets-counted outputs vo in
    let enough : max_asset outputs < n_assets = omega (arith, counted.0) in
    let start : Totals = record {
      output_amounts = filled 0;
      n_outputs = filled 0;
      asset_output_amounts = replicate n_assets 0;
      orchard_asset_outputs = replicate n_assets 0;
    } in
    Ok-bind (HasEntries n_assets) (λ ctx. All (InRange ctx) ctx.notes) (add_outputs outputs start) _
      (add_outputs-Ok n_assets outputs start (counted.1 n_assets enough)
        (length-replicate n_assets 0, length-replicate n_assets 0))
      (λ t v.
        sort_by-All (λ n. (n.pool < 4) × (n.asset_index < n_assets)) preferred notes
          (spendable-InRange n_assets outputs notes enough vn))
