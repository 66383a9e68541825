-- ===== src/Pay/Solve/Answers.antt =====
-- The selection answers: with pools and assets in range it neither panics nor runs out of fuel.
use zcash_sdk_kmp.Base.{
  ℕ, zero, suc, ◌≤◌, ◌≡◌, refl, subst, inl, inr, Bool, not, ◌||◌, Option, some, none, List, [], ◌∷◌,
  ◌++◌, get_elem?, leb, ◌==◌, arith, All, Bool-cases,
}
use zcash_sdk_kmp.Base.Partial.{◌>>=◌, >>=-eq-some, Gives, Gives-eq}
use zcash_sdk_kmp.Pay.PerPool.{PerPool, filled, modify}
use zcash_sdk_kmp.Pay.Solve.{Note, Output, Selection, Context}
use zcash_sdk_kmp.Pay.Solve.Gather.{without_dust, Request, context_of}
use zcash_sdk_kmp.Pay.Solve.Select.{
  Found, Search, baseline, branch_and_bound, inputs_of, indices_of, build_selection, solve,
  select_notes,
}
use zcash_sdk_kmp.Pay.Solve.Winner.{IsFound, baseline-IsFound}
use zcash_sdk_kmp.Pay.Solve.Loop.{Inv, branch_and_bound-Inv}
use zcash_sdk_kmp.Pay.Solve.Total.{Ok, Ok-bind, modify-Ok, InRange}
use zcash_sdk_kmp.Pay.Solve.Rounds.{Ok-refine, baseline-Ok, branch_and_bound-Ok}
use zcash_sdk_kmp.Pay.Solve.Gathered.{IsSpendable, context_of-Ok}

get_elem?-All :
    (P : Note → Type 0) (ns : List Note) (i : ℕ) (n : Note)
    → All P ns
    → get_elem? ns i ≡ some n
    → P n
get_elem?-All P [] i n v e = ground arith
get_elem?-All P (x ∷ xs) zero n v e = let whole : x ≡ n = cc in subst P whole v.0
get_elem?-All P (x ∷ xs) (suc i) n v e = get_elem?-All P xs i n v.1 e

inputs_of-All :
    (ctx : Context) (positions : List ℕ) (ns : List Note)
    → All (InRange ctx) ctx.notes
    → inputs_of ctx positions ≡ some ns
    → All (InRange ctx) ns
unfolding inputs_of
inputs_of-All ctx [] ns v e = let whole : [] ≡ ns = cc in subst (All (InRange ctx)) whole tt
inputs_of-All ctx (i ∷ more) ns v e =
    let (n, at_i, e') = >>=-eq-some (get_elem? ctx.notes i) _ e in
    let (rest, later, e'') = >>=-eq-some (inputs_of ctx more) _ e' in
    let whole : (n ∷ rest) ≡ ns = cc in
    subst (All (InRange ctx)) whole
      (get_elem?-All (InRange ctx) ctx.notes i n v at_i, inputs_of-All ctx more rest v later)

indices_of-Ok :
    (ctx : Context) (ns : List Note) (indices : PerPool (List ℕ))
    → All (InRange ctx) ns
    → Ok (λ _. Unit {0}) (indices_of ns indices)
indices_of-Ok ctx [] indices v = tt
indices_of-Ok ctx (n ∷ ns) indices v =
    Ok-bind (λ _. Unit {0}) (λ _. Unit {0}) (modify (λ l. l ++ n.pool_index ∷ []) indices n.pool)
      (indices_of ns) (modify-Ok (λ l. l ++ n.pool_index ∷ []) indices n.pool v.0.0)
      (λ indices' _. indices_of-Ok ctx ns indices' v.1)

build_selection-Ok :
    (ctx : Context) (s : Search)
    → All (InRange ctx) ctx.notes
    → Inv ctx s
    → Ok (λ _. Unit {0}) (build_selection ctx s)
unfolding build_selection
build_selection-Ok ctx s range v =
    let reached = v.best.reached in
    rw reached.picked (
      Ok-bind (λ _. Unit {0}) (λ _. Unit {0}) (indices_of reached.notes (filled [])) _
        (indices_of-Ok ctx reached.notes (filled [])
          (inputs_of-All ctx s.best_state.selected reached.notes range reached.picked))
        (λ indices _. tt))

solve-Ok :
    (late : ℕ → Bool) (ctx : Context)
    → All (InRange ctx) ctx.notes
    → Ok (λ _. Unit {0}) (solve late ctx)
unfolding solve
solve-Ok late ctx range =
    Ok-bind (Gives (IsFound ctx)) (λ _. Unit {0}) (baseline ctx) _
      (Ok-refine (λ _. Unit {0}) (Gives (IsFound ctx)) (baseline ctx) (baseline-Ok ctx range)
        (λ found e. Gives-eq (Gives (IsFound ctx)) (baseline ctx) found (baseline-IsFound ctx) e))
      by_found
  where
    by_found :
        (found : Option Found)
        → Gives (IsFound ctx) found
        → Ok
            (λ _. Unit {0})
            (elim found [
              | none ↦ some none
              | some first ↦
                  branch_and_bound late ctx first
                  >>= (λ s. build_selection ctx s >>= (λ selection. some (some selection)))
            ])
    by_found none f = tt
    by_found (some first) f =
        Ok-bind (Inv ctx) (λ _. Unit {0}) (branch_and_bound late ctx first) _
          (Ok-refine (λ _. Unit {0}) (Inv ctx) (branch_and_bound late ctx first)
            (branch_and_bound-Ok ctx range late first)
            (λ s e.
              Gives-eq (Inv ctx) (branch_and_bound late ctx first) s
                (branch_and_bound-Inv ctx late first f) e))
          (λ s v.
            Ok-bind (λ _. Unit {0}) (λ _. Unit {0}) (build_selection ctx s) _
              (build_selection-Ok ctx s range v) (λ sel _. tt))

without_dust-All :
    (P : Note → Type 0) (f_unit : ℕ) (ns : List Note) → All P ns → All P (without_dust f_unit ns)
without_dust-All P f_unit [] v = tt
without_dust-All P f_unit (n ∷ ns) v =
    elim (Bool-cases (not (n.asset_index == 0) || leb f_unit n.amount)) [
      | inl kept ↦ rw kept (v.0, without_dust-All P f_unit ns v.1)
      | inr dust ↦ rw dust (without_dust-All P f_unit ns v.1)
    ]

answer_of : {A : Type 0} (m : Option A) → Ok (λ _. Unit {0}) m → (a : A) × (m ≡ some a)
answer_of none v = absurd v
answer_of (some a) v = (a, refl)

-- Whatever the clock does, the selection answers, with a selection or with none, when the assets of
-- the outputs are at most 254, the pools of the notes below four and their assets at most the
-- largest of the outputs: no index is out of range and the rounds of the search are enough.
pub select_notes_answers :
    (late : ℕ → Bool) (notes : List Note) (outputs : List Output) (q : Request)
    → All (λ o. o.asset_index ≤ 254) outputs
    → All (IsSpendable outputs) notes
    → (answer : Option Selection) × (select_notes late notes outputs q ≡ some answer)
unfolding select_notes
select_notes_answers late notes outputs q vo vn = answer_of (select_notes late notes outputs q) (
    by_notes (without_dust q.f_unit notes)
      (without_dust-All (IsSpendable outputs) q.f_unit notes vn))
  where
    by_notes :
        (ns : List Note)
        → All (IsSpendable outputs) ns
        → Ok
            (λ _. Unit {0})
            (elim ns [
              | [] ↦ some none
              | n ∷ ns ↦ context_of (n ∷ ns) outputs q >>= (λ ctx. solve late ctx)
            ])
    by_notes [] v = tt
    by_notes (n ∷ ns) v =
        Ok-bind (λ ctx. All (InRange ctx) ctx.notes) (λ _. Unit {0}) (context_of (n ∷ ns) outputs q)
          _ (context_of-Ok (n ∷ ns) outputs q vo v) (λ ctx range. solve-Ok late ctx range)
