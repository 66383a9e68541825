-- ===== src/Pay/Solve/Funded.antt =====
-- A selection pays for what was asked.
use zcash_sdk_kmp.Base.{
  ℕ, suc, subst, get_elem?, ◌≤◌, ◌≡◌, sym, ◌∙◌, Bool, true, Option, some, none, List, [], ◌∷◌,
  if◌then◌else◌, u64_max, saturating_add, arith,
}
use zcash_sdk_kmp.Base.Partial.{◌>>=◌, >>=-eq-some, Gives, gives, Gives-bind, Gives-eq}
use zcash_sdk_kmp.Pay.PerPool.{filled}
use zcash_sdk_kmp.Pay.Solve.{Note, Output, Selection, Context, fee_for_change_pool}
use zcash_sdk_kmp.Pay.Solve.Search.{sort_by}
use zcash_sdk_kmp.Pay.Solve.Select.{
  Found, Search, baseline, branch_and_bound, inputs_of, indices_of, build_selection, solve,
  select_notes,
}
use zcash_sdk_kmp.Pay.Solve.Gather.{without_dust, preferred, Request, context_of}
use zcash_sdk_kmp.Pay.Solve.Covered.{is_feasible-entry}
use zcash_sdk_kmp.Pay.Solve.Asked.{asked, IsContext, context_of-IsContext, zec_needed-asked}
use zcash_sdk_kmp.Pay.Solve.Reached.{given}
use zcash_sdk_kmp.Pay.Solve.Distinct.{Distinct}
use zcash_sdk_kmp.Pay.Solve.Winner.{IsFound, baseline-IsFound}
use zcash_sdk_kmp.Pay.Solve.Loop.{Inv, branch_and_bound-Inv}

-- The notes without the dust, in the order in which they are considered.
abbrev pub candidates : List Note → Request → List Note
candidates notes q = sort_by preferred (without_dust q.f_unit notes)

-- The inputs are the notes at the positions.
abbrev pub Picks : List Note → List ℕ → List Note → Type 0
Picks notes [] [] = Unit
Picks notes (i ∷ more) (n ∷ ns) = (get_elem? notes i ≡ some n) × Picks notes more ns
Picks notes _ _ = ⊥

-- The inputs are notes at distinct positions of the candidates. They hold the ZEC that was asked for
-- and the fee, unless the recipient pays it and can; of each other asset they hold what was asked
-- for.
pub record IsFunded (considered : List Note) (outputs : List Output) (q : Request) (sel : Selection)
    : Type 0 where
  pub positions : List ℕ
  pub distinct : Distinct positions
  pub picked : Picks considered positions sel.inputs
  pub zec :
      (if q.recipient_pays_fee
        then asked 0 outputs
        else saturating_add u64_max (asked 0 outputs) sel.fee)
      ≤ given 0 sel.inputs
  pub zsa : (i : ℕ) → asked (suc i) outputs ≤ given (suc i) sel.inputs
  pub recipient : q.recipient_pays_fee ≡ true → sel.fee ≤ q.first_recipient_amount

inputs_of-Picks :
    (ctx : Context) (positions : List ℕ) (notes : List Note)
    → inputs_of ctx positions ≡ some notes
    → Picks ctx.notes positions notes
unfolding inputs_of
inputs_of-Picks ctx [] notes e = let whole : [] ≡ notes = cc in subst (Picks ctx.notes []) whole tt
inputs_of-Picks ctx (i ∷ more) notes e =
    let (n, at_i, e') = >>=-eq-some (get_elem? ctx.notes i) _ e in
    let (ns, later, e'') = >>=-eq-some (inputs_of ctx more) _ e' in
    let whole : (n ∷ ns) ≡ notes = cc in
    subst (Picks ctx.notes (i ∷ more)) whole (at_i, inputs_of-Picks ctx more ns later)

build_selection-IsFunded :
    (considered : List Note) (ctx : Context) (outputs : List Output) (q : Request) (s : Search)
    → IsContext considered outputs q ctx
    → Inv ctx s
    → Gives (IsFunded considered outputs q) (build_selection ctx s)
unfolding build_selection
build_selection-IsFunded considered ctx outputs q s c v =
    let reached = v.best.reached in
    let covered =
      is_feasible-entry ctx s.best_state (fee_for_change_pool s.best_state ctx s.best_pool)
        (reached.size ∙ sym c.size) v.best.payable.feasible in
    rw (reached.picked) (
      Gives-bind (λ _. Unit {0}) (IsFunded considered outputs q)
        (indices_of reached.notes (filled [])) _ (gives (λ _. Unit {0}) _ (λ a e. tt))
        (λ indices _. record {
          positions = s.best_state.selected;
          distinct = reached.distinct;
          picked =
              subst (λ notes. Picks notes s.best_state.selected reached.notes) c.notes
                (inputs_of-Picks ctx s.best_state.selected reached.notes reached.picked);
          zec = rw v.fee (
              omega (
                arith,
                zec_needed-asked considered ctx outputs q c
                    (fee_for_change_pool s.best_state ctx s.best_pool),
                covered.0,
                reached.sums 0,
              ));
          zsa = λ i. omega (arith, c.amounts (suc i), covered.1 i, reached.sums (suc i));
          recipient = λ pays. rw (v.fee, ← c.first) (v.best.payable.recipient (c.pays ∙ pays));
        }))

solve-IsFunded :
    (late : ℕ → Bool) (considered : List Note) (ctx : Context) (outputs : List Output) (q : Request)
    → IsContext considered outputs q ctx
    → Gives (Gives (IsFunded considered outputs q)) (solve late ctx)
unfolding solve
solve-IsFunded late considered ctx outputs q c =
    Gives-bind (Gives (IsFound ctx)) (Gives (IsFunded considered outputs q)) (baseline ctx) _
      (baseline-IsFound ctx) by_found
  where
    by_found :
        (found : Option Found)
        → Gives (IsFound ctx) found
        → Gives (Gives (IsFunded considered outputs q)) (elim found [
          | none ↦ some none
          | some first ↦
              branch_and_bound late ctx first
              >>= (λ s. build_selection ctx s >>= (λ selection. some (some selection)))
        ])
    by_found none f = tt
    by_found (some first) f =
        Gives-bind (Inv ctx) (Gives (IsFunded considered outputs q))
          (branch_and_bound late ctx first) _ (branch_and_bound-Inv ctx late first f)
          (λ s v.
            Gives-bind (IsFunded considered outputs q) (Gives (IsFunded considered outputs q))
              (build_selection ctx s) _ (build_selection-IsFunded considered ctx outputs q s c v)
              (λ sel w. w))

-- Where what the outputs ask for of each asset fits a u64, and whatever the clock does, the inputs of
-- a selection that is returned are notes at distinct positions of the notes without the dust. They hold, in the sums of their amounts, the ZEC
-- that the outputs ask for and the fee, unless the recipient pays the fee, which is then at most the
-- first recipient's amount; of each other asset it holds what the outputs ask for.
pub select_notes-IsFunded :
    (late : ℕ → Bool) (notes : List Note) (outputs : List Output) (q : Request) (sel : Selection)
    → ((asset : ℕ) → asked asset outputs ≤ u64_max)
    → select_notes late notes outputs q ≡ some (some sel)
    → IsFunded (candidates notes q) outputs q sel
unfolding select_notes
select_notes-IsFunded late notes outputs q sel fits e =
    Gives-eq (Gives (IsFunded (candidates notes q) outputs q)) (select_notes late notes outputs q)
      (some sel) (by_notes (without_dust q.f_unit notes)) e
  where
    by_notes :
        (ns : List Note)
        → Gives (Gives (IsFunded (sort_by preferred ns) outputs q)) (elim ns [
          | [] ↦ some none
          | n ∷ ns ↦ context_of (n ∷ ns) outputs q >>= (λ ctx. solve late ctx)
        ])
    by_notes [] = tt
    by_notes (n ∷ ns) =
        Gives-bind (IsContext (sort_by preferred (n ∷ ns)) outputs q)
          (Gives (IsFunded (sort_by preferred (n ∷ ns)) outputs q)) (context_of (n ∷ ns) outputs q)
          _ (context_of-IsContext (n ∷ ns) outputs q fits)
          (λ ctx c. solve-IsFunded late (sort_by preferred (n ∷ ns)) ctx outputs q c)
