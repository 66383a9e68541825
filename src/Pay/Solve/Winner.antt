-- ===== src/Pay/Solve/Winner.antt =====
-- The best state of the search is always one that was reached and is payable.
use zcash_sdk_kmp.Base.{
  ℕ, ◌≡◌, sym, subst, ◌++◌, inl, inr, false, Option, some, none, List, [], ◌∷◌, ◌==◌, if◌then◌else◌,
  u64_max, All, Bool-cases,
}
use zcash_sdk_kmp.Base.Partial.{◌>>=◌, Gives, gives, Gives-bind}
use zcash_sdk_kmp.Pay.Solve.{Note, State, Context, evaluate}
use zcash_sdk_kmp.Pay.Solve.Search.{numbered, sort_by, initial_state, apply}
use zcash_sdk_kmp.Pay.Solve.Select.{
  by_amount, Found, greedy_from, greedy_solution, apply_all, baseline, QueueItem, first_of, pop,
}
use zcash_sdk_kmp.Pay.Solve.Distinct.{IsQueue, IsQueue-rest, numbered-IsQueue, sort_by-IsQueue}
use zcash_sdk_kmp.Pay.Solve.Covered.{IsPayable, evaluate-IsPayable}
use zcash_sdk_kmp.Pay.Solve.Reached.{
  Reached, IsNote, IsCandidate, initial_state-Reached, apply-Reached, notes-IsNote,
}
use zcash_sdk_kmp.Pay.Solve.Ranked.{sort_by-All}

-- The item that is popped, and those that remain.
abbrev pub Popped : (QueueItem → Type 0) → QueueItem × List QueueItem → Type 0
Popped P popped = P popped.0 × All P popped.1

pub pop-All :
    (P : QueueItem → Type 0) (items : List QueueItem) → All P items → Gives (Popped P) (pop items)
pop-All P [] v = tt
pop-All P (x ∷ xs) v = by_rest (pop xs) (pop-All P xs v.1)
  where
    by_rest :
        (o : Option (QueueItem × List QueueItem))
        → Gives (Popped P) o
        → Gives (Popped P) (elim o [
          | none ↦ some (x, [])
          | some (y, ys) ↦ if first_of x y then some (x, xs) else some (y, x ∷ ys)
        ])
    by_rest none w = (v.0, tt)
    by_rest (some (y, ys)) w = elim (Bool-cases (first_of x y)) [
      | inl first ↦ rw first (v.0, v.1)
      | inr second ↦ rw second (w.0, (v.0, w.1))
    ]

module _ (ctx : Context) where
  -- A state that was found, and the pool of its change.
  pub record IsFound (found : Found) : Type 0 where
    pub reached : Reached ctx found.0
    pub payable : IsPayable ctx found.0 found.2

  -- What applying a note to a state leads to.
  abbrev pub Follows : State → ℕ → State → Type 0
  Follows st i st' = Reached ctx st' × (st'.selected ≡ st.selected ++ i ∷ [])

  pub apply-Follows :
      (st : State) (n : ℕ × Note)
      → Reached ctx st
      → IsCandidate ctx st.selected n
      → Gives (Follows st n.0) (apply st n.0 n.1)
  apply-Follows st n r h =
      gives (Follows st n.0) (apply st n.0 n.1) (λ st' e. apply-Reached ctx st n st' r h.0 h.1 e)

  pub evaluated-IsFound :
      (st : State)
      → Reached ctx st
      → ((evaluate st ctx).0 == u64_max) ≡ false
      → IsFound (st, (evaluate st ctx).0, (evaluate st ctx).1)
  evaluated-IsFound st r h = record { reached = r; payable = evaluate-IsPayable ctx st h }

  -- The queue after its first note was applied.
  rest-IsQueue :
      (st st' : State) (n : ℕ × Note) (ns : List (ℕ × Note))
      → IsQueue st.selected (n ∷ ns)
      → st'.selected ≡ st.selected ++ n.0 ∷ []
      → IsQueue st'.selected ns
  rest-IsQueue st st' n ns q e =
      subst (λ selected. IsQueue selected ns) (sym e) (IsQueue-rest st.selected n ns q)

  greedy_from-IsFound :
      (ns : List (ℕ × Note)) (st : State)
      → All (IsNote ctx) ns
      → IsQueue st.selected ns
      → Reached ctx st
      → Gives (Gives IsFound) (greedy_from ctx ns st)
  unfolding greedy_from
  greedy_from-IsFound [] st v q r = elim (Bool-cases ((evaluate st ctx).0 == u64_max)) [
    | inl dear ↦ rw dear tt
    | inr found ↦ rw found (evaluated-IsFound st r found)
  ]
  greedy_from-IsFound (n ∷ ns) st v q r = elim (Bool-cases ((evaluate st ctx).0 == u64_max)) [
    | inl dear ↦
        rw (greedy_from, dear)
          (Gives-bind (Follows st n.0) (Gives IsFound) (apply st n.0 n.1)
            (λ st'. greedy_from ctx ns st') (apply-Follows st n r (v.0, q.0.0))
            (λ st' f. greedy_from-IsFound ns st' v.1 (rest-IsQueue st st' n ns q f.1) f.0))
    | inr found ↦ rw (greedy_from, found) (evaluated-IsFound st r found)
  ]

  apply_all-Reached :
      (ns : List (ℕ × Note)) (st : State)
      → All (IsNote ctx) ns
      → IsQueue st.selected ns
      → Reached ctx st
      → Gives (Reached ctx) (apply_all ns st)
  unfolding apply_all
  apply_all-Reached [] st v q r = r
  apply_all-Reached (n ∷ ns) st v q r =
      Gives-bind (Follows st n.0) (Reached ctx) (apply st n.0 n.1) (λ st'. apply_all ns st')
        (apply-Follows st n r (v.0, q.0.0))
        (λ st' f. apply_all-Reached ns st' v.1 (rest-IsQueue st st' n ns q f.1) f.0)

  all-IsQueue : IsQueue (initial_state ctx).selected (numbered 0 ctx.notes)
  unfolding initial_state
  all-IsQueue = numbered-IsQueue ctx.notes

  greedy-IsQueue : IsQueue (initial_state ctx).selected (sort_by by_amount (numbered 0 ctx.notes))
  unfolding initial_state
  greedy-IsQueue = sort_by-IsQueue by_amount ctx.notes

  pub baseline-IsFound : Gives (Gives IsFound) (baseline ctx)
  unfolding baseline greedy_solution
  baseline-IsFound =
      Gives-bind (Gives IsFound) (Gives IsFound) (greedy_solution ctx) _
        (greedy_from-IsFound (sort_by by_amount (numbered 0 ctx.notes)) (initial_state ctx)
          (sort_by-All (IsNote ctx) by_amount (numbered 0 ctx.notes) (notes-IsNote ctx))
          greedy-IsQueue (initial_state-Reached ctx))
        (λ greedy v. by_greedy greedy v)
    where
      last : State → Option (Option Found)
      last st = some (
          if (evaluate st ctx).0 == u64_max
          then none
          else some (st, (evaluate st ctx).0, (evaluate st ctx).1))

      last-IsFound : (st : State) → Reached ctx st → Gives (Gives IsFound) (last st)
      last-IsFound st r = elim (Bool-cases ((evaluate st ctx).0 == u64_max)) [
        | inl dear ↦ rw (last, dear) tt
        | inr found ↦ rw (last, found) (evaluated-IsFound st r found)
      ]

      by_greedy :
          (greedy : Option Found)
          → Gives IsFound greedy
          → Gives (Gives IsFound) (elim greedy [
            | some found ↦ some (some found)
            | none ↦ apply_all (numbered 0 ctx.notes) (initial_state ctx) >>= (λ st. last st)
          ])
      by_greedy (some found) v = v
      by_greedy none v =
          Gives-bind (Reached ctx) (Gives IsFound)
            (apply_all (numbered 0 ctx.notes) (initial_state ctx)) (λ st. last st)
            (apply_all-Reached (numbered 0 ctx.notes) (initial_state ctx) (notes-IsNote ctx)
              all-IsQueue (initial_state-Reached ctx))
            last-IsFound
