-- ===== src/Pay/Solve/Rounds.antt =====
-- The baseline and the rounds of the search give something, when pools and assets are in range.
use zcash_sdk_kmp.Base.{
  ℕ, zero, suc, ◌+◌, ◌≤◌, ◌<◌, ◌≡◌, refl, inl, inr, Bool, true, false, not, ◌&&◌, ◌||◌, Option,
  some, none, List, [], ◌∷◌, ltb, ◌==◌, if◌then◌else◌, u64_max, saturating_add, arith, All,
  Bool-cases,
}
use zcash_sdk_kmp.Base.Partial.{◌>>=◌, Gives}
use zcash_sdk_kmp.Pay.Solve.{
  Note, State, Context, evaluate, bound_can_beat, is_better_solution, fee_for_change_pool, zec_of,
}
use zcash_sdk_kmp.Pay.Solve.Search.{
  numbered, sort_by, initial_state, apply, remaining_notes, lower_bound, top_k_by_local_heuristic,
  state_key,
}
use zcash_sdk_kmp.Pay.Solve.Select.{
  by_amount, Found, greedy_from, greedy_solution, apply_all, baseline, QueueItem, pop, Search,
  lookup, is_dominated, push_child, expand, improve, is_nil, max_amount, visit, max_nodes,
  beam_width, exceeded, search, start_heap, branch_and_bound,
}
use zcash_sdk_kmp.Pay.Solve.Ranked.{sort_by-All, top_k-All}
use zcash_sdk_kmp.Pay.Solve.Total.{
  Ok, Ok-bind, InRange, AreInRange, IsSized, apply-Ok, initial_state-IsSized, numbered-AreInRange,
  remaining_notes-AreInRange, lower_bound-Ok, top_k-Ok,
}
use zcash_sdk_kmp.Pay.Solve.Winner.{Popped, pop-All}

-- Something that is given has what every answer has.
pub Ok-refine {ℓ} :
    {A : Type ℓ} (P Q : A → Type 0) (m : Option A) → Ok P m → ((a : A) → m ≡ some a → Q a) → Ok Q m
Ok-refine P Q none v h = v
Ok-refine P Q (some a) v h = h a refl

module _ (ctx : Context) (range : All (InRange ctx) ctx.notes) where
  greedy_from-Ok :
      (ns : List (ℕ × Note)) (st : State)
      → AreInRange ctx ns
      → IsSized ctx st
      → Ok (λ _. Unit {0}) (greedy_from ctx ns st)
  unfolding greedy_from
  greedy_from-Ok [] st v s = tt
  greedy_from-Ok (n ∷ ns) st v s = elim (Bool-cases ((evaluate st ctx).0 == u64_max)) [
    | inl dear ↦
        rw (greedy_from, dear)
          (Ok-bind (IsSized ctx) (λ _. Unit {0}) (apply st n.0 n.1) (λ st'. greedy_from ctx ns st')
            (apply-Ok ctx st n.0 n.1 v.0 s) (λ st' s'. greedy_from-Ok ns st' v.1 s'))
    | inr found ↦ rw (greedy_from, found) tt
  ]

  apply_all-Ok :
      (ns : List (ℕ × Note)) (st : State)
      → AreInRange ctx ns
      → IsSized ctx st
      → Ok (λ _. Unit {0}) (apply_all ns st)
  unfolding apply_all
  apply_all-Ok [] st v s = tt
  apply_all-Ok (n ∷ ns) st v s =
      Ok-bind (IsSized ctx) (λ _. Unit {0}) (apply st n.0 n.1) (λ st'. apply_all ns st')
        (apply-Ok ctx st n.0 n.1 v.0 s) (λ st' s'. apply_all-Ok ns st' v.1 s')

  all-AreInRange : AreInRange ctx (numbered 0 ctx.notes)
  all-AreInRange = numbered-AreInRange ctx 0 ctx.notes range

  pub baseline-Ok : Ok (λ _. Unit {0}) (baseline ctx)
  unfolding baseline greedy_solution
  baseline-Ok =
      Ok-bind (λ _. Unit {0}) (λ _. Unit {0}) (greedy_solution ctx) _
        (greedy_from-Ok (sort_by by_amount (numbered 0 ctx.notes)) (initial_state ctx)
          (sort_by-All (λ n. InRange ctx n.1) by_amount (numbered 0 ctx.notes) all-AreInRange)
          (initial_state-IsSized ctx))
        (λ greedy _. by_greedy greedy)
    where
      last : State → Option (Option Found)
      last st = some (
          if (evaluate st ctx).0 == u64_max
          then none
          else some (st, (evaluate st ctx).0, (evaluate st ctx).1))

      by_greedy :
          (greedy : Option Found)
          → Ok
              (λ _. Unit {0})
              (elim greedy [
                | some found ↦ some (some found)
                | none ↦ apply_all (numbered 0 ctx.notes) (initial_state ctx) >>= (λ st. last st)
              ])
      by_greedy (some found) = tt
      by_greedy none =
          Ok-bind (λ _. Unit {0}) (λ _. Unit {0})
            (apply_all (numbered 0 ctx.notes) (initial_state ctx)) (λ st. last st)
            (apply_all-Ok (numbered 0 ctx.notes) (initial_state ctx) all-AreInRange
              (initial_state-IsSized ctx))
            (λ st _. tt)

  abbrev IsQueued : Search → Type 0
  IsQueued s = All (λ item. IsSized ctx item.state) s.heap

  push_child-IsQueued :
      (child : State) (bound : ℕ) (s : Search)
      → IsSized ctx child
      → IsQueued s
      → IsQueued (push_child child bound s)
  unfolding push_child
  push_child-IsQueued child bound s c v =
      elim (Bool-cases (not (bound_can_beat bound s.best_cost))) [
        | inl loses ↦ rw loses v
        | inr wins ↦
            rw wins (elim (Bool-cases (is_dominated (lookup (state_key child) s.seen) bound)) [
              | inl dominated ↦ rw dominated v
              | inr fresh ↦ rw fresh (c, v)
            ])
      ]

  top_k-AreInRange :
      (st : State) (k : ℕ)
      → Ok (AreInRange ctx) (top_k_by_local_heuristic (remaining_notes ctx st) st k)
  top_k-AreInRange st k =
      Ok-refine (λ _. Unit {0}) (AreInRange ctx)
        (top_k_by_local_heuristic (remaining_notes ctx st) st k) (top_k-Ok ctx range st k)
        (λ top e.
          top_k-All (λ n. InRange ctx n.1) (remaining_notes ctx st) st k top
            (remaining_notes-AreInRange ctx range st) e)

  improve-IsQueued : (st : State) (s : Search) → IsQueued s → IsQueued (improve ctx st s)
  unfolding improve
  improve-IsQueued st s v =
      elim (Bool-cases (
        not ((evaluate st ctx).0 == u64_max)
        && is_better_solution (evaluate st ctx).0 (fee_for_change_pool st ctx (evaluate st ctx).1)
            s.best_cost s.best_fee)) [ inl better ↦ rw better v | inr worse ↦ rw worse v ]

  expand-Ok :
      (st : State) (ns : List (ℕ × Note)) (s : Search)
      → IsSized ctx st
      → AreInRange ctx ns
      → IsQueued s
      → Ok IsQueued (expand ctx st ns s)
  unfolding expand
  expand-Ok st [] s z w v = v
  expand-Ok st (n ∷ ns) s z w v =
      Ok-bind (IsSized ctx) IsQueued (apply st n.0 n.1) _ (apply-Ok ctx st n.0 n.1 w.0 z)
        (λ child z'.
          Ok-bind (λ _. Unit {0}) IsQueued (lower_bound child ctx) _
            (lower_bound-Ok ctx range child)
            (λ bound _.
              expand-Ok st ns (push_child child bound s) z w.1
                (push_child-IsQueued child bound s z' v)))

  visit-Ok :
      (item : QueueItem) (s : Search)
      → IsSized ctx item.state
      → IsQueued s
      → Ok IsQueued (visit ctx item s)
  unfolding visit
  visit-Ok item s z v =
      let remaining = remaining_notes ctx item.state in
      let s' = improve ctx item.state s in
      elim (Bool-cases (not (bound_can_beat item.bound s.best_cost))) [
        | inl loses ↦ rw loses v
        | inr wins ↦
            rw wins
              (elim (Bool-cases (
                is_nil remaining
                || ltb
                    (saturating_add u64_max (zec_of ctx.asset_output_amounts)
                      (max_amount remaining))
                    (zec_of item.state.asset_sums))) [
                      | inl over ↦ rw over (improve-IsQueued item.state s v)
                      | inr below ↦ rw below (
                          Ok-bind (AreInRange ctx) IsQueued
                            (top_k_by_local_heuristic remaining item.state beam_width)
                            (λ candidates. expand ctx item.state candidates s')
                            (top_k-AreInRange item.state beam_width)
                            (λ candidates w.
                              expand-Ok item.state candidates s' z w
                                (improve-IsQueued item.state s v)))
                    ])
      ]

  search-Ok :
      (late : ℕ → Bool) (fuel nodes : ℕ) (s : Search)
      → nodes ≤ max_nodes
      → max_nodes < fuel + nodes
      → IsQueued s
      → Ok (λ _. Unit {0}) (search late ctx fuel nodes s)
  unfolding search
  search-Ok late zero nodes s le lt v = ground arith
  search-Ok late (suc fuel) nodes s le lt v =
      by_pop (λ s' le' v'. search-Ok late fuel (nodes + 1) s' le' (omega arith) v') (pop s.heap)
        (pop-All (λ item. IsSized ctx item.state) s.heap v)
    where
      round : QueueItem → List QueueItem → Bool → Option Search
      round item heap over = elim over [
        | true ↦ some (record s { heap = heap })
        | false ↦
            visit ctx item (record s { heap = heap })
            >>= (λ s'. search late ctx fuel (nodes + 1) s')
      ]

      by_pop :
          ((s' : Search)
            → nodes + 1 ≤ max_nodes
            → IsQueued s'
            → Ok (λ _. Unit {0}) (search late ctx fuel (nodes + 1) s'))
          → (o : Option (QueueItem × List QueueItem))
          → Gives (Popped (λ item. IsSized ctx item.state)) o
          → Ok
              (λ _. Unit {0})
              (elim o [
                | none ↦ some s
                | some (item, heap) ↦ round item heap (exceeded late (nodes + 1))
              ])
      by_pop ih none w = tt
      by_pop ih (some (item, heap)) w = by_time (exceeded late (nodes + 1)) refl
        where
          by_time :
              (over : Bool)
              → exceeded late (nodes + 1) ≡ over
              → Ok (λ _. Unit {0}) (round item heap over)
          by_time true e = tt
          by_time false e =
              Ok-bind IsQueued (λ _. Unit {0}) (visit ctx item (record s { heap = heap })) _
                (visit-Ok item (record s { heap = heap }) w.0 w.1)
                (λ s' v'. ih s' (ground arith) v')

  pub branch_and_bound-Ok :
      (late : ℕ → Bool) (found : Found) → Ok (λ _. Unit {0}) (branch_and_bound late ctx found)
  unfolding branch_and_bound
  branch_and_bound-Ok late (st, cost, pool) =
      Ok-bind (λ _. Unit {0}) (λ _. Unit {0}) (lower_bound (initial_state ctx) ctx) _
        (lower_bound-Ok ctx range (initial_state ctx))
        (λ bound _. search-Ok late (suc max_nodes) 0 _ (omega arith) (omega arith) (start bound))
    where
      start :
          (bound : ℕ)
          → All (λ item. IsSized ctx item.state) (start_heap bound (initial_state ctx) cost)
      start bound = elim (Bool-cases (bound_can_beat bound cost)) [
        | inl wins ↦ rw wins (initial_state-IsSized ctx, tt)
        | inr loses ↦ rw loses tt
      ]
