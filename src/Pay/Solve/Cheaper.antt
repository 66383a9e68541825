-- ===== src/Pay/Solve/Cheaper.antt =====
-- The search leaves the baseline for a selection of lower cost, or of the same cost and a lower fee.
use zcash_sdk_kmp.Base.{
  ℕ, zero, suc, ◌+◌, ◌≤◌, ◌<◌, ◌≡◌, refl, ◌⊎◌, inl, inr, Bool, true, false, not, ◌||◌, Option, some,
  none, List, [], ◌∷◌, ltb, ◌==◌, arith, u64_max, saturating_add, All, Bool-cases,
}
use zcash_sdk_kmp.Base.Partial.{◌>>=◌, Gives, gives, Gives-bind}
use zcash_sdk_kmp.Pay.Solve.{
  Note, State, Context, evaluate, fee_for_change_pool, is_better_solution, bound_can_beat, zec_of,
}
use zcash_sdk_kmp.Pay.Solve.Search.{
  initial_state, apply, lower_bound, state_key, top_k_by_local_heuristic, remaining_notes,
}
use zcash_sdk_kmp.Pay.Solve.Select.{
  QueueItem, pop, Search, lookup, is_dominated, push_child, expand, improve, is_nil, max_amount,
  visit, max_nodes, beam_width, exceeded, search, branch_and_bound,
}
use zcash_sdk_kmp.Pay.Solve.Total.{Ok, InRange}
use zcash_sdk_kmp.Pay.Solve.Rounds.{branch_and_bound-Ok}

-- A cost and a fee that a search may put in the place of others.
abbrev pub NoDearer : ℕ → ℕ → ℕ → ℕ → Type 0
NoDearer cost fee best_cost best_fee = (cost < best_cost) ⊎ ((cost ≡ best_cost) × (fee ≤ best_fee))

is_better_solution-NoDearer :
    (cost fee best_cost best_fee first_cost first_fee : ℕ)
    → is_better_solution cost fee best_cost best_fee ≡ true
    → NoDearer best_cost best_fee first_cost first_fee
    → NoDearer cost fee first_cost first_fee
unfolding is_better_solution
is_better_solution-NoDearer cost fee best_cost best_fee first_cost first_fee h v = ground arith

-- The best state with its own cost, change pool and fee.
abbrev pub IsEvaluated : Context → Search → Type 0
IsEvaluated ctx s =
    (evaluate s.best_state ctx ≡ (s.best_cost, s.best_pool))
    × (s.best_fee ≡ fee_for_change_pool s.best_state ctx s.best_pool)

module _ (ctx : Context) (first_cost first_fee : ℕ) where
  abbrev Kept : Search → Type 0
  Kept s = NoDearer s.best_cost s.best_fee first_cost first_fee × IsEvaluated ctx s

  improve-Kept : (st : State) (s : Search) → Kept s → Kept (improve ctx st s)
  unfolding improve
  improve-Kept st s v = elim (Bool-cases ((evaluate st ctx).0 == u64_max)) [
    | inl dear ↦ rw dear v
    | inr found ↦
        rw found
          (elim (Bool-cases (
            is_better_solution (evaluate st ctx).0 (fee_for_change_pool st ctx (evaluate st ctx).1)
              s.best_cost s.best_fee)) [
                | inl better ↦ rw better (
                  is_better_solution-NoDearer (evaluate st ctx).0
                      (fee_for_change_pool st ctx (evaluate st ctx).1) s.best_cost s.best_fee
                      first_cost first_fee better v.0,
                  (refl, refl),
                )
                | inr worse ↦ rw worse v
              ])
  ]

  push_child-Kept :
      (child : State) (bound : ℕ) (s : Search) → Kept s → Kept (push_child child bound s)
  unfolding push_child
  push_child-Kept child bound s v = elim (Bool-cases (not (bound_can_beat bound s.best_cost))) [
    | inl loses ↦ rw loses v
    | inr wins ↦ rw wins (elim (Bool-cases (is_dominated (lookup (state_key child) s.seen) bound)) [
      | inl dominated ↦ rw dominated v
      | inr fresh ↦ rw fresh v
    ])
  ]

  given : {A : Type 0} (o : Option A) → Gives (λ _. Unit {0}) o
  given o = gives (λ _. Unit {0}) o (λ a e. tt)

  expand-Kept :
      (st : State) (ns : List (ℕ × Note)) (s : Search) → Kept s → Gives Kept (expand ctx st ns s)
  unfolding expand
  expand-Kept st [] s v = v
  expand-Kept st (n ∷ ns) s v =
      Gives-bind (λ _. Unit {0}) Kept (apply st n.0 n.1) _ (given (apply st n.0 n.1))
        (λ child _.
          Gives-bind (λ _. Unit {0}) Kept (lower_bound child ctx) _ (given (lower_bound child ctx))
            (λ bound _.
              expand-Kept st ns (push_child child bound s) (push_child-Kept child bound s v)))

  visit-Kept : (item : QueueItem) (s : Search) → Kept s → Gives Kept (visit ctx item s)
  unfolding visit
  visit-Kept item s v =
      let remaining = remaining_notes ctx item.state in
      let better = improve-Kept item.state s v in
      elim (Bool-cases (not (bound_can_beat item.bound s.best_cost))) [
        | inl loses ↦ rw loses v
        | inr wins ↦
            rw wins
              (elim (Bool-cases (
                is_nil remaining
                || ltb
                    (saturating_add u64_max (zec_of ctx.asset_output_amounts)
                      (max_amount remaining))
                    (zec_of item.state.asset_sums))) [
                      | inl over ↦ rw over better
                      | inr below ↦ rw below (
                          Gives-bind (λ _. Unit {0}) Kept
                            (top_k_by_local_heuristic remaining item.state beam_width)
                            (λ candidates.
                              expand ctx item.state candidates (improve ctx item.state s))
                            (given (top_k_by_local_heuristic remaining item.state beam_width))
                            (λ candidates _.
                              expand-Kept item.state candidates (improve ctx item.state s) better))
                    ])
      ]

  search-Kept :
      (late : ℕ → Bool) (fuel nodes : ℕ) (s : Search)
      → Kept s
      → Gives Kept (search late ctx fuel nodes s)
  unfolding search
  search-Kept late zero nodes s v = tt
  search-Kept late (suc fuel) nodes s v =
      by_pop (λ s' v'. search-Kept late fuel (nodes + 1) s' v') (pop s.heap)
    where
      round : QueueItem → List QueueItem → Bool → Option Search
      round item heap over = elim over [
        | true ↦ some (record s { heap = heap })
        | false ↦
            visit ctx item (record s { heap = heap })
            >>= (λ s'. search late ctx fuel (nodes + 1) s')
      ]

      by_pop :
          ((s' : Search) → Kept s' → Gives Kept (search late ctx fuel (nodes + 1) s'))
          → (o : Option (QueueItem × List QueueItem))
          → Gives Kept (elim o [
            | none ↦ some s
            | some (item, heap) ↦ round item heap (exceeded late (nodes + 1))
          ])
      by_pop ih none = v
      by_pop ih (some (item, heap)) = by_time (exceeded late (nodes + 1))
        where
          by_time : (over : Bool) → Gives Kept (round item heap over)
          by_time true = v
          by_time false =
              Gives-bind Kept Kept (visit ctx item (record s { heap = heap })) _
                (visit-Kept item (record s { heap = heap }) v) ih

module _ (ctx : Context) where
  branch_and_bound-Kept :
      (late : ℕ → Bool) (st : State)
      → let found = evaluate st ctx in
        Gives
          (Kept ctx found.0 (fee_for_change_pool st ctx found.1))
          (branch_and_bound late ctx (st, found.0, found.1))
  unfolding branch_and_bound
  branch_and_bound-Kept late st =
      let found = evaluate st ctx in
      let first_fee = fee_for_change_pool st ctx found.1 in
      Gives-bind (λ _. Unit {0}) (Kept ctx found.0 first_fee) (lower_bound (initial_state ctx) ctx)
        _ (given ctx 0 0 (lower_bound (initial_state ctx) ctx))
        (λ bound _.
          search-Kept ctx found.0 first_fee late (suc max_nodes) 0 _
            (inr (refl, omega arith), (refl, refl)))

  -- With every note's pool and asset in range, the search from a state that was evaluated ends with
  -- a state, its own cost, change pool and fee beside it, whose cost is lower than the first
  -- state's, or is the same with a fee that is not higher.
  pub branch_and_bound-NoDearer :
      (late : ℕ → Bool) (st : State)
      → All (InRange ctx) ctx.notes
      → (s : Search) × (branch_and_bound late ctx (st, (evaluate st ctx).0, (evaluate st ctx).1)
          ≡ some s)
        × IsEvaluated ctx s
        × NoDearer s.best_cost s.best_fee
            (evaluate st ctx).0
            (fee_for_change_pool st ctx (evaluate st ctx).1)
  branch_and_bound-NoDearer late st range =
      answer (branch_and_bound late ctx (st, (evaluate st ctx).0, (evaluate st ctx).1))
        (branch_and_bound-Ok ctx range late (st, (evaluate st ctx).0, (evaluate st ctx).1))
        (branch_and_bound-Kept late st)
    where
      answer :
          (o : Option Search)
          → Ok (λ _. Unit {0}) o
          → Gives (Kept ctx (evaluate st ctx).0 (fee_for_change_pool st ctx (evaluate st ctx).1)) o
          → (s : Search) × (o ≡ some s)
            × IsEvaluated ctx s
            × NoDearer s.best_cost s.best_fee
                (evaluate st ctx).0
                (fee_for_change_pool st ctx (evaluate st ctx).1)
      answer none ok v = elim ok [ ]
      answer (some s) ok v = (s, refl, v.1, v.0)
