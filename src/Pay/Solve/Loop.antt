-- ===== src/Pay/Solve/Loop.antt =====
-- The loop of the search keeps its states reached and its best state payable, and ends on its fuel.
use zcash_sdk_kmp.Base.{
  ℕ, zero, suc, ◌+◌, ◌≡◌, refl, inl, inr, Bool, true, false, not, ◌||◌, Option, some, none, List,
  [], ◌∷◌, ltb, ◌==◌, u64_max, saturating_add, All, Bool-cases,
}
use zcash_sdk_kmp.Base.Partial.{◌>>=◌, Gives, gives, Gives-bind}
use zcash_sdk_kmp.Pay.Solve.{
  Note, State, Context, evaluate, fee_for_change_pool, is_better_solution, bound_can_beat, zec_of,
}
use zcash_sdk_kmp.Pay.Solve.Search.{
  initial_state, apply, lower_bound, state_key, top_k_by_local_heuristic, remaining_notes,
}
use zcash_sdk_kmp.Pay.Solve.Select.{
  Found, QueueItem, pop, Search, lookup, is_dominated, push_child, expand, improve, is_nil,
  max_amount, visit, max_nodes, beam_width, exceeded, search, start_heap, branch_and_bound,
}
use zcash_sdk_kmp.Pay.Solve.Reached.{
  Reached, IsCandidate, initial_state-Reached, remaining_notes-IsCandidate,
}
use zcash_sdk_kmp.Pay.Solve.Ranked.{top_k-All}
use zcash_sdk_kmp.Pay.Solve.Winner.{
  Popped, pop-All, IsFound, Follows, apply-Follows, evaluated-IsFound,
}

module _ (ctx : Context) where
  -- Between two rounds.
  pub record Inv (s : Search) : Type 0 where
    pub heap : All (λ item. Reached ctx item.state) s.heap
    pub best : IsFound ctx (s.best_state, s.best_cost, s.best_pool)
    pub fee : s.best_fee ≡ fee_for_change_pool s.best_state ctx s.best_pool

  improve-Inv : (st : State) (s : Search) → Reached ctx st → Inv s → Inv (improve ctx st s)
  unfolding improve
  improve-Inv st s r v = elim (Bool-cases ((evaluate st ctx).0 == u64_max)) [
    | inl dear ↦ rw dear v
    | inr found ↦
        rw found
          (elim (Bool-cases (
            is_better_solution (evaluate st ctx).0 (fee_for_change_pool st ctx (evaluate st ctx).1)
              s.best_cost s.best_fee)) [
                | inl better ↦
                    rw better (record {
                      heap = v.heap;
                      best = evaluated-IsFound ctx st r found;
                      fee = refl;
                    })
                | inr worse ↦ rw worse v
              ])
  ]

  push_child-Inv :
      (child : State) (bound : ℕ) (s : Search)
      → Reached ctx child
      → Inv s
      → Inv (push_child child bound s)
  unfolding push_child
  push_child-Inv child bound s r v = elim (Bool-cases (not (bound_can_beat bound s.best_cost))) [
    | inl loses ↦ rw loses v
    | inr wins ↦ rw wins (elim (Bool-cases (is_dominated (lookup (state_key child) s.seen) bound)) [
      | inl dominated ↦ rw dominated v
      | inr fresh ↦ rw fresh (record { heap = (r, v.heap); best = v.best; fee = v.fee })
    ])
  ]

  expand-Inv :
      (st : State) (ns : List (ℕ × Note)) (s : Search)
      → Reached ctx st
      → All (IsCandidate ctx st.selected) ns
      → Inv s
      → Gives Inv (expand ctx st ns s)
  unfolding expand
  expand-Inv st [] s r w v = v
  expand-Inv st (n ∷ ns) s r w v =
      Gives-bind (Follows ctx st n.0) Inv (apply st n.0 n.1) _ (apply-Follows ctx st n r w.0)
        (λ child f.
          Gives-bind (λ _. Unit {0}) Inv (lower_bound child ctx) _
            (gives (λ _. Unit {0}) (lower_bound child ctx) (λ a e. tt))
            (λ bound _.
              expand-Inv st ns (push_child child bound s) r w.1
                (push_child-Inv child bound s f.0 v)))

  visit-Inv :
      (item : QueueItem) (s : Search)
      → Reached ctx item.state
      → Inv s
      → Gives Inv (visit ctx item s)
  unfolding visit
  visit-Inv item s r v =
      let remaining = remaining_notes ctx item.state in
      let s' = improve ctx item.state s in
      elim (Bool-cases (not (bound_can_beat item.bound s.best_cost))) [
        | inl loses ↦ rw loses v
        | inr wins ↦
            rw wins
              (elim (Bool-cases (
                is_nil remaining
                || ltb
                    (saturating_add u64_max (zec_of ctx.asset_output_amounts)
                      (max_amount remaining))
                    (zec_of item.state.asset_sums))) [
                      | inl over ↦ rw over (improve-Inv item.state s r v)
                      | inr below ↦ rw below (
                          Gives-bind (All (IsCandidate ctx item.state.selected)) Inv
                            (top_k_by_local_heuristic remaining item.state beam_width)
                            (λ candidates. expand ctx item.state candidates s')
                            (gives (All (IsCandidate ctx item.state.selected))
                              (top_k_by_local_heuristic remaining item.state beam_width)
                              (λ top e.
                                top_k-All (IsCandidate ctx item.state.selected) remaining item.state
                                  beam_width top (remaining_notes-IsCandidate ctx item.state) e))
                            (λ candidates w.
                              expand-Inv item.state candidates s' r w
                                (improve-Inv item.state s r v)))
                    ])
      ]

  search-Inv :
      (late : ℕ → Bool) (fuel nodes : ℕ) (s : Search)
      → Inv s
      → Gives Inv (search late ctx fuel nodes s)
  unfolding search
  search-Inv late zero nodes s v = tt
  search-Inv late (suc fuel) nodes s v =
      by_pop (λ s' v'. search-Inv late fuel (nodes + 1) s' v') (pop s.heap)
        (pop-All (λ item. Reached ctx item.state) s.heap v.heap)
    where
      round : QueueItem → List QueueItem → Bool → Option Search
      round item heap over = elim over [
        | true ↦ some (record s { heap = heap })
        | false ↦
            visit ctx item (record s { heap = heap })
            >>= (λ s'. search late ctx fuel (nodes + 1) s')
      ]

      by_pop :
          ((s' : Search) → Inv s' → Gives Inv (search late ctx fuel (nodes + 1) s'))
          → (o : Option (QueueItem × List QueueItem))
          → Gives (Popped (λ item. Reached ctx item.state)) o
          → Gives Inv (elim o [
            | none ↦ some s
            | some (item, heap) ↦ round item heap (exceeded late (nodes + 1))
          ])
      by_pop ih none w = v
      by_pop ih (some (item, heap)) w = by_time (exceeded late (nodes + 1))
        where
          rest : Inv (record s { heap = heap })
          rest = record { heap = w.1; best = v.best; fee = v.fee }

          by_time : (over : Bool) → Gives Inv (round item heap over)
          by_time true = rest
          by_time false =
              Gives-bind Inv Inv (visit ctx item (record s { heap = heap })) _
                (visit-Inv item (record s { heap = heap }) w.0 rest) ih

  pub branch_and_bound-Inv :
      (late : ℕ → Bool) (found : Found)
      → IsFound ctx found
      → Gives Inv (branch_and_bound late ctx found)
  unfolding branch_and_bound
  branch_and_bound-Inv late (st, cost, pool) f =
      Gives-bind (λ _. Unit {0}) Inv (lower_bound (initial_state ctx) ctx) _
        (gives (λ _. Unit {0}) (lower_bound (initial_state ctx) ctx) (λ a e. tt))
        (λ bound _.
          search-Inv late (suc max_nodes) 0 _ (record { heap = start bound; best = f; fee = refl }))
    where
      start :
          (bound : ℕ)
          → All (λ item. Reached ctx item.state) (start_heap bound (initial_state ctx) cost)
      start bound = elim (Bool-cases (bound_can_beat bound cost)) [
        | inl wins ↦ rw wins (initial_state-Reached ctx, tt)
        | inr loses ↦ rw loses tt
      ]
