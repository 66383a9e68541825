-- ===== src/Pay/Solve/Select.antt =====
-- rust/rlz/src/pay/solve.rs: the greedy baseline, the best-first search and `select_notes`. A panic is
-- `none`. The clock is a function from the number of the node to whether the time limit is passed. The
-- search pops at most `max_nodes` states and one more, which is its fuel. The heap is a list.
use zcash_sdk_kmp.Base.{
  ℕ, zero, suc, ◌+◌, max, Bool, true, false, not, ◌&&◌, ◌||◌, Option, some, none, List, [], ◌∷◌,
  ◌++◌, get_elem?, ltb, leb, ◌==◌, if◌then◌else◌, saturating_add, u64_max,
}
use zcash_sdk_kmp.Base.Partial.{◌>>=◌}
use zcash_sdk_kmp.Pay.PerPool.{PerPool, filled, modify}
use zcash_sdk_kmp.Pay.Solve.{
  Note, Output, Selection, State, Context, zec_of, fee_for_change_pool, is_better_solution,
  bound_can_beat, evaluate,
}
use zcash_sdk_kmp.Pay.Solve.Search.{
  numbered, sort_by, initial_state, apply, remaining_notes, lower_bound, top_k_by_local_heuristic,
  StateKey, state_key, key_eq,
}
use zcash_sdk_kmp.Pay.Solve.Gather.{without_dust, Request, context_of}

-- The `Budget` that is used.
abbrev pub max_nodes : ℕ
max_nodes = 100000

abbrev pub beam_width : ℕ
beam_width = 24

abbrev pub by_amount : ℕ × Note → ℕ × Note → Bool
by_amount a b = ltb b.1.amount a.1.amount

-- A state, its cost and its change pool.
abbrev pub Found : Type 0
Found = State × ℕ × ℕ

-- The notes in order are added until the state is feasible, or are exhausted.
unfoldable pub greedy_from : Context → List (ℕ × Note) → State → Option (Option Found)
greedy_from ctx [] st =
    let (cost, pool) = evaluate st ctx in
    some (if not (cost == u64_max) then some (st, cost, pool) else none)
greedy_from ctx (n ∷ ns) st =
    let (cost, pool) = evaluate st ctx in
    elim (not (cost == u64_max)) [
      | true ↦ some (some (st, cost, pool))
      | false ↦ do st' ← apply st n.0 n.1; greedy_from ctx ns st'
    ]

unfoldable pub greedy_solution : Context → Option (Option Found)
greedy_solution ctx = greedy_from ctx (sort_by by_amount (numbered 0 ctx.notes)) (initial_state ctx)

unfoldable pub apply_all : List (ℕ × Note) → State → Option State
apply_all [] st = some st
apply_all (n ∷ ns) st = do st' ← apply st n.0 n.1; apply_all ns st'

-- The greedy baseline, or else every note.
unfoldable pub baseline : Context → Option (Option Found)
baseline ctx = do
  greedy ← greedy_solution ctx
  elim greedy [
    | some found ↦ some (some found)
    | none ↦ do
      st ← apply_all (numbered 0 ctx.notes) (initial_state ctx)
      let (cost, pool) = evaluate st ctx
      some (if cost == u64_max then none else some (st, cost, pool))
  ]

pub record QueueItem : Type 0 where
  pub bound : ℕ
  pub seq : ℕ
  pub state : State

abbrev pub first_of : QueueItem → QueueItem → Bool
first_of a b = ltb a.bound b.bound || (a.bound == b.bound && leb a.seq b.seq)

-- `BinaryHeap<Reverse<QueueItem>>::pop`: the least item.
abbrev pub pop : List QueueItem → Option (QueueItem × List QueueItem)
pop [] = none
pop (x ∷ xs) = elim (pop xs) [
  | none ↦ some (x, [])
  | some (y, ys) ↦ if first_of x y then some (x, xs) else some (y, x ∷ ys)
]

-- The local variables of the search.
pub record Search : Type 0 where
  pub heap : List QueueItem
  pub seen : List (StateKey × ℕ)
  pub seq : ℕ
  pub best_state : State
  pub best_cost : ℕ
  pub best_pool : ℕ
  pub best_fee : ℕ

abbrev pub lookup : StateKey → List (StateKey × ℕ) → Option ℕ
lookup k [] = none
lookup k ((k', b) ∷ seen) = if key_eq k k' then some b else lookup k seen

abbrev pub is_dominated : Option ℕ → ℕ → Bool
is_dominated none bound = false
is_dominated (some existing) bound = leb existing bound

-- A child is queued, unless it cannot win or is dominated. An entry of `seen` hides the older ones.
unfoldable pub push_child : State → ℕ → Search → Search
push_child child child_bound s =
    let key = state_key child in
    let seq = saturating_add u64_max s.seq 1 in
    if not (bound_can_beat child_bound s.best_cost)
    then s
    else if is_dominated (lookup key s.seen) child_bound
    then s
    else record s {
      seen = (key, child_bound) ∷ s.seen;
      seq = seq;
      heap = record { bound = child_bound; seq = seq; state = child } ∷ s.heap;
    }

unfoldable pub expand : Context → State → List (ℕ × Note) → Search → Option Search
expand ctx st [] s = some s
expand ctx st (n ∷ ns) s = do
  child ← apply st n.0 n.1
  child_bound ← lower_bound child ctx
  expand ctx st ns (push_child child child_bound s)

abbrev pub max_amount : List (ℕ × Note) → ℕ
max_amount [] = 0
max_amount (n ∷ ns) = max n.1.amount (max_amount ns)

-- A feasible state that is better than the best one takes its place.
unfoldable pub improve : Context → State → Search → Search
improve ctx st s =
    let (cost, pool) = evaluate st ctx in
    let fee = fee_for_change_pool st ctx pool in
    if not (cost == u64_max) && is_better_solution cost fee s.best_cost s.best_fee
    then record s { best_cost = cost; best_fee = fee; best_state = st; best_pool = pool }
    else s

abbrev pub is_nil : List (ℕ × Note) → Bool
is_nil [] = true
is_nil (n ∷ ns) = false

-- The round of the loop for an item that was popped.
unfoldable pub visit : Context → QueueItem → Search → Option Search
visit ctx item s =
    let st = item.state in
    let s' = improve ctx st s in
    let remaining = remaining_notes ctx st in
    let cap = saturating_add u64_max (zec_of ctx.asset_output_amounts) (max_amount remaining) in
    if not (bound_can_beat item.bound s.best_cost)
    then some s
    else if is_nil remaining || ltb cap (zec_of st.asset_sums)
    then some s'
    else do
      candidates ← top_k_by_local_heuristic remaining st beam_width
      expand ctx st candidates s'

-- The notes at the indices.
unfoldable pub inputs_of : Context → List ℕ → Option (List Note)
inputs_of ctx [] = some []
inputs_of ctx (i ∷ is) = do
  note ← get_elem? ctx.notes i
  notes ← inputs_of ctx is
  some (note ∷ notes)

abbrev pub indices_of : List Note → PerPool (List ℕ) → Option (PerPool (List ℕ))
indices_of [] indices = some indices
indices_of (n ∷ ns) indices = do
  indices' ← modify (λ is. is ++ n.pool_index ∷ []) indices n.pool
  indices_of ns indices'

unfoldable pub build_selection : Context → Search → Option Selection
build_selection ctx s = do
  inputs ← inputs_of ctx s.best_state.selected
  indices ← indices_of inputs (filled [])
  some (record {
    inputs = inputs;
    per_pool_indices = indices;
    change_pool = s.best_pool;
    fee = s.best_fee;
  })

abbrev pub start_heap : ℕ → State → ℕ → List QueueItem
start_heap bound start best_cost =
    if bound_can_beat bound best_cost
    then record { bound = bound; seq = 0; state = start } ∷ []
    else []

module _ (late : ℕ → Bool) where
  -- `BudgetTracker::exceeded`, with the nodes counted so far.
  abbrev pub exceeded : ℕ → Bool
  exceeded nodes = ltb max_nodes nodes || late nodes

  unfoldable pub search : Context → ℕ → ℕ → Search → Option Search
  search ctx zero nodes s = none
  search ctx (suc fuel) nodes s = elim (pop s.heap) [
    | none ↦ some s
    | some (item, heap) ↦ elim (exceeded (nodes + 1)) [
      | true ↦ some (record s { heap = heap })
      | false ↦ do s' ← visit ctx item (record s { heap = heap }); search ctx fuel (nodes + 1) s'
    ]
  ]

  unfoldable pub branch_and_bound : Context → Found → Option Search
  branch_and_bound ctx (st, cost, pool) = do
    let start = initial_state ctx
    bound ← lower_bound start ctx
    search ctx (suc max_nodes) 0 (record {
      heap = start_heap bound start cost;
      seen = [];
      seq = 0;
      best_state = st;
      best_cost = cost;
      best_pool = pool;
      best_fee = fee_for_change_pool st ctx pool;
    })

-- The search from the baseline, and the selection of its best state.
unfoldable pub solve : (ℕ → Bool) → Context → Option (Option Selection)
solve late ctx = do
  found ← baseline ctx
  elim found [
    | none ↦ some none
    | some first ↦ do
      s ← branch_and_bound late ctx first
      selection ← build_selection ctx s
      some (some selection)
  ]

unfoldable pub select_notes :
    (ℕ → Bool) → List Note → List Output → Request → Option (Option Selection)
select_notes late notes outputs q = elim (without_dust q.f_unit notes) [
  | [] ↦ some none
  | n ∷ ns ↦ do ctx ← context_of (n ∷ ns) outputs q; solve late ctx
]
