-- ===== src/Tests/Solve.antt =====
-- Selections from three notes, and the selection's theorems there.
use zcash_sdk_kmp.Base.{Option, ℕ, ◌≡◌, refl, Bool, true, false, some, none, [], ◌∷◌, arith}
use zcash_sdk_kmp.Base.Partial.{Gives}
use zcash_sdk_kmp.Base.Integers.{pos, neg}
use zcash_sdk_kmp.Pay.Fee.{FeeManager, fee, add_output, cost_per_action}
use zcash_sdk_kmp.Pay.Solve.{
  Note, Output, Selection, State, Context, compute_fee, paired_actions, zsa_orchard_actions,
  is_feasible, fee_for_change_pool, is_better_solution, bound_can_beat, turnstile_of, try_pool,
  evaluate_privacy, evaluate,
}
use zcash_sdk_kmp.Pay.Solve.Search.{
  initial_state, apply, remaining_notes, lower_bound, top_k_by_local_heuristic, state_key,
}
use zcash_sdk_kmp.Pay.Solve.Select.{
  Search, greedy_from, greedy_solution, baseline, push_child, expand, improve, visit, search,
  branch_and_bound, inputs_of, build_selection, solve, select_notes,
}
use zcash_sdk_kmp.Pay.Solve.Gather.{Request, add_to_pool, add_outputs, context_of}
use zcash_sdk_kmp.Pay.Solve.Funded.{IsFunded, candidates, select_notes-IsFunded}
use zcash_sdk_kmp.Pay.Solve.Answers.{select_notes_answers}
use zcash_sdk_kmp.Pay.Solve.Fees.{compute_fee-fee}
use zcash_sdk_kmp.Pay.Solve.Cheaper.{IsEvaluated, NoDearer, branch_and_bound-NoDearer}

abbrev coin : Note
coin = record { pool = 0; amount = 100_000; pool_index = 0; asset_index = 0 }

abbrev orchard_note : Note
orchard_note = record { pool = 2; amount = 80_000; pool_index = 0; asset_index = 0 }

abbrev dust : Note
dust = record { pool = 1; amount = 4_999; pool_index = 0; asset_index = 0 }

abbrev payment : Output
payment = record { pool = 2; amount = 60_000; asset_index = 0 }

abbrev request : Request
request = record {
  f_unit = 5000;
  migration = false;
  recipient_pays_fee = false;
  first_recipient_amount = 60_000;
}

abbrev in_time : ℕ → Bool
in_time n = false

-- The Orchard note alone pays, and its change stays in Orchard.
abbrev chosen : Selection
chosen = record {
  inputs = orchard_note ∷ [];
  per_pool_indices = record { transparent = []; sapling = []; orchard = 0 ∷ []; ironwood = [] };
  change_pool = 2;
  fee = 10_000;
}

chosen_run :
    select_notes in_time (coin ∷ orchard_note ∷ dust ∷ []) (payment ∷ []) request
    ≡ some (some chosen)
unfolding select_notes solve context_of add_outputs add_to_pool baseline greedy_solution greedy_from
    evaluate evaluate_privacy try_pool turnstile_of is_better_solution fee_for_change_pool
    is_feasible zsa_orchard_actions paired_actions compute_fee apply initial_state branch_and_bound
    lower_bound remaining_notes search visit improve expand push_child state_key bound_can_beat
    top_k_by_local_heuristic build_selection inputs_of
chosen_run = refl

select_notes-IsFunded_example :
    IsFunded (candidates (coin ∷ orchard_note ∷ dust ∷ []) request) (payment ∷ []) request chosen
select_notes-IsFunded_example =
    select_notes-IsFunded in_time (coin ∷ orchard_note ∷ dust ∷ []) (payment ∷ []) request chosen
      (λ asset. ground arith) chosen_run

abbrev manager : FeeManager
manager = record {
  num_inputs = record { transparent = 0; sapling = 0; orchard = 3; ironwood = 0 };
  num_outputs = record { transparent = 1; sapling = 0; orchard = 1; ironwood = 0 };
  issuance_actions = 0;
  migration = true;
}

compute_fee-fee_example :
    Gives
      (λ fm.
        fee fm ≡ compute_fee manager.num_inputs manager.num_outputs 2 cost_per_action true none)
      (add_output manager 2)
compute_fee-fee_example =
    compute_fee-fee manager 2 (omega arith, omega arith, omega arith, omega arith)

select_notes_answers_example :
    (answer : Option Selection) × (select_notes in_time
        (coin ∷ orchard_note ∷ dust ∷ [])
        (payment ∷ [])
        request
      ≡ some answer)
select_notes_answers_example =
    select_notes_answers in_time (coin ∷ orchard_note ∷ dust ∷ []) (payment ∷ []) request
      (omega arith, tt)
      ((omega arith, omega arith), ((omega arith, omega arith), ((omega arith, omega arith), tt)))

-- The payment of 60,000 zatoshis to Orchard, from the coin or from the Orchard note.
abbrev to_orchard : Context
to_orchard = record {
  notes = coin ∷ orchard_note ∷ [];
  n_assets = 1;
  asset_output_amounts = 60_000 ∷ [];
  output_amounts = record { transparent = 0; sapling = 0; orchard = 60_000; ironwood = 0 };
  n_outputs = record { transparent = 0; sapling = 0; orchard = 1; ironwood = 0 };
  orchard_asset_outputs = 1 ∷ [];
  f_unit = 5000;
  migration = false;
  recipient_pays_fee = false;
  first_recipient_amount = 60_000;
}

-- The coin alone, which has to cross the turnstile.
abbrev from_coin : State
from_coin = record {
  asset_sums = 100_000 ∷ [];
  balance = record { transparent = pos 0; sapling = pos 0; orchard = neg 60_000; ironwood = pos 0 };
  n_inputs = record { transparent = 1; sapling = 0; orchard = 0; ironwood = 0 };
  orchard_asset_inputs = 0 ∷ [];
  tin = 100_000;
  tout = 0;
  selected = 0 ∷ [];
}

branch_and_bound-NoDearer_example :
    (s : Search) × (branch_and_bound in_time to_orchard
        (from_coin, (evaluate from_coin to_orchard).0, (evaluate from_coin to_orchard).1)
      ≡ some s)
    × IsEvaluated to_orchard s
    × NoDearer s.best_cost s.best_fee
        (evaluate from_coin to_orchard).0
        (fee_for_change_pool from_coin to_orchard (evaluate from_coin to_orchard).1)
branch_and_bound-NoDearer_example =
    branch_and_bound-NoDearer to_orchard in_time from_coin
      ((omega arith, omega arith), ((omega arith, omega arith), tt))
