-- ===== src/Migrate/Split/Counts.antt =====
-- The fee manager that `plan_split` prepares.
use zcash_sdk_kmp.Base.{ℕ, zero, suc, ◌+◌, ◌*◌, ◌<◌, max, ◌≡◌, true, some, arith}
use zcash_sdk_kmp.Pay.PerPool.{filled}
use zcash_sdk_kmp.Pay.Fee.{FeeManager, add_input, add_output, remove_output, fee}
use zcash_sdk_kmp.Migrate.Split.{add_times, planned_fees}

-- Orchard inputs and outputs alone, in migration mode.
abbrev pub orchard_only : ℕ → ℕ → FeeManager
orchard_only i o = record {
  num_inputs = record (filled 0) { orchard = i };
  num_outputs = record (filled 0) { orchard = o };
  issuance_actions = 0;
  migration = true;
}

add_input_once :
    (i o : ℕ) → i < 255 → add_input (orchard_only i o) 2 ≡ some (orchard_only (i + 1) o)
unfolding add_input
add_input_once i o h = ground arith

add_output_once :
    (i o : ℕ) → o < 255 → add_output (orchard_only i o) 2 ≡ some (orchard_only i (o + 1))
unfolding add_output
add_output_once i o h = ground arith

pub remove_output_once :
    (i o : ℕ) → o < 255 → remove_output (orchard_only i (o + 1)) 2 ≡ some (orchard_only i o)
unfolding remove_output
remove_output_once i o h = ground arith

add_inputs :
    (n i o : ℕ)
    → i + n < 256
    → add_times (λ fm. add_input fm 2) n (orchard_only i o) ≡ some (orchard_only (i + n) o)
unfolding add_times
add_inputs zero i o h = ground arith
add_inputs (suc n) i o h =
    let e : i + 1 + n ≡ i + suc n = omega arith in
    rw (add_input_once i o (omega arith), add_inputs n (i + 1) o (omega arith), e)

add_outputs :
    (n i o : ℕ)
    → o + n < 256
    → add_times (λ fm. add_output fm 2) n (orchard_only i o) ≡ some (orchard_only i (o + n))
unfolding add_times
add_outputs zero i o h = ground arith
add_outputs (suc n) i o h =
    let e : o + 1 + n ≡ o + suc n = omega arith in
    rw (add_output_once i o (omega arith), add_outputs n i (o + 1) (omega arith), e)

-- Below the range of the counters the manager counts each input, each output and the change.
pub planned_fees_lem :
    (inputs outputs : ℕ)
    → inputs < 256
    → outputs < 255
    → planned_fees inputs outputs ≡ some (orchard_only inputs (outputs + 1))
unfolding planned_fees
planned_fees_lem inputs outputs hi ho =
    rw
      (
        add_inputs inputs 0 0 (omega arith),
        add_outputs outputs (0 + inputs) 0 (omega arith),
        add_output_once (0 + inputs) (0 + outputs) (omega arith),
      )
      (ground arith)

-- The fee in migration mode is five thousand for each input and each output.
pub fee-orchard_only : (i o : ℕ) → 0 < o → fee (orchard_only i o) ≡ max (i + o) 2 * 5000
unfolding fee
fee-orchard_only i o h = ground arith
