-- ===== src/Tests/Jni.antt =====
-- Wallets by number: two are opened, the first is altered and closed.
use zcash_sdk_kmp.Base.{ℕ, ◌≡◌, refl, none, some, List, [], ◌∷◌, arith, ◌+◌}
use zcash_sdk_kmp.Jni.Registry.{new, insert, get, update}
use zcash_sdk_kmp.Jni.Registry.Refines.{
  Op, opens, alter, close, apply, run, replay, run_refines, remove_forever,
}

abbrev calls : List (Op ℕ)
calls = opens 70 ∷ opens 80 ∷ alter 1 (λ c. c + 1) ∷ []

altered : get 1 (run calls new) ≡ some 71
unfolding get run apply new insert update
altered = refl

never_zero : get 0 (run calls new) ≡ none
unfolding get run apply new insert update
never_zero = refl

run_refines_example :
    let s = replay calls (record { opened = 0; at = λ _. none }) in
    (get 1 (run calls new) ≡ s.at 1) × ((run calls new).next_handle ≡ s.opened + 1)
run_refines_example = run_refines calls 1 (omega arith)

remove_forever_example :
    get 1 (run (opens 70 ∷ opens 80 ∷ close 1 ∷ opens 90 ∷ alter 1 (λ c. c + 1) ∷ []) new) ≡ none
unfolding run apply new insert
remove_forever_example =
    remove_forever (opens 70 ∷ opens 80 ∷ []) (opens 90 ∷ alter 1 (λ c. c + 1) ∷ []) 1 (omega arith)
      (omega arith)
