-- ===== src/Migrate/Decompose.antt =====
-- What `decompose_to_sd` makes of a total.
use native.Mathlib.Nat.{mod-lt, div-add-mod, div-lt_iff_lt-mul, one-le-pow, pow-suc}
use zcash_sdk_kmp.Base.{
  ℕ, zero, suc, ◌+◌, ◌-◌, ◌*◌, ◌/◌, ◌%◌, ◌^◌, ◌≤◌, ◌<◌, ◌≡◌, true, [], ◌∷◌, arith, ltb,
  if◌then◌else◌, All, Bool-cases, inl, inr, ap,
}
use zcash_sdk_kmp.Migrate.{denomination, Digits, decompose_from, decompose_to_sd, is_sd, sd_fee_pad}
use zcash_sdk_kmp.Migrate.Denominations.{power_iw_sd, pow-five}

-- The amount that a list of denominations with their counts stands for.
abbrev pub value : Digits → ℕ
value [] = 0
value ((d, c) ∷ ds) = d * c + value ds

abbrev pub outputs : Digits → ℕ
outputs [] = 0
outputs ((d, c) ∷ ds) = c + outputs ds

-- A denomination that `is_sd` accepts, a `u8` number of times and once at least.
abbrev pub IsSdDigit : ℕ × ℕ → Type 0
IsSdDigit (d, c) = (is_sd d ≡ true) × (0 < c) × (c < 256)

denomination-is_sd : (n : ℕ) → n < 15 → is_sd (denomination n) ≡ true
unfolding is_sd
denomination-is_sd n h =
    let e : denomination n - sd_fee_pad ≡ 10 ^ (5 + n) = omega arith in
    rw e (ground (arith, power_iw_sd n, one-le-pow (5 + n) 10))

denomination_pos : (n : ℕ) → 0 < denomination n
denomination_pos n = omega arith

-- Ten of one denomination are more than the next.
denomination_next : (n : ℕ) → denomination (suc n) < denomination n * 10
denomination_next n = omega (arith, pow-five (suc n), pow-five n, pow-suc 10 n)

count_small : (n r : ℕ) → r < denomination (suc n) → r / denomination n < 10
count_small n r h = (div-lt_iff_lt-mul (denomination_pos n)).1 (omega (arith, denomination_next n))

abbrev IsDecomposition : ℕ → ℕ → Digits × ℕ → Type 0
IsDecomposition n total (ds, r) =
    (value ds + r ≡ total) × (r < denomination 0) × All IsSdDigit ds × (outputs ds ≤ 9 * n)

decompose_step :
    (n r : ℕ) (rest : Digits × ℕ)
    → n < 15
    → r < denomination (suc n)
    → IsDecomposition n (r % denomination n) rest
    → IsDecomposition (suc n) r (
      if ltb 0 (r / denomination n % 256)
          then (denomination n, r / denomination n % 256) ∷ rest.0
          else rest.0,
      rest.1,
    )
decompose_step n r rest small h v =
    let q = count_small n r h in
    let byte : r / denomination n % 256 ≡ r / denomination n = omega arith in
    let parts = div-add-mod r (denomination n) in
    rw byte (elim (Bool-cases (ltb 0 (r / denomination n))) [
      | inl some_notes ↦ rw some_notes (
        omega (arith, parts, v.0),
        v.1,
        ((denomination-is_sd n small, ground arith, omega (arith, q)), v.2),
        omega (arith, q, v.3),
      )
      | inr no_note ↦
          let none_left : r / denomination n ≡ 0 = ground arith in
          rw no_note (
            omega (arith, ap (λ (t : ℕ). denomination n * t) none_left, parts, v.0),
            v.1,
            v.2,
            omega (arith, v.3),
          )
    ])

decompose_from_lem :
    (n r : ℕ) → n ≤ 15 → r < denomination n → IsDecomposition n r (decompose_from n r)
unfolding decompose_from
decompose_from_lem zero r small h = (omega arith, h, tt, omega arith)
decompose_from_lem (suc n) r small h = elim (Bool-cases (ltb r (denomination 0))) [
  | inl stop ↦ rw stop (omega arith, ground arith, tt, omega arith)
  | inr more ↦ rw more (
      decompose_step n r (decompose_from n (r % denomination n)) small h
        (decompose_from_lem n (r % denomination n) (omega arith) (mod-lt r (denomination_pos n))))
]

-- Up to a hundred million coins, the decomposition keeps the amount: the denominations and the
-- remainder add up to the total. The remainder is below the smallest denomination, each entry is a
-- standard denomination with a positive count in a byte, and there are at most 99 notes.
pub decompose_to_sd_sound :
    (total : ℕ)
    → total ≤ 10 ^ 16
    → (value (decompose_to_sd total).0 + (decompose_to_sd total).1 ≡ total)
      × ((decompose_to_sd total).1 < 120000)
      × All IsSdDigit (decompose_to_sd total).0
      × (outputs (decompose_to_sd total).0 ≤ 99)
unfolding decompose_to_sd
decompose_to_sd_sound total h = decompose_from_lem 11 total (omega arith) (omega arith)

decompose_from_small : (n r : ℕ) → r < denomination 0 → decompose_from (suc n) r ≡ ([], r)
unfolding decompose_from
decompose_from_small n r h = let stop : ltb r (denomination 0) ≡ true = ground arith in rw stop

-- Below the smallest denomination there is nothing to make.
pub decompose_to_sd_small : (total : ℕ) → total < 120000 → decompose_to_sd total ≡ ([], total)
unfolding decompose_to_sd
decompose_to_sd_small total h = decompose_from_small 10 total h

-- A list that stands for something has an output.
pub outputs-pos : (ds : Digits) → All IsSdDigit ds → 0 < value ds → 0 < outputs ds
outputs-pos [] a h = h
outputs-pos ((d, c) ∷ ds) a h = omega (arith, a.0.1)
