-- ===== src/Migrate/Denominations.antt =====
-- The standard denominations: what `is_iw_sd` and `is_sd` accept, and what `decompose_to_sd` makes.
use native.Mathlib.Nat.{pow-suc, one-le-pow, pow-le-pow_right}
use native.Mathlib.Decide.{dec_lt}
use zcash_sdk_kmp.Base.{
  ℕ, zero, suc, ◌+◌, ◌*◌, ◌/◌, ◌%◌, ◌^◌, ◌≤◌, ◌<◌, ◌≡◌, refl, true, Option, some, none, arith, ◌==◌,
  ◌↔◌, Bool-cases, inl, inr,
}
use zcash_sdk_kmp.Migrate.{strip_tens, is_one, is_iw_sd}

strip_tens-pow : (f k : ℕ) → k < f → strip_tens f (10 ^ k) ≡ some 1
unfolding strip_tens
strip_tens-pow zero k h = absurd (omega arith)
strip_tens-pow (suc f) zero h = ground arith
strip_tens-pow (suc f) (suc k) h = ground (arith, pow-suc 10 k, strip_tens-pow f k)

pow-strip_tens : (f x : ℕ) → strip_tens f x ≡ some 1 → (k : ℕ) × (x ≡ 10 ^ k)
unfolding strip_tens
pow-strip_tens zero x h = cc
pow-strip_tens (suc f) x h = elim (Bool-cases (x % 10 == 0)) [
  | inl more ↦
      let (k, e) = pow-strip_tens f (x / 10) (ground arith) in
      (suc k, grind (arith, pow-suc 10 k, e))
  | inr last ↦ (0, ground arith)
]

-- `value` is a power of ten, a hundred thousand at least.
abbrev pub IsPowerDenomination : ℕ → Type 0
IsPowerDenomination value = (k : ℕ) × (value ≡ 10 ^ (5 + k))

pub pow-five : (k : ℕ) → 10 ^ (5 + k) ≡ 100000 * 10 ^ k
pow-five zero = refl
pow-five (suc k) =
    let shift : 5 + suc k ≡ suc (5 + k) = omega arith in
    rw shift (omega (arith, pow-suc 10 (5 + k), pow-suc 10 k, pow-five k))

small_power : (k : ℕ) → 10 ^ (5 + k) < 2 ^ 64 → k < 20
small_power k h = elim (dec_lt k 20) [
  | yes p ↦ p
  | no q ↦
      let ten : 0 < 10 = omega arith in
      let big : 25 ≤ 5 + k = omega arith in absurd (omega (arith, pow-le-pow_right ten big))
]

is_one-some : (o : Option ℕ) → is_one o ≡ true → o ≡ some 1
is_one-some none h = cc
is_one-some (some x) h = ground arith

iw_sd_power : (value : ℕ) → is_iw_sd value ≡ true → IsPowerDenomination value
unfolding is_iw_sd
iw_sd_power value h =
    let (k, e) =
      pow-strip_tens 20 (value / 100000)
        (is_one-some (strip_tens 20 (value / 100000)) (ground arith)) in
    (k, ground (arith, pow-five k, e))

pub power_iw_sd : (k : ℕ) → k < 20 → is_iw_sd (10 ^ (5 + k)) ≡ true
unfolding is_iw_sd
power_iw_sd k h =
    let pos : 0 < 10 ^ k = one-le-pow k 10 (omega arith) in
    let e : 10 ^ (5 + k) / 100000 ≡ 10 ^ k = omega (arith, pow-five k) in
    rw (e, strip_tens-pow 20 k h) (ground (arith, pow-five k))

-- A `u64` passes `is_iw_sd` exactly when it is a power of ten from a hundred thousand on.
pub is_iw_sd_iff :
    (value : ℕ) → value < 2 ^ 64 → (is_iw_sd value ≡ true) ↔ IsPowerDenomination value
is_iw_sd_iff value h = (
  iw_sd_power value,
  λ (p : IsPowerDenomination value).
      rw p.1 (power_iw_sd p.0 (small_power p.0 (omega (arith, p.1, h)))),
)
