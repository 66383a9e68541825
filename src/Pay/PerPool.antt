-- ===== src/Pay/PerPool.antt =====
-- The arrays `[T; 4]` that the payment code indexes by pool: transparent, sapling, orchard,
-- ironwood. An index out of range panics in the source, and is `none` here.
use zcash_sdk_kmp.Base.{ℕ, zero, suc, ◌+◌, Option, none, some}

pub record PerPool {ℓ} (A : Type ℓ) : Type ℓ where
  pub transparent : A
  pub sapling : A
  pub orchard : A
  pub ironwood : A

module _ {ℓ} {A : Type ℓ} where
  -- `[a; 4]`
  abbrev pub filled : A → PerPool A
  filled a = record { transparent = a; sapling = a; orchard = a; ironwood = a }

  -- `a[i]`
  abbrev pub at : PerPool A → ℕ → Option A
  at a zero = some a.transparent
  at a (suc zero) = some a.sapling
  at a (suc (suc zero)) = some a.orchard
  at a (suc (suc (suc zero))) = some a.ironwood
  at a _ = none

  -- `a[i] = f(a[i])`
  abbrev pub modify : (A → A) → PerPool A → ℕ → Option (PerPool A)
  modify f a zero = some (record a { transparent = f a.transparent })
  modify f a (suc zero) = some (record a { sapling = f a.sapling })
  modify f a (suc (suc zero)) = some (record a { orchard = f a.orchard })
  modify f a (suc (suc (suc zero))) = some (record a { ironwood = f a.ironwood })
  modify f a _ = none

-- `a.iter().sum()`
abbrev pub total : PerPool ℕ → ℕ
total a = a.transparent + a.sapling + a.orchard + a.ironwood
