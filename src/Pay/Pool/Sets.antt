-- ===== src/Pay/Pool/Sets.antt =====
-- A mask as the set of its pools. The laws are read off tables over the sixteen masks.
use zcash_sdk_kmp.Base.{
  ℕ, zero, suc, ◌+◌, ◌<◌, ◌≡◌, refl, ◌↔◌, ◌⊎◌, Bool, true, false, not, ◌&&◌, ◌||◌, Option, some,
  none, arith, ◌==◌, if◌then◌else◌,
}
use zcash_sdk_kmp.Base.Partial.{◌>>=◌}
use zcash_sdk_kmp.Pay.Pool.{
  PoolMask, has_pool, to_best_pool, single_pool, intersect, union, trim_transparent, Receivers,
  from_address,
}

-- The masks below a bound that pass a check, counted down.
table : (PoolMask → Bool) → ℕ → Bool
table check zero = true
table check (suc bound) = if check bound then table check bound else false

table-entry :
    (check : PoolMask → Bool) (bound : ℕ) {m : PoolMask}
    → m < bound
    → table check bound ≡ true
    → check m ≡ true
unfolding table
table-entry check zero below t = elim below [ ]
table-entry check (suc bound) {m} below t = ground (arith, table-entry check bound {m = m})

abbrev bool_eq : Bool → Bool → Bool
bool_eq true b = b
bool_eq false b = not b

bool_eq_lem : (a b : Bool) → bool_eq a b ≡ true → a ≡ b
bool_eq_lem true b h = ground arith
bool_eq_lem false b h = ground arith

abbrev option_eq : Option ℕ → Option ℕ → Bool
option_eq none none = true
option_eq (some a) (some b) = a == b
option_eq _ _ = false

option_eq_lem : (a b : Option ℕ) → option_eq a b ≡ true → a ≡ b
option_eq_lem none none h = refl
option_eq_lem none (some b) h = cc
option_eq_lem (some a) none h = cc
option_eq_lem (some a) (some b) h = ground arith

-- The best pool by a search from the last pool down.
abbrev pub search_down : ℕ → PoolMask → Option ℕ
search_down zero m = none
search_down (suc p) m = if has_pool m p then some p else search_down p m

best_table : table (λ m. option_eq (to_best_pool m) (search_down 4 m)) 16 ≡ true
unfolding table to_best_pool has_pool
best_table = refl

-- On every mask of the four pools the best pool is the highest one of the mask, and there is none
-- when the mask has no pool.
pub to_best_pool_highest : (m : PoolMask) → m < 16 → to_best_pool m ≡ search_down 4 m
to_best_pool_highest m h =
    option_eq_lem (to_best_pool m) (search_down 4 m)
      (table-entry (λ x. option_eq (to_best_pool x) (search_down 4 x)) 16 h best_table)

abbrev pub count_pools : PoolMask → ℕ
count_pools m =
    (if has_pool m 0 then 1 else 0)
    + (if has_pool m 1 then 1 else 0)
    + (if has_pool m 2 then 1 else 0)
    + (if has_pool m 3 then 1 else 0)

single_table : table (λ m. bool_eq (single_pool m) (count_pools m == 1)) 16 ≡ true
unfolding table single_pool has_pool
single_table = refl

-- `single_pool` tells the masks of the four pools that have exactly one pool.
pub single_pool_iff : (m : PoolMask) → m < 16 → (single_pool m ≡ true) ↔ (count_pools m ≡ 1)
single_pool_iff m h = ground (
  arith,
  bool_eq_lem (single_pool m) (count_pools m == 1)
      (table-entry (λ x. bool_eq (single_pool x) (count_pools x == 1)) 16 h single_table),
)

-- Both operations at every pool.
abbrev set_laws : ℕ → ℕ → ℕ → Bool
set_laws a b p =
    bool_eq (has_pool (intersect a b) p) (has_pool a p && has_pool b p)
    && bool_eq (has_pool (union a b) p) (has_pool a p || has_pool b p)

sets_table : table (λ a. table (λ b. table (λ p. set_laws a b p) 4) 16) 16 ≡ true
unfolding table has_pool intersect union
sets_table = refl

-- On masks of the four pools `intersect` and `union` are those of sets: a pool is in the
-- intersection when it is in both masks, and in the union when it is in one of them.
pub has_pool-intersect-union :
    (a b : PoolMask) (p : ℕ)
    → a < 16
    → b < 16
    → p < 4
    → (has_pool (intersect a b) p ≡ (has_pool a p && has_pool b p))
      × (has_pool (union a b) p ≡ (has_pool a p || has_pool b p))
has_pool-intersect-union a b p ha hb hp =
    let row = table-entry (λ x. table (λ y. table (λ q. set_laws x y q) 4) 16) 16 ha sets_table in
    let cell = table-entry (λ y. table (λ q. set_laws a y q) 4) 16 hb row in
    let law = table-entry (λ q. set_laws a b q) 4 hp cell in split law
  where
    split :
        set_laws a b p ≡ true
        → (has_pool (intersect a b) p ≡ (has_pool a p && has_pool b p))
          × (has_pool (union a b) p ≡ (has_pool a p || has_pool b p))
    split h = (bool_eq_lem _ _ (ground arith), bool_eq_lem _ _ (ground arith))

-- The masks that `RecipientState::new` asserts: transparent alone, sapling alone, orchard with
-- ironwood, or all the shielded pools.
abbrev pub IsRecipientMask : PoolMask → Type 0
IsRecipientMask m = (m ≡ 1) ⊎ ((m ≡ 2) ⊎ ((m ≡ 12) ⊎ (m ≡ 14)))

recipient_mask :
    (transparent sapling orchard : Bool) (t : PoolMask)
    → (do
      m ← from_address (
          some
            (record { as_transparent = transparent; as_sapling = sapling; as_orchard = orchard }))
      trim_transparent m)
      ≡ some t
    → IsRecipientMask t × ((has_pool t 0 ≡ false) ⊎ ((sapling ≡ false) × (orchard ≡ false)))
unfolding from_address trim_transparent has_pool
recipient_mask true true true t h = ground arith
recipient_mask true true false t h = ground arith
recipient_mask true false true t h = ground arith
recipient_mask true false false t h = ground arith
recipient_mask false true true t h = ground arith
recipient_mask false true false t h = ground arith
recipient_mask false false true t h = ground arith
recipient_mask false false false t h = cc

-- Whenever the mask of an address survives `trim_transparent`, it is one of the four that
-- `RecipientState::new` asserts, and it keeps the transparent pool only if the address has no
-- shielded receiver.
pub from_address-trim_transparent :
    (a : Receivers) (t : PoolMask)
    → (do m ← from_address (some a); trim_transparent m) ≡ some t
    → IsRecipientMask t
      × ((has_pool t 0 ≡ false) ⊎ ((a.as_sapling ≡ false) × (a.as_orchard ≡ false)))
from_address-trim_transparent a t h = recipient_mask a.as_transparent a.as_sapling a.as_orchard t h
