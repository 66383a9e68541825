-- ===== src/Jni/Registry.antt =====
-- The registry of open wallets, rust/zcash-jni/src/registry.rs. A handle is an i64, by its bits; the
-- map is an association list. Each operation holds the lock from its first access to its last.
use zcash_sdk_kmp.Base.{ℕ, ◌+◌, ◌%◌, ◌^◌, ◌==◌, Option, none, some, List, [], ◌∷◌, if◌then◌else◌}
pub mod Refines

pub record Registry (C : Type 0) : Type 0 where
  pub next_handle : ℕ
  pub coins : List (ℕ × C)

module _ {C : Type 0} where
  abbrev pub lookup : ℕ → List (ℕ × C) → Option C
  lookup h [] = none
  lookup h (c ∷ cs) = let rest = lookup h cs in if c.0 == h then some c.1 else rest

  abbrev pub delete : ℕ → List (ℕ × C) → List (ℕ × C)
  delete h [] = []
  delete h (c ∷ cs) = let rest = delete h cs in if c.0 == h then rest else c ∷ rest

  abbrev pub change_at : ℕ → (C → C) → List (ℕ × C) → List (ℕ × C)
  change_at h f [] = []
  change_at h f (c ∷ cs) =
      let rest = change_at h f cs in if c.0 == h then (h, f c.1) ∷ cs else c ∷ rest

  unfoldable pub new : Registry C
  new = record { next_handle = 1; coins = [] }

  -- `fetch_add` wraps; the handle is its old value.
  unfoldable pub insert : C → Registry C → ℕ × Registry C
  insert coin r = (
    r.next_handle,
    record {
      next_handle = (r.next_handle + 1) % 2 ^ 64;
      coins = (r.next_handle, coin) ∷ delete r.next_handle r.coins;
    },
  )

  unfoldable pub get : ℕ → Registry C → Option C
  get handle r = lookup handle r.coins

  unfoldable pub update : ℕ → (C → C) → Registry C → Registry C
  update handle change r = record {
    next_handle = r.next_handle;
    coins = change_at handle change r.coins;
  }

  unfoldable pub remove : ℕ → Registry C → Registry C
  remove handle r = record { next_handle = r.next_handle; coins = delete handle r.coins }
