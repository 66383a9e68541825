-- ===== src/Vault/Recover.antt =====
-- rust/rlz/src/vault/crypto.rs: the keys of a vault, the entries that are appended to it and the
-- recovery of the accounts from its bytes. The draws of `OsRng` are arguments. The nothing of a result
-- stands for an error. The values of the `HashMap`, which have no order, are in the order in which
-- the keys were first inserted.
pub mod Newest
pub mod RoundTrip
pub mod Device
use zcash_sdk_kmp.Base.{
  list_eq, ℕ, ◌+◌, ◌≡◌, Bool, true, false, ◌&&◌, Option, some, none, List, [], ◌∷◌, ◌++◌, map,
  length, take, drop, ltb, ◌==◌, if◌then◌else◌,
}
use zcash_sdk_kmp.Base.Partial.{◌>>=◌, ◌>>◌}
use zcash_sdk_kmp.Vault.Bytes.{Outcome, ok, err, panic}
use zcash_sdk_kmp.Vault.Payload.{AccountPayload, write_payload, read_payload}
use zcash_sdk_kmp.Vault.Entry.{LogEntry, init, add_device, account, read_entry, write_entry}
use zcash_sdk_kmp.Vault.Log.{parse_entries}

-- The crates that the vault calls. Every key, nonce and text is its bytes.
pub record Crypto : Type 0 where
  -- Argon2id, of a password and a salt
  pub argon2 : List ℕ → List ℕ → Option (List ℕ)
  -- ChaCha20-Poly1305, of a key, a nonce and a text
  pub encrypt : List ℕ → List ℕ → List ℕ → Option (List ℕ)
  pub decrypt : List ℕ → List ℕ → List ℕ → Option (List ℕ)
  -- X25519
  pub public_key : List ℕ → List ℕ
  pub diffie_hellman : List ℕ → List ℕ → List ℕ
  -- BLAKE2b with the two personalizations, of the PRF output and of the shared secret
  pub prf_key : List ℕ → List ℕ
  pub account_key : List ℕ → List ℕ
  pub ripemd160 : List ℕ → List ℕ
  -- the words of an entropy
  pub mnemonic : List ℕ → Option (List ℕ)
  pub is_utf8 : List ℕ → Bool

pub record RestoredAccount : Type 0 where
  pub timestamp : ℕ
  pub name : List ℕ
  pub seed : List ℕ
  pub aindex : ℕ
  pub use_internal : Bool
  pub birth_height : ℕ

-- What the `HashMap` is indexed by: the entropy and the account index.
abbrev pub Key : Type 0
Key = List ℕ × ℕ

abbrev pub key_eq : Key → Key → Bool
key_eq k k' = list_eq k.0 k'.0 && k.1 == k'.1

-- The account of a key gives way to one with a larger timestamp.
abbrev pub newer : RestoredAccount → RestoredAccount → RestoredAccount
newer existing restored = if ltb existing.timestamp restored.timestamp then restored else existing

abbrev pub upsert :
    Key → RestoredAccount → List (Key × RestoredAccount) → List (Key × RestoredAccount)
upsert k r [] = (k, r) ∷ []
upsert k r ((k', r') ∷ accounts) =
    if key_eq k k' then (k', newer r' r) ∷ accounts else (k', r') ∷ upsert k r accounts

abbrev pub remember :
    Option (Key × RestoredAccount) → List (Key × RestoredAccount) → List (Key × RestoredAccount)
remember none accounts = accounts
remember (some (k, r)) accounts = upsert k r accounts

abbrev pub value_of : {A : Type 0} → Outcome A → Option A
value_of (ok a _) = some a
value_of (err _) = none
value_of panic = none

abbrev pub values : List (Key × RestoredAccount) → List RestoredAccount
values accounts = map (λ (a : Key × RestoredAccount). a.1) accounts

-- The first `Init` entry: the protected secret key and the salt.
abbrev pub find_init : List LogEntry → Option (List ℕ × List ℕ)
find_init [] = none
find_init (init pk protected_sk salt ∷ es) = some (protected_sk, salt)
find_init (_ ∷ es) = find_init es

abbrev pub or_else : {A : Type 0} → Option A → Option A → Option A
or_else none b = b
or_else (some a) b = some a

module _ (c : Crypto) where
  -- A nonce and 48 bytes of ciphertext, as the 60 bytes that protect a secret key.
  unfoldable pub protect_sk : List ℕ → List ℕ → List ℕ → Option (List ℕ)
  protect_sk key nonce sk = do
    ciphertext ← c.encrypt key nonce sk
    if length ciphertext == 48 then some (nonce ++ ciphertext) else none

  unfoldable pub decrypt_sk : List ℕ → List ℕ → Option (List ℕ)
  decrypt_sk key protected_sk = c.decrypt key (take 12 protected_sk) (drop 12 protected_sk)

  unfoldable pub derive_master_key : List ℕ → List ℕ → List ℕ → List ℕ → Option (List ℕ)
  derive_master_key password salt sk nonce = do
    master_key ← c.argon2 password salt
    master_key_protected_sk ← protect_sk master_key nonce sk
    some (write_entry (init (c.public_key sk) master_key_protected_sk salt))

  -- What `register_device` takes from the entry it reads.
  abbrev pub expect_init : Outcome LogEntry → Option (List ℕ × List ℕ)
  expect_init (ok (init pk protected_sk salt) _) = some (protected_sk, salt)
  expect_init _ = none

  unfoldable pub register_device : List ℕ → List ℕ → List ℕ → List ℕ → List ℕ → Option (List ℕ)
  register_device init_bytes password device_id_str prf_output nonce = do
    (master_key_protected_sk, salt) ← expect_init (read_entry init_bytes)
    master_key ← c.argon2 password salt
    sk_bytes ← decrypt_sk master_key master_key_protected_sk
    prf_key_protected_sk ← protect_sk (c.prf_key prf_output) nonce sk_bytes
    some (write_entry (add_device (c.ripemd160 device_id_str) prf_key_protected_sk))

  unfoldable pub encrypt_account : AccountPayload → List ℕ → List ℕ → List ℕ → Option (List ℕ)
  encrypt_account p pk ephemeral_sk nonce = do
    ciphertext ←
        c.encrypt (c.account_key (c.diffie_hellman ephemeral_sk pk)) nonce (write_payload p)
    some (write_entry (account (c.public_key ephemeral_sk) nonce ciphertext))

  -- One round of the loop of `decrypt_accounts`, up to the map.
  abbrev pub restore : List ℕ → LogEntry → Option (Key × RestoredAccount)
  restore sk (account ephemeral_pk nonce ciphertext) = do
    plaintext ← c.decrypt (c.account_key (c.diffie_hellman sk ephemeral_pk)) nonce ciphertext
    p ← value_of (read_payload c.is_utf8 plaintext)
    seed ← c.mnemonic p.entropy
    some (
      (p.entropy, p.aindex),
      record {
        timestamp = p.timestamp;
        name = p.name;
        seed = seed;
        aindex = p.aindex;
        use_internal = p.use_internal;
        birth_height = p.birth_height;
      },
    )
  restore sk (init _ _ _) = none
  restore sk (add_device _ _) = none

  unfoldable pub deduped :
      List ℕ → List LogEntry → List (Key × RestoredAccount) → List (Key × RestoredAccount)
  deduped sk [] accounts = accounts
  deduped sk (e ∷ es) accounts = deduped sk es (remember (restore sk e) accounts)

  unfoldable pub decrypt_accounts : List LogEntry → List ℕ → Option (List RestoredAccount)
  decrypt_accounts entries sk_bytes =
      if length sk_bytes == 32 then some (values (deduped sk_bytes entries [])) else none

  unfoldable pub recover : List ℕ → List ℕ → Option (List RestoredAccount)
  recover vault_bytes password = do
    entries ← parse_entries vault_bytes
    (master_key_protected_sk, salt) ← find_init entries
    master_key ← c.argon2 password salt
    sk_bytes ← decrypt_sk master_key master_key_protected_sk
    decrypt_accounts entries sk_bytes

  -- The latest entry of the device whose secret key is decrypted.
  unfoldable pub find_device : List ℕ → List ℕ → List LogEntry → Option (List ℕ)
  find_device device_id key [] = none
  find_device device_id key (add_device did protected_sk ∷ es) =
      or_else (find_device device_id key es)
        (if list_eq did device_id then decrypt_sk key protected_sk else none)
  find_device device_id key (_ ∷ es) = find_device device_id key es

  unfoldable pub recover_with_prf : List ℕ → List ℕ → List ℕ → Option (List RestoredAccount)
  recover_with_prf vault_bytes device_id_str prf_output = do
    entries ← parse_entries vault_bytes
    sk_bytes ← find_device (c.ripemd160 device_id_str) (c.prf_key prf_output) entries
    decrypt_accounts entries sk_bytes
