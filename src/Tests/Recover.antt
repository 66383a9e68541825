-- ===== src/Tests/Recover.antt =====
-- A vault under crates that are replaced by functions with their documented behaviour, and its
-- recovery.
use zcash_sdk_kmp.Base.{
  ℕ, ◌+◌, ◌-◌, ◌≡◌, refl, sym, ap, subst, true, some, List, [], ◌∷◌, ◌++◌, arith, replicate, take,
  length, length-append, take-length-append,
}
use zcash_sdk_kmp.Vault.Bytes.{read_exact, write_u16, write_u32}
use zcash_sdk_kmp.Vault.Payload.{write_payload}
use zcash_sdk_kmp.Vault.Entry.{write_entry, read_entry, read_init}
use zcash_sdk_kmp.Vault.Recover.{
  Crypto, derive_master_key, protect_sk, decrypt_sk, encrypt_account, register_device, recover,
  recover_with_prf, values, Key, RestoredAccount,
}
use zcash_sdk_kmp.Vault.Recover.Device.{recover_with_prf-register_device}
use zcash_sdk_kmp.Vault.Recover.Newest.{IsNewest}
use zcash_sdk_kmp.Vault.Recover.RoundTrip.{
  Backup, IsCrypto, store_accounts, restorable, recover-store_accounts,
}

-- The tag is sixteen zeros, and the public keys and shared secrets are constant.
abbrev plain : Crypto
plain = record {
  argon2 = λ password salt. some (password ++ salt);
  encrypt = λ key nonce text. some (text ++ replicate 16 0);
  decrypt = λ key nonce ciphertext. some (take (length ciphertext - 16) ciphertext);
  public_key = λ sk. replicate 32 9;
  diffie_hellman = λ a b. [];
  prf_key = λ prf. prf;
  account_key = λ secret. secret;
  ripemd160 = λ id. replicate 20 4;
  mnemonic = λ entropy. some (1 ∷ entropy);
  is_utf8 = λ name. true;
}

plain-IsCrypto : IsCrypto plain
plain-IsCrypto = record {
  decrypt-encrypt = λ key nonce text ct e.
      let whole : text ++ replicate 16 0 ≡ ct = cc in
      let size : length (text ++ replicate 16 0) - 16 ≡ length text =
        omega (arith, length-append text (replicate 16 0)) in
      subst (λ ct. plain.decrypt key nonce ct ≡ some text) whole
        (subst (λ n. some (take n (text ++ replicate 16 0)) ≡ some text) (sym size)
          (ap some (take-length-append text (replicate 16 0))));
  length-encrypt = λ key nonce text ct e.
      let whole : text ++ replicate 16 0 ≡ ct = cc in
      subst (λ ct. length ct ≡ length text + 16) whole (length-append text (replicate 16 0));
  agreement = λ a b. refl;
  length-public_key = λ sk. refl;
}

abbrev old : Backup
old = record {
  payload = record {
    timestamp = 5;
    name = 65 ∷ [];
    entropy = replicate 32 7;
    aindex = 0;
    use_internal = true;
    birth_height = 100;
  };
  ephemeral_sk = replicate 32 1;
  nonce = replicate 12 1;
}

-- The same account, stored again later.
abbrev renamed : Backup
renamed = record {
  payload = record {
    timestamp = 8;
    name = 66 ∷ [];
    entropy = replicate 32 7;
    aindex = 0;
    use_internal = true;
    birth_height = 100;
  };
  ephemeral_sk = replicate 32 2;
  nonce = replicate 12 2;
}

abbrev vault_init : List ℕ
vault_init =
    0
    ∷ (replicate 32 9 ++ ((replicate 12 3 ++ (replicate 32 6 ++ replicate 16 0)) ++ replicate 16 8))

abbrev entry_of : Backup → List ℕ
entry_of b =
    2 ∷ 0 ∷ 108 ∷ (replicate 32 9 ++ (b.nonce ++ (write_payload b.payload ++ replicate 16 0)))

recover-store_accounts_example :
    (accounts : List (Key × RestoredAccount)) × (recover plain
        (vault_init ++ (entry_of old ++ (entry_of renamed ++ [])))
        (5 ∷ [])
      ≡ some (values accounts))
    × IsNewest (restorable plain (old ∷ renamed ∷ [])) accounts
unfolding derive_master_key protect_sk encrypt_account store_accounts write_entry write_u16
    write_u32 write_payload
recover-store_accounts_example =
    recover-store_accounts plain plain-IsCrypto (5 ∷ []) (replicate 16 8) (replicate 32 6)
      (replicate 12 3) vault_init (entry_of old ++ (entry_of renamed ++ [])) (old ∷ renamed ∷ [])
      refl refl refl
      (
        (record { name_fits = omega arith; utf8 = refl; entropy_size = refl }, omega arith, refl),
        (
          (record { name_fits = omega arith; utf8 = refl; entropy_size = refl }, omega arith, refl),
          tt,
        ),
      )
      refl refl

-- A device whose PRF output protects the secret key.
abbrev device_entry : List ℕ
device_entry = 1 ∷ (replicate 20 4 ++ (replicate 12 5 ++ (replicate 32 6 ++ replicate 16 0)))

recover_with_prf-register_device_example :
    (accounts : List (Key × RestoredAccount)) × (recover_with_prf plain
        (vault_init ++ ((entry_of old ++ []) ++ device_entry))
        (3 ∷ [])
        (8 ∷ [])
      ≡ some (values accounts))
    × IsNewest (restorable plain (old ∷ [])) accounts
unfolding derive_master_key protect_sk encrypt_account store_accounts write_entry write_u16
    write_u32 write_payload register_device decrypt_sk read_entry read_init read_exact
recover_with_prf-register_device_example =
    recover_with_prf-register_device plain plain-IsCrypto (5 ∷ []) (replicate 16 8) (replicate 32 6)
      (replicate 12 3) vault_init (entry_of old ++ []) (old ∷ []) (3 ∷ []) (8 ∷ []) (replicate 12 5)
      device_entry refl refl refl refl refl
      (
        (record { name_fits = omega arith; utf8 = refl; entropy_size = refl }, omega arith, refl),
        tt,
      )
      refl refl refl
