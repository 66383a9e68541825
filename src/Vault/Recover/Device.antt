-- ===== src/Vault/Recover/Device.antt =====
-- A vault gives back its accounts to a device that was registered in it.
use mathlib.Core.List.{append-nil, append_assoc}
use zcash_sdk_kmp.Base.{
  ℕ, ◌≡◌, refl, sym, ap, ◌∙◌, subst, some, List, [], ◌∷◌, ◌++◌, length, All, All-append, arith,
  list_eq_refl,
}
use zcash_sdk_kmp.Base.Partial.{>>=-eq-some}
use zcash_sdk_kmp.Vault.Bytes.{ok}
use zcash_sdk_kmp.Vault.Entry.{
  LogEntry, IsEntry, init, add_device, account, write_entry, read_entry, read_entry-write_entry,
  length-write_entry,
}
use zcash_sdk_kmp.Vault.Log.{parse_entries, write_log}
use zcash_sdk_kmp.Vault.Log.Append.{parse_entries-write_log}
use zcash_sdk_kmp.Vault.Recover.{
  Crypto, RestoredAccount, Key, remember, values, protect_sk, decrypt_sk, derive_master_key,
  register_device, restore, deduped, decrypt_accounts, find_device, recover_with_prf,
}
use zcash_sdk_kmp.Vault.Recover.Newest.{added, IsNewest, added-IsNewest}
use zcash_sdk_kmp.Vault.Recover.RoundTrip.{
  Backup, IsCrypto, IsBackup, store_accounts, restorable, store_accounts-deduped,
  decrypt_sk-protect_sk,
}

write_log-append : (es fs : List LogEntry) → write_log (es ++ fs) ≡ write_log es ++ write_log fs
unfolding write_log
write_log-append [] fs = refl
write_log-append (e ∷ es) fs =
    ap (λ x. write_entry e ++ x) (write_log-append es fs)
    ∙ sym (append_assoc (write_entry e) (write_log es) (write_log fs))

module _ (c : Crypto) where
  -- The last entry is looked at first.
  find_device-last :
      (es : List LogEntry) (device_id key protected_sk sk : List ℕ)
      → decrypt_sk c key protected_sk ≡ some sk
      → find_device c device_id key (es ++ add_device device_id protected_sk ∷ []) ≡ some sk
  unfolding find_device
  find_device-last [] device_id key protected_sk sk e = rw (list_eq_refl device_id, e) refl
  find_device-last (init _ _ _ ∷ es) device_id key protected_sk sk e =
      find_device-last es device_id key protected_sk sk e
  find_device-last (add_device _ _ ∷ es) device_id key protected_sk sk e =
      rw (find_device-last es device_id key protected_sk sk e) refl
  find_device-last (account _ _ _ ∷ es) device_id key protected_sk sk e =
      find_device-last es device_id key protected_sk sk e

  -- A device's entry restores no account.
  deduped-device :
      (es : List LogEntry) (sk device_id protected_sk : List ℕ)
      (accounts : List (Key × RestoredAccount))
      → deduped c sk (es ++ add_device device_id protected_sk ∷ []) accounts
        ≡ deduped c sk es accounts
  unfolding deduped
  deduped-device [] sk device_id protected_sk accounts = refl
  deduped-device (e ∷ es) sk device_id protected_sk accounts =
      deduped-device es sk device_id protected_sk (remember (restore c sk e) accounts)

  module _ (law : IsCrypto c) where
    -- What `register_device` adds to a vault that the password opens.
    register_device-entry :
        (pk protected_sk salt password key sk device_id_str prf_output nonce bytes : List ℕ)
        → IsEntry (init pk protected_sk salt)
        → c.argon2 password salt ≡ some key
        → decrypt_sk c key protected_sk ≡ some sk
        → length nonce ≡ 12
        → register_device c
            (write_entry (init pk protected_sk salt))
            password
            device_id_str
            prf_output
            nonce
          ≡ some bytes
        → (p : List ℕ) × (bytes ≡ write_entry (add_device (c.ripemd160 device_id_str) p))
          × (length p ≡ 60)
          × (decrypt_sk c (c.prf_key prf_output) p ≡ some sk)
    unfolding register_device
    register_device-entry pk protected_sk salt password key sk id prf nonce bytes v argon opens n
          h =
        let first = init pk protected_sk salt in
        let read : read_entry (write_entry first) ≡ ok first [] =
          subst (λ bs. read_entry bs ≡ ok first []) (append-nil (write_entry first))
            (read_entry-write_entry first [] v) in
        let registered = rw (read, argon, opens) at h in
        let p = >>=-eq-some (protect_sk c (c.prf_key prf) nonce sk) _ registered in
        let d = decrypt_sk-protect_sk c law (c.prf_key prf) nonce sk p.0 n p.1 in
        (p.0, cc, d.0, d.1)

    -- A vault that was made under a password, to whose public key accounts were stored, and in which
    -- a device was registered with the password, is recovered by the device's PRF output: of the
    -- stored accounts whose entropy has words it gives, for each entropy and account index, one
    -- account, the newest and the first stored of equally new ones. The crates do what
    -- they document. Names have fewer than 65,429 bytes, the payloads are ones that can be written, the
    -- salt has 16 bytes, the secret key 32, every nonce 12 and the id's hash 20.
    pub recover_with_prf-register_device :
        (password salt sk nonce init_bytes account_bytes : List ℕ) (bs : List Backup)
        (device_id_str prf_output device_nonce device_bytes : List ℕ)
        → length salt ≡ 16
        → length sk ≡ 32
        → length nonce ≡ 12
        → length device_nonce ≡ 12
        → length (c.ripemd160 device_id_str) ≡ 20
        → All (IsBackup c) bs
        → derive_master_key c password salt sk nonce ≡ some init_bytes
        → store_accounts c (c.public_key sk) bs ≡ some account_bytes
        → register_device c init_bytes password device_id_str prf_output device_nonce
          ≡ some device_bytes
        → (accounts : List (Key × RestoredAccount)) × (recover_with_prf c
              (init_bytes ++ (account_bytes ++ device_bytes))
              device_id_str
              prf_output
            ≡ some (values accounts))
          × IsNewest (restorable c bs) accounts
    unfolding derive_master_key recover_with_prf decrypt_accounts write_log deduped find_device
    recover_with_prf-register_device password salt sk nonce init_bytes account_bytes bs id prf
          nonce' device_bytes s k n n' r v made stored registered =
        let (key, argon, made') = >>=-eq-some (c.argon2 password salt) _ made in
        let (protected_sk, protects, made'') = >>=-eq-some (protect_sk c key nonce sk) _ made' in
        let (size, opens) = decrypt_sk-protect_sk c law key nonce sk protected_sk n protects in
        let (es, bytes_es, valids, same) =
          store_accounts-deduped c law bs sk account_bytes v stored in
        let first : LogEntry = init (c.public_key sk) protected_sk salt in
        let valid : IsEntry first = (law.length-public_key sk, size, s) in
        let whole_init : init_bytes ≡ write_entry first = cc in
        let d =
          register_device-entry (c.public_key sk) protected_sk salt password key sk id prf nonce'
            device_bytes valid argon opens n'
            (subst (λ b. register_device c b password id prf nonce' ≡ some device_bytes) whole_init
              registered) in
        let device : LogEntry = add_device (c.ripemd160 id) d.0 in
        let log = first ∷ (es ++ device ∷ []) in
        let parsed : parse_entries (write_log log) ≡ some log =
          subst (λ bytes. parse_entries bytes ≡ some log) (append-nil (write_log log))
            (parse_entries-write_log log first 0
              (valid, All-append IsEntry es (device ∷ []) valids ((r, d.2), tt)) valid
              (omega (arith, length-write_entry first valid))) in
        let whole : init_bytes ++ (account_bytes ++ device_bytes) ≡ write_log log =
          let tail : device_bytes ≡ write_entry device ++ [] =
            d.1 ∙ sym (append-nil (write_entry device)) in
          ap (λ x. x ++ (account_bytes ++ device_bytes)) whole_init
          ∙ ap (λ x. write_entry first ++ (x ++ device_bytes)) bytes_es
          ∙ ap (λ x. write_entry first ++ (write_log es ++ x)) tail
          ∙ ap (λ x. write_entry first ++ x) (sym (write_log-append es (device ∷ []))) in
        (
          added (restorable c bs) [],
          rw
              (
                whole,
                parsed,
                find_device-last es (c.ripemd160 id) (c.prf_key prf) d.0 sk d.3,
                k,
                deduped-device es sk (c.ripemd160 id) d.0 [],
                same [],
              )
              refl,
          added-IsNewest (restorable c bs),
        )
