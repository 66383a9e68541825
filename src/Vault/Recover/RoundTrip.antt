-- ===== src/Vault/Recover/RoundTrip.antt =====
-- A vault gives back the accounts that were stored in it.
use mathlib.Core.List.{append-nil}
use zcash_sdk_kmp.Base.{
  ℕ, ◌+◌, ◌<◌, ◌≡◌, refl, subst, Option, some, none, List, [], ◌∷◌, ◌++◌, length, take, drop, All,
  arith, length-append, take-length-append, drop-length-append,
}
use zcash_sdk_kmp.Base.Partial.{◌>>=◌, >>=-eq-some}
use zcash_sdk_kmp.Vault.Bytes.{ok}
use zcash_sdk_kmp.Vault.Payload.{
  AccountPayload, IsPayload, write_payload, read_payload, read_payload-write_payload,
  length-write_payload,
}
use zcash_sdk_kmp.Vault.Entry.{LogEntry, IsEntry, init, account, write_entry, length-write_entry}
use zcash_sdk_kmp.Vault.Log.{parse_entries, write_log}
use zcash_sdk_kmp.Vault.Log.Append.{parse_entries-write_log}
use zcash_sdk_kmp.Vault.Recover.Newest.{added, IsNewest, added-IsNewest}
use zcash_sdk_kmp.Vault.Recover.{
  Crypto, RestoredAccount, Key, remember, values, protect_sk, decrypt_sk, derive_master_key,
  encrypt_account, restore, deduped, decrypt_accounts, recover,
}

-- An account to store, with the draws for it.
pub record Backup : Type 0 where
  pub payload : AccountPayload
  pub ephemeral_sk : List ℕ
  pub nonce : List ℕ

module _ (c : Crypto) where
  -- What the crates document: a ciphertext is the text and a tag of 16 bytes and decrypts to the text,
  -- both sides agree on a secret, and keys have 32 bytes.
  pub record IsCrypto : Type 0 where
    pub decrypt-encrypt :
        (key nonce text ciphertext : List ℕ)
        → c.encrypt key nonce text ≡ some ciphertext
        → c.decrypt key nonce ciphertext ≡ some text
    pub length-encrypt :
        (key nonce text ciphertext : List ℕ)
        → c.encrypt key nonce text ≡ some ciphertext
        → length ciphertext ≡ length text + 16
    pub agreement :
        (a b : List ℕ) → c.diffie_hellman a (c.public_key b) ≡ c.diffie_hellman b (c.public_key a)
    pub length-public_key : (sk : List ℕ) → length (c.public_key sk) ≡ 32

  -- The append of a list of accounts.
  unfoldable pub store_accounts : List ℕ → List Backup → Option (List ℕ)
  store_accounts pk [] = some []
  store_accounts pk (b ∷ bs) = do
    entry ← encrypt_account c b.payload pk b.ephemeral_sk b.nonce
    rest ← store_accounts pk bs
    some (entry ++ rest)

  -- The account of a payload, with the words of its entropy.
  unfoldable pub restored : AccountPayload → List ℕ → Key × RestoredAccount
  restored p seed = (
    (p.entropy, p.aindex),
    record {
      timestamp = p.timestamp;
      name = p.name;
      seed = seed;
      aindex = p.aindex;
      use_internal = p.use_internal;
      birth_height = p.birth_height;
    },
  )

  -- What there is to restore of the accounts: those whose entropy has words.
  unfoldable pub restorable : List Backup → List (Key × RestoredAccount)
  restorable [] = []
  restorable (b ∷ bs) =
      let rest = restorable bs in
      elim (c.mnemonic b.payload.entropy) [
        | none ↦ rest
        | some seed ↦ restored b.payload seed ∷ rest
      ]

  -- A payload whose entry a `u16` can measure, and a nonce of 12 bytes.
  abbrev pub IsBackup : Backup → Type 0
  IsBackup b =
      IsPayload c.is_utf8 b.payload × (length b.payload.name < 65429) × (length b.nonce ≡ 12)

  module _ (law : IsCrypto) where
    encrypt_account-restore :
        (b : Backup) (sk bytes : List ℕ)
        → IsBackup b
        → encrypt_account c b.payload (c.public_key sk) b.ephemeral_sk b.nonce ≡ some bytes
        → (e : LogEntry) × (bytes ≡ write_entry e)
          × IsEntry e
          × (restore c sk e
              ≡ (do seed ← c.mnemonic b.payload.entropy; some (restored b.payload seed)))
    unfolding encrypt_account restored
    encrypt_account-restore b sk bytes v h =
        let (ct, e, e') =
          >>=-eq-some
            (c.encrypt (c.account_key (c.diffie_hellman b.ephemeral_sk (c.public_key sk))) b.nonce
              (write_payload b.payload))
            _ h in
        let size : length ct ≡ length (write_payload b.payload) + 16 =
          law.length-encrypt _ _ _ ct e in
        let fits : 44 + length ct < 65536 =
          omega (arith, length-write_payload b.payload, v.0.entropy_size) in
        let opened : c.decrypt (c.account_key (c.diffie_hellman sk (c.public_key b.ephemeral_sk)))
              b.nonce ct
            ≡ some (write_payload b.payload) =
          rw (law.agreement sk b.ephemeral_sk) (law.decrypt-encrypt _ _ _ ct e) in
        let read : read_payload c.is_utf8 (write_payload b.payload) ≡ ok b.payload [] =
          subst (λ bs. read_payload c.is_utf8 bs ≡ ok b.payload [])
            (append-nil (write_payload b.payload))
            (read_payload-write_payload c.is_utf8 b.payload [] v.0) in
        (
          account (c.public_key b.ephemeral_sk) b.nonce ct,
          cc,
          (law.length-public_key b.ephemeral_sk, v.2, fits),
          rw (opened, read) refl,
        )

    pub store_accounts-deduped :
        (bs : List Backup) (sk bytes : List ℕ)
        → All IsBackup bs
        → store_accounts (c.public_key sk) bs ≡ some bytes
        → (es : List LogEntry) × (bytes ≡ write_log es)
          × All IsEntry es
          × ((accounts : List (Key × RestoredAccount))
              → deduped c sk es accounts ≡ added (restorable bs) accounts)
    unfolding store_accounts write_log deduped restorable
    store_accounts-deduped [] sk bytes v h = ([], ground arith, tt, λ accounts. refl)
    store_accounts-deduped (b ∷ bs) sk bytes v h =
        let (entry, e, h') =
          >>=-eq-some (encrypt_account c b.payload (c.public_key sk) b.ephemeral_sk b.nonce) _ h in
        let (rest, later, h'') = >>=-eq-some (store_accounts (c.public_key sk) bs) _ h' in
        let (x, bytes_x, valid, restores) = encrypt_account-restore b sk entry v.0 e in
        let (es, bytes_es, valids, same) = store_accounts-deduped bs sk rest v.1 later in
        (
          x ∷ es,
          cc,
          (valid, valids),
          λ accounts. rw restores (by_seed accounts es same (c.mnemonic b.payload.entropy)),
        )
      where
        by_seed :
            (accounts : List (Key × RestoredAccount)) (es : List LogEntry)
            → ((accounts : List (Key × RestoredAccount))
                → deduped c sk es accounts ≡ added (restorable bs) accounts)
            → (seed : Option (List ℕ))
            → deduped c sk es
                (remember (seed >>= (λ seed. some (restored b.payload seed))) accounts)
              ≡ added
                  (elim seed [
                    | none ↦ restorable bs
                    | some seed ↦ restored b.payload seed ∷ restorable bs
                  ])
                  accounts
        by_seed accounts es same none = same accounts
        by_seed accounts es same (some seed) = same _

    pub decrypt_sk-protect_sk :
        (key nonce sk protected_sk : List ℕ)
        → length nonce ≡ 12
        → protect_sk c key nonce sk ≡ some protected_sk
        → (length protected_sk ≡ 60) × (decrypt_sk c key protected_sk ≡ some sk)
    unfolding protect_sk decrypt_sk
    decrypt_sk-protect_sk key nonce sk protected_sk n h =
        let (ct, e, h') = >>=-eq-some (c.encrypt key nonce sk) _ h in
        let fits : (length ct ≡ 48) × (protected_sk ≡ nonce ++ ct) = ground arith in
        (
          rw fits.1 (omega (arith, length-append nonce ct, n, fits.0)),
          rw
              (
                fits.1,
                decrypts (nonce ++ ct) nonce ct
                    (subst (λ m. take m (nonce ++ ct) ≡ nonce) n (take-length-append nonce ct))
                    (subst (λ m. drop m (nonce ++ ct) ≡ ct) n (drop-length-append nonce ct)),
              )
              (law.decrypt-encrypt key nonce sk ct e),
        )
      where
        decrypts :
            (all front back : List ℕ)
            → take 12 all ≡ front
            → drop 12 all ≡ back
            → c.decrypt key (take 12 all) (drop 12 all) ≡ c.decrypt key front back
        decrypts all front back t d = rw (t, d) refl

    -- A vault that was made under a password, and to whose public key accounts were stored, is
    -- recovered by the password: of the stored accounts whose entropy has words it gives, for each
    -- entropy and account index, one account, the newest and the first stored of equally new ones.
    -- The crates do what they document. Names have fewer than 65,429 bytes, the payloads are ones that
    -- can be written, the salt has 16 bytes, the secret key 32 and every nonce 12.
    pub recover-store_accounts :
        (password salt sk nonce init_bytes account_bytes : List ℕ) (bs : List Backup)
        → length salt ≡ 16
        → length sk ≡ 32
        → length nonce ≡ 12
        → All IsBackup bs
        → derive_master_key c password salt sk nonce ≡ some init_bytes
        → store_accounts (c.public_key sk) bs ≡ some account_bytes
        → (accounts : List (Key × RestoredAccount)) × (recover c
              (init_bytes ++ account_bytes)
              password
            ≡ some (values accounts))
          × IsNewest (restorable bs) accounts
    unfolding derive_master_key recover decrypt_accounts write_log deduped
    recover-store_accounts password salt sk nonce init_bytes account_bytes bs s k n v made stored =
        let (key, argon, made') = >>=-eq-some (c.argon2 password salt) _ made in
        let (protected_sk, protects, made'') = >>=-eq-some (protect_sk c key nonce sk) _ made' in
        let (size, opens) = decrypt_sk-protect_sk key nonce sk protected_sk n protects in
        let (es, bytes_es, valids, same) = store_accounts-deduped bs sk account_bytes v stored in
        let first : LogEntry = init (c.public_key sk) protected_sk salt in
        let parsed : parse_entries (write_entry first ++ write_log es) ≡ some (first ∷ es) =
          subst (λ bytes. parse_entries bytes ≡ some (first ∷ es))
            (append-nil (write_entry first ++ write_log es))
            (parse_entries-write_log (first ∷ es) first 0
              ((law.length-public_key sk, size, s), valids) (law.length-public_key sk, size, s)
              (omega (arith, length-write_entry first (law.length-public_key sk, size, s)))) in
        let whole : init_bytes ++ account_bytes ≡ write_entry first ++ write_log es = cc in
        (
          added (restorable bs) [],
          rw (whole, parsed, argon, opens, k, same []) refl,
          added-IsNewest (restorable bs),
        )
