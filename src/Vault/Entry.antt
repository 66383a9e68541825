-- ===== src/Vault/Entry.antt =====
-- rust/rlz/src/vault/crypto.rs: `LogEntry`, one record of the vault.
use mathlib.Core.List.{append_assoc}
use zcash_sdk_kmp.Base.{
  ℕ, zero, suc, ◌+◌, ◌-◌, ◌%◌, ◌^◌, ◌<◌, ◌≡◌, refl, false, List, ◌∷◌, ◌++◌, arith, length, ltb,
  if◌then◌else◌, length-append,
}
use zcash_sdk_kmp.Vault.Bytes.{
  ok, Reader, ◌>>=◌, pure, fail, abort, invalid_tag, read_exact, read_u8, read_u16, write_u16,
  read_exact-append, read_u16-write_u16, length-write_u16,
}

pub data LogEntry : Type 0 where
  -- the public key, the secret key under the master key, and the salt
  init : List ℕ → List ℕ → List ℕ → LogEntry
  -- the device, and the secret key under its PRF key
  add_device : List ℕ → List ℕ → LogEntry
  -- the ephemeral public key, the nonce and the ciphertext
  account : List ℕ → List ℕ → List ℕ → LogEntry

unfoldable pub write_entry : LogEntry → List ℕ
write_entry (init pk protected_sk salt) = 0 ∷ (pk ++ (protected_sk ++ salt))
write_entry (add_device device_id protected_sk) = 1 ∷ (device_id ++ protected_sk)
write_entry (account ephemeral_pk nonce ciphertext) =
    2
    ∷ (write_u16 ((32 + 12 + length ciphertext) % 2 ^ 16)
        ++ (ephemeral_pk ++ (nonce ++ ciphertext)))

unfoldable pub read_init : Reader LogEntry
read_init = do
  pk ← read_exact 32
  master_key_protected_sk ← read_exact 60
  argon2_salt ← read_exact 16
  pure (init pk master_key_protected_sk argon2_salt)

unfoldable pub read_add_device : Reader LogEntry
read_add_device = do
  device_id ← read_exact 20
  prf_key_protected_sk ← read_exact 60
  pure (add_device device_id prf_key_protected_sk)

-- `payload_len - 32 - 12` on a `usize`: a length below 44 overflows, which panics, in a release
-- build in the allocation of the buffer.
unfoldable pub read_ciphertext : ℕ → Reader (List ℕ)
read_ciphertext payload_len =
    if ltb payload_len 44 then abort else read_exact (payload_len - 32 - 12)

unfoldable pub read_account : Reader LogEntry
read_account = do
  payload_len ← read_u16
  ephemeral_pk ← read_exact 32
  nonce ← read_exact 12
  ciphertext ← read_ciphertext payload_len
  pure (account ephemeral_pk nonce ciphertext)

abbrev pub read_tagged : ℕ → Reader LogEntry
read_tagged zero = read_init
read_tagged (suc zero) = read_add_device
read_tagged (suc (suc zero)) = read_account
read_tagged tag = fail (invalid_tag tag)

unfoldable pub read_entry : Reader LogEntry
read_entry = do tag ← read_u8; read_tagged tag

-- The field sizes of the arrays, and a ciphertext that the `u16` length can hold.
abbrev pub IsEntry : LogEntry → Type 0
IsEntry (init pk protected_sk salt) =
    (length pk ≡ 32) × (length protected_sk ≡ 60) × (length salt ≡ 16)
IsEntry (add_device device_id protected_sk) = (length device_id ≡ 20) × (length protected_sk ≡ 60)
IsEntry (account ephemeral_pk nonce ciphertext) =
    (length ephemeral_pk ≡ 32) × (length nonce ≡ 12) × (44 + length ciphertext < 65536)

read_ciphertext-append :
    (n : ℕ) (xs rest : List ℕ) → n ≡ 44 + length xs → read_ciphertext n (xs ++ rest) ≡ ok xs rest
unfolding read_ciphertext
read_ciphertext-append n xs rest e =
    let large : ltb n 44 ≡ false = ground arith in
    rw large (read_exact-append (n - 32 - 12) xs rest (omega arith))

-- An entry whose ciphertext is below 65,492 bytes is read back as it was written, and what follows
-- it is left.
pub read_entry-write_entry :
    (e : LogEntry) (rest : List ℕ) → IsEntry e → read_entry (write_entry e ++ rest) ≡ ok e rest
unfolding read_entry write_entry read_init read_add_device read_account
read_entry-write_entry (init pk protected_sk salt) rest v = simp append_assoc (
    rw (◌>>=◌, read_exact-append 32 pk (protected_sk ++ (salt ++ rest)) v.0)
      (rw (◌>>=◌, read_exact-append 60 protected_sk (salt ++ rest) v.1)
        (rw (◌>>=◌, read_exact-append 16 salt rest v.2))))
read_entry-write_entry (add_device device_id protected_sk) rest v = simp append_assoc (
    rw (◌>>=◌, read_exact-append 20 device_id (protected_sk ++ rest) v.0)
      (rw (◌>>=◌, read_exact-append 60 protected_sk rest v.1)))
read_entry-write_entry (account ephemeral_pk nonce ciphertext) rest v =
    let wrap : (32 + 12 + length ciphertext) % 2 ^ 16 ≡ 44 + length ciphertext =
      omega (arith, v.2) in
    simp append_assoc (
      rw wrap (
        rw
          (
            ◌>>=◌,
            read_u16-write_u16 (44 + length ciphertext)
                (ephemeral_pk ++ (nonce ++ (ciphertext ++ rest))),
          )
          (rw (◌>>=◌, read_exact-append 32 ephemeral_pk (nonce ++ (ciphertext ++ rest)) v.0)
            (rw (◌>>=◌, read_exact-append 12 nonce (ciphertext ++ rest) v.1)
              (rw (◌>>=◌, read_ciphertext-append (44 + length ciphertext) ciphertext rest refl))))))

-- The size of the frame that a tag and the bytes after it announce.
abbrev pub frame_of : LogEntry → ℕ
frame_of (init pk protected_sk salt) = 109
frame_of (add_device device_id protected_sk) = 81
frame_of (account ephemeral_pk nonce ciphertext) = 47 + length ciphertext

pub length-write_entry : (e : LogEntry) → IsEntry e → length (write_entry e) ≡ frame_of e
unfolding write_entry
length-write_entry (init pk sk salt) v =
    omega (arith, length-append pk (sk ++ salt), length-append sk salt, v.0, v.1, v.2)
length-write_entry (add_device id sk) v = omega (arith, length-append id sk, v.0, v.1)
length-write_entry (account epk nonce ct) v = omega (
  arith,
  length-append (write_u16 ((32 + 12 + length ct) % 2 ^ 16)) (epk ++ (nonce ++ ct)),
  length-write_u16 ((32 + 12 + length ct) % 2 ^ 16),
  length-append epk (nonce ++ ct),
  length-append nonce ct,
  v.0,
  v.1,
)
