-- ===== src/Vault/Log/Safe.antt =====
-- A frame of the size that its tag announces is read without a panic.
use zcash_sdk_kmp.Base.{
  ℕ, zero, suc, ◌+◌, ◌*◌, ◌-◌, ◌<◌, ◌≤◌, ◌≡◌, refl, false, List, [], ◌∷◌, arith, length, ltb,
  length-drop,
}
use zcash_sdk_kmp.Vault.Bytes.{Outcome, ok, err, panic, Reader, read_u16, pure, ◌>>=◌, read_exact}
use zcash_sdk_kmp.Vault.Entry.{
  account, read_entry, read_init, read_account, read_add_device, read_ciphertext,
}
use zcash_sdk_kmp.Vault.Log.{sized, frame_size}

-- A read that ends with a value or an error.
abbrev pub IsSafe : {A : Type 0} → Outcome A → Type 0
IsSafe (ok _ _) = Unit
IsSafe (err _) = Unit
IsSafe panic = ⊥

-- A chain is safe when its first read is, and the rest is after what that reads.
bind-IsSafe :
    {A B : Type 0} (m : Reader A) (f : A → Reader B) (bs : List ℕ)
    → IsSafe (m bs)
    → ((a : A) (rest : List ℕ) → m bs ≡ ok a rest → IsSafe (f a rest))
    → IsSafe ((m >>= f) bs)
bind-IsSafe {A} {B} m f bs safe later = from (m bs) safe later
  where
    from :
        (o : Outcome A)
        → IsSafe o
        → ((a : A) (rest : List ℕ) → o ≡ ok a rest → IsSafe (f a rest))
        → IsSafe (elim o [ ok a rest ↦ f a rest | err e ↦ err e | panic ↦ panic ])
    from (ok a rest) s h = h a rest refl
    from (err e) s h = tt
    from panic s h = s

read_exact-IsSafe : (n : ℕ) (bs : List ℕ) → IsSafe (read_exact n bs)
unfolding read_exact
read_exact-IsSafe n bs = ground arith

read_exact-leaves :
    (n : ℕ) (bs xs rest : List ℕ) → read_exact n bs ≡ ok xs rest → n + length rest ≡ length bs
unfolding read_exact
read_exact-leaves n bs xs rest e = ground (arith, length-drop n bs)

read_ciphertext-IsSafe : (n : ℕ) (bs : List ℕ) → 44 ≤ n → IsSafe (read_ciphertext n bs)
unfolding read_ciphertext
read_ciphertext-IsSafe n bs h =
    let large : ltb n 44 ≡ false = ground arith in rw large (read_exact-IsSafe (n - 32 - 12) bs)

read_account-IsSafe :
    (hi lo : ℕ) (bs : List ℕ) → length bs ≤ hi * 256 + lo → IsSafe (read_account (hi ∷ lo ∷ bs))
unfolding read_account read_u16
read_account-IsSafe hi lo bs h =
    bind-IsSafe (read_exact 32)
      (λ ephemeral_pk. read_exact 12 >>= (λ nonce.
        read_ciphertext (hi * 256 + lo)
        >>= (λ ciphertext. pure (account ephemeral_pk nonce ciphertext))))
      bs (read_exact-IsSafe 32 bs)
      (λ ephemeral_pk rest e.
        bind-IsSafe (read_exact 12)
          (λ nonce.
            read_ciphertext (hi * 256 + lo)
            >>= (λ ciphertext. pure (account ephemeral_pk nonce ciphertext)))
          rest (read_exact-IsSafe 12 rest)
          (λ nonce last e'.
            bind-IsSafe (read_ciphertext (hi * 256 + lo))
              (λ ciphertext. pure (account ephemeral_pk nonce ciphertext)) last
              (read_ciphertext-IsSafe (hi * 256 + lo) last (
                omega
                  (arith, read_exact-leaves 32 bs _ rest e, read_exact-leaves 12 rest _ last e')))
              (λ ct end e''. tt)))

read_exact-bind-IsSafe :
    {A : Type 0} (n : ℕ) (f : List ℕ → Reader A) (bs : List ℕ)
    → ((xs rest : List ℕ) → IsSafe (f xs rest))
    → IsSafe ((read_exact n >>= f) bs)
read_exact-bind-IsSafe n f bs h =
    bind-IsSafe (read_exact n) f bs (read_exact-IsSafe n bs) (λ xs rest e. h xs rest)

pub read_entry-IsSafe :
    (tag size : ℕ) (bs : List ℕ)
    → frame_size tag bs ≡ sized size
    → length bs < size
    → IsSafe (read_entry (tag ∷ bs))
unfolding read_entry read_init read_add_device
read_entry-IsSafe zero size bs e h = read_exact-bind-IsSafe 32 _ bs (λ pk r.
    read_exact-bind-IsSafe 60 _ r (λ sk r'. read_exact-bind-IsSafe 16 _ r' (λ salt r''. tt)))
read_entry-IsSafe (suc zero) size bs e h =
    read_exact-bind-IsSafe 20 _ bs (λ pk r. read_exact-bind-IsSafe 60 _ r (λ sk r'. tt))
read_entry-IsSafe (suc (suc zero)) size [] e h = ground arith
read_entry-IsSafe (suc (suc zero)) size (hi ∷ []) e h = ground arith
read_entry-IsSafe (suc (suc zero)) size (hi ∷ lo ∷ bs) e h =
    read_account-IsSafe hi lo bs (ground arith)
read_entry-IsSafe (suc (suc (suc tag))) size bs e h = tt
