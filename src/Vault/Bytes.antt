-- ===== src/Vault/Bytes.antt =====
-- The readers and writers of the `byteorder` crate and of `std::io::Read` on a slice of bytes.
use zcash_sdk_kmp.Base.{
  ℕ, ◌+◌, ◌*◌, ◌/◌, ◌%◌, ◌<◌, ◌≡◌, refl, ap, true, List, [], ◌∷◌, ◌++◌, arith, leb, if◌then◌else◌,
  length, take, drop, length-append, take-length-append, drop-length-append, le→leb,
}

pub data Error : Type 0 where
  -- an unexpected end of the input
  eof : Error
  invalid_name : Error
  invalid_tag : ℕ → Error

-- What a read ends with: a value and the rest of the input, an error, or a panic.
pub data Outcome {ℓ} (A : Type ℓ) : Type ℓ where
  ok : A → List ℕ → Outcome A
  err : Error → Outcome A
  panic : Outcome A

abbrev pub Reader {ℓ} : Type ℓ → Type ℓ
Reader A = List ℕ → Outcome A

infixl 5 ◌>>=◌ ◌>>◌
abbrev pub ◌>>=◌ {ℓ κ} : {A : Type ℓ} {B : Type κ} → Reader A → (A → Reader B) → Reader B
◌>>=◌ m f bs = elim (m bs) [ ok a rest ↦ f a rest | err e ↦ err e | panic ↦ panic ]

abbrev pub ◌>>◌ {ℓ κ} : {A : Type ℓ} {B : Type κ} → Reader A → Reader B → Reader B
m >> k = m >>= λ _. k

module _ {ℓ} {A : Type ℓ} where
  abbrev pub pure : A → Reader A
  pure a bs = ok a bs

  abbrev pub fail : Error → Reader A
  fail e bs = err e

  abbrev pub abort : Reader A
  abort bs = panic

unfoldable pub read_exact : ℕ → Reader (List ℕ)
read_exact n bs = if leb n (length bs) then ok (take n bs) (drop n bs) else err eof

abbrev pub read_u8 : Reader ℕ
read_u8 [] = err eof
read_u8 (b ∷ bs) = ok b bs

unfoldable pub read_u16 : Reader ℕ
read_u16 = do hi ← read_u8; lo ← read_u8; pure (hi * 256 + lo)

unfoldable pub read_u32 : Reader ℕ
read_u32 = do hi ← read_u16; lo ← read_u16; pure (hi * 65536 + lo)

unfoldable pub write_u16 : ℕ → List ℕ
write_u16 v = (v / 256) ∷ (v % 256) ∷ []

unfoldable pub write_u32 : ℕ → List ℕ
write_u32 v = write_u16 (v / 65536) ++ write_u16 (v % 65536)

-- Reading back what was written leaves the rest.
pub read_exact-append :
    (n : ℕ) (xs rest : List ℕ) → length xs ≡ n → read_exact n (xs ++ rest) ≡ ok xs rest
unfolding read_exact
read_exact-append n xs rest e =
    let fits : leb n (length (xs ++ rest)) ≡ true =
      le→leb n (length (xs ++ rest)) (omega (arith, e, length-append xs rest)) in
    rw (fits, ← e) (rw (take-length-append xs rest, drop-length-append xs rest))

pub read_u16-write_u16 : (v : ℕ) (rest : List ℕ) → read_u16 (write_u16 v ++ rest) ≡ ok v rest
unfolding read_u16 write_u16
read_u16-write_u16 v rest = ap (λ (n : ℕ). ok n rest) (omega arith)

pub read_u32-write_u32 : (v : ℕ) (rest : List ℕ) → read_u32 (write_u32 v ++ rest) ≡ ok v rest
unfolding read_u32 write_u32 read_u16 write_u16
read_u32-write_u32 v rest = ap (λ (n : ℕ). ok n rest) (omega arith)

pub length-write_u16 : (v : ℕ) → length (write_u16 v) ≡ 2
unfolding write_u16
length-write_u16 v = refl

-- A read past the end of the input fails.
pub read_exact-short : (n : ℕ) (bs : List ℕ) → length bs < n → read_exact n bs ≡ err eof
unfolding read_exact
read_exact-short n bs h = ground arith
