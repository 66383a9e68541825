-- ===== src/Vault/Payload.antt =====
-- rust/rlz/src/vault/crypto.rs: `AccountPayload`, the plaintext of an account entry. A name is its
-- UTF-8 bytes; which bytes are UTF-8 is a parameter.
use mathlib.Core.List.{append_assoc}
use zcash_sdk_kmp.Base.{
  ℕ, ◌+◌, ◌%◌, ◌^◌, ◌<◌, ◌≡◌, refl, Bool, true, false, not, List, ◌∷◌, ◌++◌, arith, length, ◌==◌,
  if◌then◌else◌, length-append,
}
use zcash_sdk_kmp.Vault.Bytes.{
  ok, Reader, ◌>>=◌, pure, fail, invalid_name, read_exact, read_u8, read_u16, read_u32, write_u16,
  write_u32, read_exact-append, read_u16-write_u16, read_u32-write_u32,
}

pub record AccountPayload : Type 0 where
  pub timestamp : ℕ
  pub name : List ℕ
  pub entropy : List ℕ
  pub aindex : ℕ
  pub use_internal : Bool
  pub birth_height : ℕ

-- `b as u8`
abbrev pub byte_of : Bool → ℕ
byte_of true = 1
byte_of false = 0

unfoldable pub write_payload : AccountPayload → List ℕ
write_payload p =
    write_u32 p.timestamp
    ++ (write_u16 (length p.name % 2 ^ 16)
        ++ (p.name
            ++ (p.entropy
                ++ (write_u32 p.aindex ++ (byte_of p.use_internal ∷ write_u32 p.birth_height)))))

module _ (is_utf8 : List ℕ → Bool) where
  -- `String::from_utf8(bytes)`
  abbrev pub from_utf8 : List ℕ → Reader (List ℕ)
  from_utf8 bytes = if is_utf8 bytes then pure bytes else fail invalid_name

  unfoldable pub read_payload : Reader AccountPayload
  read_payload = do
    timestamp ← read_u32
    name_len ← read_u16
    name_buf ← read_exact name_len
    name ← from_utf8 name_buf
    entropy ← read_exact 32
    aindex ← read_u32
    use_internal ← read_u8
    birth_height ← read_u32
    pure (record {
      timestamp = timestamp;
      name = name;
      entropy = entropy;
      aindex = aindex;
      use_internal = not (use_internal == 0);
      birth_height = birth_height;
    })

  -- The payloads that the program makes: UTF-8 names that a `u16` can measure, 32 bytes of entropy.
  pub record IsPayload (p : AccountPayload) : Type 0 where
    pub name_fits : length p.name < 65536
    pub utf8 : is_utf8 p.name ≡ true
    pub entropy_size : length p.entropy ≡ 32

  byte_lem : (b : Bool) → not (byte_of b == 0) ≡ b
  byte_lem true = refl
  byte_lem false = refl

  -- A payload with a name below 65,536 bytes is read back as it was written, and what follows it
  -- is left.
  pub read_payload-write_payload :
      (p : AccountPayload) (rest : List ℕ)
      → IsPayload p
      → read_payload (write_payload p ++ rest) ≡ ok p rest
  unfolding read_payload write_payload
  read_payload-write_payload p rest v =
      let wrap : length p.name % 2 ^ 16 ≡ length p.name = omega (arith, v.name_fits) in
      let tail : List ℕ =
        write_u32 p.aindex ++ (byte_of p.use_internal ∷ (write_u32 p.birth_height ++ rest)) in
      simp append_assoc (
        rw wrap (
          rw
            (
              ◌>>=◌,
              read_u32-write_u32 p.timestamp
                  (write_u16 (length p.name) ++ (p.name ++ (p.entropy ++ tail))),
            )
            (rw (◌>>=◌, read_u16-write_u16 (length p.name) (p.name ++ (p.entropy ++ tail)))
              (rw (◌>>=◌, read_exact-append (length p.name) p.name (p.entropy ++ tail) refl, v.utf8)
                (rw (◌>>=◌, read_exact-append 32 p.entropy tail v.entropy_size)
                  (rw
                    (
                      ◌>>=◌,
                      read_u32-write_u32 p.aindex
                          (byte_of p.use_internal ∷ (write_u32 p.birth_height ++ rest)),
                    )
                    (rw (
                      ◌>>=◌,
                      read_u32-write_u32 p.birth_height rest,
                      byte_lem p.use_internal,
                    ))))))))

pub length-write_payload :
    (p : AccountPayload) → length (write_payload p) ≡ 15 + length p.name + length p.entropy
unfolding write_payload write_u16 write_u32
length-write_payload p = omega (
  arith,
  length-append p.name
      (p.entropy ++ (write_u32 p.aindex ++ (byte_of p.use_internal ∷ write_u32 p.birth_height))),
  length-append p.entropy
      (write_u32 p.aindex ++ (byte_of p.use_internal ∷ write_u32 p.birth_height)),
)
