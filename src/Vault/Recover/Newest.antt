-- ===== src/Vault/Recover/Newest.antt =====
-- The accounts of a vault by their keys, described without the map that the recovery fills.
use zcash_sdk_kmp.Base.{
  ◌≡◌, refl, sym, ap, ◌∙◌, subst, Bool, true, false, ◌&&◌, Option, some, none, List, [], ◌∷◌, leb,
  ltb, ◌==◌, if◌then◌else◌, list_eq, list_eq_refl, list_eq→eq, ==_iff, &&-parts, Bool-cases, inl,
  inr, arith,
}
use zcash_sdk_kmp.Vault.Recover.{RestoredAccount, Key, newer, upsert, remember, key_eq}

abbrev pub is_key : Key → Key → Bool
is_key k j = list_eq k.0 j.0 && k.1 == j.1

abbrev pub account_at : Key → List (Key × RestoredAccount) → Option RestoredAccount
account_at j [] = none
account_at j (a ∷ accounts) =
    let rest = account_at j accounts in if is_key a.0 j then some a.1 else rest

-- No key stands twice.
abbrev pub AreDistinct : List (Key × RestoredAccount) → Type 0
AreDistinct [] = Unit
AreDistinct (a ∷ accounts) = (account_at a.0 accounts ≡ none) × AreDistinct accounts

-- The later one only when it is newer.
abbrev pub first_newest : RestoredAccount → Option RestoredAccount → RestoredAccount
first_newest a none = a
first_newest a (some b) = if leb b.timestamp a.timestamp then a else b

-- The newest account of a key among those that are stored in this order.
abbrev pub newest : Key → List (Key × RestoredAccount) → Option RestoredAccount
newest j [] = none
newest j (a ∷ stored) =
    let rest = newest j stored in if is_key a.0 j then some (first_newest a.1 rest) else rest

-- One account for each key that is stored, and it is the newest of its key.
pub record IsNewest (stored accounts : List (Key × RestoredAccount)) : Type 0 where
  pub distinct : AreDistinct accounts
  pub newest_at : (j : Key) → account_at j accounts ≡ newest j stored

-- The map to which accounts were added in their order.
abbrev pub added :
    List (Key × RestoredAccount) → List (Key × RestoredAccount) → List (Key × RestoredAccount)
added [] accounts = accounts
added (a ∷ stored) accounts = added stored (remember (some (a.0, a.1)) accounts)

is_key→eq : (k j : Key) → is_key k j ≡ true → k ≡ j
is_key→eq (e, i) (e', i') h =
    let p = &&-parts (list_eq e e') (i == i') h in
    let a : e ≡ e' = list_eq→eq e e' p.0 in let b : i ≡ i' = (==_iff i i').0 p.1 in cc

is_key_refl : (k : Key) → is_key k k ≡ true
is_key_refl k = rw (list_eq_refl k.0) ((==_iff k.1 k.1).1 refl)

newer-first_newest : (a b : RestoredAccount) → newer a b ≡ first_newest a (some b)
newer-first_newest a b = elim (Bool-cases (leb b.timestamp a.timestamp)) [
  | inl t ↦
      let not_less : ltb a.timestamp b.timestamp ≡ false = ground (arith, t) in
      rw (not_less, t) refl
  | inr f ↦ let less : ltb a.timestamp b.timestamp ≡ true = ground (arith, f) in rw (less, f) refl
]

-- What stands at a key, and then what is added later.
abbrev merged : Option RestoredAccount → Option RestoredAccount → Option RestoredAccount
merged none b = b
merged (some a) b = some (first_newest a b)

account_at-upsert :
    (k j : Key) (r : RestoredAccount) (accounts : List (Key × RestoredAccount))
    → account_at j (upsert k r accounts)
      ≡ (if is_key k j then merged (account_at j accounts) (some r) else account_at j accounts)
account_at-upsert k j r [] = elim (Bool-cases (is_key k j)) [
  | inl t ↦ rw t refl
  | inr f ↦ rw f refl
]
account_at-upsert k j r ((k', r') ∷ accounts) = elim (Bool-cases (key_eq k k')) [
  | inl t ↦
      let one : is_key k' j ≡ is_key k j = ap (λ x. is_key x j) (sym (is_key→eq k k' t)) in
      elim (Bool-cases (is_key k j)) [
        | inl g ↦ rw (t, g, one ∙ g) (ap some (newer-first_newest r' r))
        | inr g ↦ rw (t, g, one ∙ g) refl
      ]
  | inr f ↦ elim (Bool-cases (is_key k' j)) [
    | inl g ↦
        let apart : is_key k j ≡ false = subst (λ x. is_key k x ≡ false) (is_key→eq k' j g) f in
        rw (f, g, apart) refl
    | inr g ↦ rw (f, g) (account_at-upsert k j r accounts)
  ]
]

upsert-AreDistinct :
    (k : Key) (r : RestoredAccount) (accounts : List (Key × RestoredAccount))
    → AreDistinct accounts
    → AreDistinct (upsert k r accounts)
upsert-AreDistinct k r [] d = (refl, tt)
upsert-AreDistinct k r ((k', r') ∷ accounts) d = elim (Bool-cases (key_eq k k')) [
  | inl t ↦ rw t d
  | inr f ↦ rw f (account_at-upsert k k' r accounts ∙ rw f d.0, upsert-AreDistinct k r accounts d.1)
]

first_newest_assoc :
    (a b : RestoredAccount) (o : Option RestoredAccount)
    → first_newest (first_newest a (some b)) o ≡ first_newest a (some (first_newest b o))
first_newest_assoc a b none = refl
first_newest_assoc a b (some c) = elim (Bool-cases (leb b.timestamp a.timestamp)) [
  | inl ba ↦ elim (Bool-cases (leb c.timestamp b.timestamp)) [
    | inl cb ↦
        let ca : leb c.timestamp a.timestamp ≡ true = ground (arith, ba, cb) in
        rw (ba, cb, ca, ba) refl
    | inr bc ↦ rw (ba, bc) refl
  ]
  | inr ab ↦ elim (Bool-cases (leb c.timestamp b.timestamp)) [
    | inl cb ↦ rw (ab, cb, ab) refl
    | inr bc ↦
        let ac : leb c.timestamp a.timestamp ≡ false = ground (arith, ab, bc) in
        rw (ab, bc, ac) refl
  ]
]

merged-first_newest :
    (o : Option RestoredAccount) (r : RestoredAccount) (later : Option RestoredAccount)
    → merged (merged o (some r)) later ≡ merged o (some (first_newest r later))
merged-first_newest none r later = refl
merged-first_newest (some a) r later = ap some (first_newest_assoc a r later)

merged-none : (o : Option RestoredAccount) → merged o none ≡ o
merged-none none = refl
merged-none (some a) = refl

account_at-added :
    (j : Key) (stored accounts : List (Key × RestoredAccount))
    → account_at j (added stored accounts) ≡ merged (account_at j accounts) (newest j stored)
account_at-added j [] accounts = sym (merged-none (account_at j accounts))
account_at-added j ((k, r) ∷ stored) accounts =
    account_at-added j stored (upsert k r accounts)
    ∙ ap (λ o. merged o (newest j stored)) (account_at-upsert k j r accounts)
    ∙ elim (Bool-cases (is_key k j)) [
      | inl t ↦ rw t (merged-first_newest (account_at j accounts) r (newest j stored))
      | inr f ↦ rw f refl
    ]

added-AreDistinct :
    (stored accounts : List (Key × RestoredAccount))
    → AreDistinct accounts
    → AreDistinct (added stored accounts)
added-AreDistinct [] accounts d = d
added-AreDistinct ((k, r) ∷ stored) accounts d =
    added-AreDistinct stored (upsert k r accounts) (upsert-AreDistinct k r accounts d)

pub added-IsNewest : (stored : List (Key × RestoredAccount)) → IsNewest stored (added stored [])
added-IsNewest stored = record {
  distinct = added-AreDistinct stored [] tt;
  newest_at = λ j. account_at-added j stored [];
}
