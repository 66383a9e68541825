-- ===== src/Sync/Rewind/Heights.antt =====
-- The largest height of the rows that pass a test, and rows that are searched after a DELETE.
use zcash_sdk_kmp.Base.{
  ℕ, ◌≤◌, ◌≡◌, refl, ap, max, Bool, true, false, ◌&&◌, ◌||◌, Option, none, some, List, [], ◌∷◌, map,
  ltb, ◌==◌, ==_iff, arith, inl, inr, Bool-cases,
}
use zcash_sdk_kmp.Store.{filter}
use zcash_sdk_kmp.Sync.Tables.{any, max_height, delete}
use zcash_sdk_kmp.Sync.Rewind.Owed.{any-some}

-- The largest height is that of a row that passes the test.
pub max_height-some :
    {A : Type 0} (height : A → ℕ) (p : A → Bool) (xs : List A) (h : ℕ)
    → max_height (map height (filter p xs)) ≡ some h
    → any (λ x. p x && height x == h) xs ≡ true
max_height-some height p [] h e = cc
max_height-some height p (x ∷ xs) h e = elim (Bool-cases (p x)) [
  | inl t ↦
      rw t (go (max_height (map height (filter p xs))) (max_height-some height p xs) (rw t at e))
  | inr f ↦ rw f (max_height-some height p xs h (rw f at e))
]
  where
    go :
        (o : Option ℕ)
        → ((k : ℕ) → o ≡ some k → any (λ y. p y && height y == k) xs ≡ true)
        → some (elim o as (λ _. ℕ) [ none ↦ height x | some m ↦ max (height x) m ]) ≡ some h
        → (height x == h || any (λ y. p y && height y == h) xs) ≡ true
    go none k e = let same : height x ≡ h = cc in rw ((==_iff (height x) h).1 same) refl
    go (some m) k e =
        let top : max (height x) m ≡ h = cc in
        elim (Bool-cases (height x == h)) [
          | inl t ↦ rw t refl
          | inr f ↦ let at : m ≡ h = ground arith in rw f (k h (ap some at))
        ]

-- The largest height, if there is one, is at most k.
abbrev pub IsTop : ℕ → Option ℕ → Type 0
IsTop k none = Unit
IsTop k (some h) = h ≤ k

-- No row that passes the test is above what the largest height is at most.
pub max_height-IsTop :
    {A : Type 0} (height : A → ℕ) (p : A → Bool) (xs : List A) (k : ℕ)
    → IsTop k (max_height (map height (filter p xs)))
    → any (λ x. p x && ltb k (height x)) xs ≡ false
max_height-IsTop height p [] k t = refl
max_height-IsTop height p (x ∷ xs) k t = elim (Bool-cases (p x)) [
  | inl e ↦
      rw e (go (max_height (map height (filter p xs))) (max_height-IsTop height p xs k) (rw e at t))
  | inr e ↦ rw e (max_height-IsTop height p xs k (rw e at t))
]
  where
    go :
        (o : Option ℕ)
        → (IsTop k o → any (λ y. p y && ltb k (height y)) xs ≡ false)
        → elim o as (λ _. ℕ) [ none ↦ height x | some m ↦ max (height x) m ] ≤ k
        → (ltb k (height x) || any (λ y. p y && ltb k (height y)) xs) ≡ false
    go none f t = let low : ltb k (height x) ≡ false = ground (arith, t) in rw (low, f tt) refl
    go (some m) f t =
        let low : ltb k (height x) ≡ false = ground (arith, t) in
        rw (low, f (omega (arith, t))) refl

pub any-none :
    {A : Type 0} (p q : A → Bool) (xs : List A)
    → ((x : A) → q x ≡ true → p x ≡ true)
    → any p xs ≡ false
    → any q xs ≡ false
any-none p q xs h e = elim (Bool-cases (any q xs)) [
  | inl t ↦ let some_p : any p xs ≡ true = any-some q p xs h t in cc
  | inr f ↦ f
]

-- There is a largest height when some row passes the test.
pub max_height-any :
    {A : Type 0} (height : A → ℕ) (p : A → Bool) (xs : List A)
    → any p xs ≡ true
    → (h : ℕ) × (max_height (map height (filter p xs)) ≡ some h)
max_height-any height p [] e = cc
max_height-any height p (x ∷ xs) e = elim (Bool-cases (p x)) [
  | inl t ↦ rw t (_, refl)
  | inr f ↦ rw f (max_height-any height p xs (rw f at e))
]

-- A row that is not deleted is found afterwards.
pub any-delete_other :
    {A : Type 0} (p d : A → Bool) (xs : List A)
    → ((x : A) → p x ≡ true → d x ≡ false)
    → any p xs ≡ true
    → any p (delete d xs) ≡ true
any-delete_other p d [] h e = cc
any-delete_other p d (x ∷ xs) h e = elim (Bool-cases (p x)) [
  | inl t ↦ rw (h x t, t) refl
  | inr f ↦ elim (Bool-cases (d x)) [
    | inl s ↦ rw s (any-delete_other p d xs h (rw f at e))
    | inr s ↦ rw (s, f) (any-delete_other p d xs h (rw f at e))
  ]
]

pub any-exists :
    {A : Type 0} (p : A → Bool) (xs : List A) → any p xs ≡ true → (x : A) × (p x ≡ true)
any-exists p [] e = cc
any-exists p (x ∷ xs) e = elim (Bool-cases (p x)) [
  | inl t ↦ (x, t)
  | inr f ↦ any-exists p xs (rw f at e)
]
