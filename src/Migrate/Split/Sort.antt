-- ===== src/Migrate/Split/Sort.antt =====
-- The sort of `plan_split`: descending, and a permutation of its input.
use mathlib.Core.List.Perm
use mathlib.Core.List.{Perm}
use zcash_sdk_kmp.Base.{
  ℕ, ◌≤◌, ◌≡◌, refl, List, [], ◌∷◌, arith, ltb, All, Bool-cases, inl, inr, length, suc, ap, ◌∙◌,
}
use zcash_sdk_kmp.Migrate.Split.{insert_desc, sort_desc}

-- Each entry is at least every later one.
abbrev pub IsDescending : List ℕ → Type 0
IsDescending [] = Unit
IsDescending (x ∷ xs) = All (λ y. y ≤ x) xs × IsDescending xs

insert_desc-perm : (v : ℕ) (xs : List ℕ) → Perm (insert_desc v xs) (v ∷ xs)
unfolding insert_desc
insert_desc-perm v [] = Perm.refl (v ∷ [])
insert_desc-perm v (x ∷ xs) = elim (Bool-cases (ltb v x)) [
  | inl less ↦ rw less (Perm.trans (Perm.cons x (insert_desc-perm v xs)) (Perm.swap v x xs))
  | inr more ↦ rw more (Perm.refl (v ∷ x ∷ xs))
]

All-insert_desc :
    (b v : ℕ) (xs : List ℕ) → v ≤ b → All (λ y. y ≤ b) xs → All (λ y. y ≤ b) (insert_desc v xs)
unfolding insert_desc
All-insert_desc b v [] h a = (h, tt)
All-insert_desc b v (x ∷ xs) h a = ground (arith, All-insert_desc b v xs h a.1)

All-weaken : (b c : ℕ) (xs : List ℕ) → b ≤ c → All (λ y. y ≤ b) xs → All (λ y. y ≤ c) xs
All-weaken b c [] h a = tt
All-weaken b c (x ∷ xs) h a = (omega (arith, a.0), All-weaken b c xs h a.1)

insert_desc-IsDescending : (v : ℕ) (xs : List ℕ) → IsDescending xs → IsDescending (insert_desc v xs)
unfolding insert_desc
insert_desc-IsDescending v [] d = (tt, tt)
insert_desc-IsDescending v (x ∷ xs) d = elim (Bool-cases (ltb v x)) [
  | inl less ↦
      rw less (All-insert_desc x v xs (ground arith) d.0, insert_desc-IsDescending v xs d.1)
  | inr more ↦ let below : x ≤ v = ground arith in rw more ((below, All-weaken x v xs below d.0), d)
]

pub sort_desc-perm : (xs : List ℕ) → Perm (sort_desc xs) xs
unfolding sort_desc
sort_desc-perm [] = Perm.refl []
sort_desc-perm (x ∷ xs) =
    Perm.trans (insert_desc-perm x (sort_desc xs)) (Perm.cons x (sort_desc-perm xs))

pub sort_desc-IsDescending : (xs : List ℕ) → IsDescending (sort_desc xs)
unfolding sort_desc
sort_desc-IsDescending [] = tt
sort_desc-IsDescending (x ∷ xs) =
    insert_desc-IsDescending x (sort_desc xs) (sort_desc-IsDescending xs)

length-insert_desc : (v : ℕ) (xs : List ℕ) → length (insert_desc v xs) ≡ suc (length xs)
unfolding insert_desc
length-insert_desc v [] = refl
length-insert_desc v (x ∷ xs) = ground (arith, length-insert_desc v xs)

pub length-sort_desc : (xs : List ℕ) → length (sort_desc xs) ≡ length xs
unfolding sort_desc
length-sort_desc [] = refl
length-sort_desc (x ∷ xs) = length-insert_desc x (sort_desc xs) ∙ ap suc (length-sort_desc xs)
