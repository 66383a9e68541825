-- ===== src/Pay/Solve/Ranked.antt =====
-- What all notes have, the sorted notes and the best k of them have.
use zcash_sdk_kmp.Base.{
  ℕ, zero, suc, ◌≡◌, subst, inl, inr, Bool, true, false, some, List, [], ◌∷◌, map, length, take,
  leb, if◌then◌else◌, All, Bool-cases,
}
use zcash_sdk_kmp.Base.Partial.{◌>>=◌, >>=-eq-some}
use zcash_sdk_kmp.Base.Integers.{ℤ}
use zcash_sdk_kmp.Pay.Solve.{Note, State}
use zcash_sdk_kmp.Pay.Solve.Search.{
  insert_by, sort_by, local_score, scores, by_score, top_k_by_local_heuristic,
}

insert_by-All :
    {A : Type 0} (P : A → Type 0) (before : A → A → Bool) (x : A) (ys : List A)
    → P x
    → All P ys
    → All P (insert_by before x ys)
insert_by-All P before x [] h v = (h, tt)
insert_by-All P before x (y ∷ ys) h v = elim (Bool-cases (before y x)) [
  | inl later ↦ rw later (v.0, insert_by-All P before x ys h v.1)
  | inr here ↦ rw here (h, (v.0, v.1))
]

pub sort_by-All :
    {A : Type 0} (P : A → Type 0) (before : A → A → Bool) (xs : List A)
    → All P xs
    → All P (sort_by before xs)
sort_by-All P before [] v = tt
sort_by-All P before (x ∷ xs) v =
    insert_by-All P before x (sort_by before xs) v.0 (sort_by-All P before xs v.1)

take-All : {A : Type 0} (P : A → Type 0) (n : ℕ) (xs : List A) → All P xs → All P (take n xs)
take-All P zero xs v = tt
take-All P (suc n) [] v = tt
take-All P (suc n) (x ∷ xs) v = (v.0, take-All P n xs v.1)

map-All :
    {A B : Type 0} (P : B → Type 0) (f : A → B) (xs : List A)
    → All (λ x. P (f x)) xs
    → All P (map f xs)
map-All P f [] v = tt
map-All P f (x ∷ xs) v = (v.0, map-All P f xs v.1)

scores-All :
    (P : ℕ × Note → Type 0) (st : State) (ns : List (ℕ × Note)) (scored : List (ℤ × (ℕ × Note)))
    → All P ns
    → scores st ns ≡ some scored
    → All (λ s. P s.1) scored
scores-All P st [] scored v e =
    let whole : [] ≡ scored = cc in
    subst (λ (l : List (ℤ × (ℕ × Note))). All (λ s. P s.1) l) whole tt
scores-All P st (n ∷ ns) scored v e =
    let (score, e1, e') = >>=-eq-some (local_score n.1 st) _ e in
    let (later, e2, e'') = >>=-eq-some (scores st ns) _ e' in
    let whole : ((score, n) ∷ later) ≡ scored = cc in
    subst (λ (l : List (ℤ × (ℕ × Note))). All (λ s. P s.1) l) whole
      (v.0, scores-All P st ns later v.1 e2)

pub top_k-All :
    (P : ℕ × Note → Type 0) (ns : List (ℕ × Note)) (st : State) (k : ℕ) (top : List (ℕ × Note))
    → All P ns
    → top_k_by_local_heuristic ns st k ≡ some top
    → All P top
unfolding top_k_by_local_heuristic
top_k-All P ns st k top v e = by_size (leb (length ns) k) e
  where
    by_size :
        (b : Bool)
        → (if b
            then some ns
            else (scores st ns >>= (λ scored.
                some (take k (map (λ (s : ℤ × (ℕ × Note)). s.1) (sort_by by_score scored))))))
          ≡ some top
        → All P top
    by_size true e = let whole : ns ≡ top = cc in subst (All P) whole v
    by_size false e =
        let (scored, e1, e') = >>=-eq-some (scores st ns) _ e in
        let whole : take k (map (λ (s : ℤ × (ℕ × Note)). s.1) (sort_by by_score scored)) ≡ top =
          cc in
        subst (All P) whole (
          take-All P k _ (
            map-All P _ _
              (sort_by-All (λ s. P s.1) by_score scored (scores-All P st ns scored v e1))))
