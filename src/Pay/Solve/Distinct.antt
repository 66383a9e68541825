-- ===== src/Pay/Solve/Distinct.antt =====
-- Lists of notes beside indices that differ from each other and from those that are selected.
use zcash_sdk_kmp.Base.{
  ℕ, ◌+◌, ◌<◌, ◌≡◌, refl, Bool, false, List, [], ◌∷◌, ◌++◌, ◌==◌, arith, All, Bool-cases, inl, inr,
}
use zcash_sdk_kmp.Pay.Solve.{Note}
use zcash_sdk_kmp.Pay.Solve.Search.{contains, numbered, insert_by, sort_by}

abbrev pub Distinct : List ℕ → Type 0
Distinct [] = Unit
Distinct (x ∷ xs) = (contains x xs ≡ false) × Distinct xs

abbrev pub indices : List (ℕ × Note) → List ℕ
indices [] = []
indices (n ∷ ns) = n.0 ∷ indices ns

-- None of the notes is selected, and no two have one index.
abbrev pub IsQueue : List ℕ → List (ℕ × Note) → Type 0
IsQueue selected ns = All (λ n. contains n.0 selected ≡ false) ns × Distinct (indices ns)

contains-snoc :
    (i j : ℕ) (xs : List ℕ)
    → contains i xs ≡ false
    → (i == j) ≡ false
    → contains i (xs ++ j ∷ []) ≡ false
contains-snoc i j [] h e = ground arith
contains-snoc i j (x ∷ xs) h e =
    let rest : contains i (xs ++ j ∷ []) ≡ false = contains-snoc i j xs (ground arith) e in
    ground arith

pub Distinct-snoc :
    (i : ℕ) (xs : List ℕ) → Distinct xs → contains i xs ≡ false → Distinct (xs ++ i ∷ [])
Distinct-snoc i [] v h = (refl, tt)
Distinct-snoc i (x ∷ xs) v h =
    (contains-snoc x i xs v.0 (ground arith), Distinct-snoc i xs v.1 (ground arith))

selected-snoc :
    (i : ℕ) (selected : List ℕ) (ns : List (ℕ × Note))
    → All (λ n. contains n.0 selected ≡ false) ns
    → contains i (indices ns) ≡ false
    → All (λ n. contains n.0 (selected ++ i ∷ []) ≡ false) ns
selected-snoc i selected [] v h = tt
selected-snoc i selected (n ∷ ns) v h = (
  contains-snoc n.0 i selected v.0 (ground arith),
  selected-snoc i selected ns v.1 (ground arith),
)

-- What is left when the first note is selected.
pub IsQueue-rest :
    (selected : List ℕ) (n : ℕ × Note) (ns : List (ℕ × Note))
    → IsQueue selected (n ∷ ns)
    → IsQueue (selected ++ n.0 ∷ []) ns
IsQueue-rest selected n ns q = (selected-snoc n.0 selected ns q.0.1 q.1.0, q.1.1)

contains-numbered :
    (j k : ℕ) (ns : List Note) → j < k → contains j (indices (numbered k ns)) ≡ false
contains-numbered j k [] h = refl
contains-numbered j k (n ∷ ns) h =
    let rest : contains j (indices (numbered (k + 1) ns)) ≡ false =
      contains-numbered j (k + 1) ns (omega arith) in
    ground arith

numbered-Distinct : (k : ℕ) (ns : List Note) → Distinct (indices (numbered k ns))
numbered-Distinct k [] = tt
numbered-Distinct k (n ∷ ns) =
    (contains-numbered k (k + 1) ns (omega arith), numbered-Distinct (k + 1) ns)

contains-insert_by :
    (before : ℕ × Note → ℕ × Note → Bool) (i : ℕ) (x : ℕ × Note) (ys : List (ℕ × Note))
    → contains i (indices ys) ≡ false
    → (i == x.0) ≡ false
    → contains i (indices (insert_by before x ys)) ≡ false
contains-insert_by before i x [] h e = ground arith
contains-insert_by before i x (y ∷ ys) h e =
    let rest : contains i (indices (insert_by before x ys)) ≡ false =
      contains-insert_by before i x ys (ground arith) e in
    elim (Bool-cases (before y x)) [
      | inl later ↦ rw later (ground arith)
      | inr here ↦ rw here (ground arith)
    ]

insert_by-Distinct :
    (before : ℕ × Note → ℕ × Note → Bool) (x : ℕ × Note) (ys : List (ℕ × Note))
    → contains x.0 (indices ys) ≡ false
    → Distinct (indices ys)
    → Distinct (indices (insert_by before x ys))
insert_by-Distinct before x [] h v = (refl, tt)
insert_by-Distinct before x (y ∷ ys) h v = elim (Bool-cases (before y x)) [
  | inl later ↦ rw later (
    contains-insert_by before y.0 x ys v.0 (ground arith),
    insert_by-Distinct before x ys (ground arith) v.1,
  )
  | inr here ↦ rw here (h, v)
]

contains-sort_by :
    (before : ℕ × Note → ℕ × Note → Bool) (i : ℕ) (xs : List (ℕ × Note))
    → contains i (indices xs) ≡ false
    → contains i (indices (sort_by before xs)) ≡ false
contains-sort_by before i [] h = refl
contains-sort_by before i (x ∷ xs) h =
    contains-insert_by before i x (sort_by before xs) (contains-sort_by before i xs (ground arith))
      (ground arith)

sort_by-Distinct :
    (before : ℕ × Note → ℕ × Note → Bool) (xs : List (ℕ × Note))
    → Distinct (indices xs)
    → Distinct (indices (sort_by before xs))
sort_by-Distinct before [] v = tt
sort_by-Distinct before (x ∷ xs) v =
    insert_by-Distinct before x (sort_by before xs) (contains-sort_by before x.0 xs v.0)
      (sort_by-Distinct before xs v.1)

nothing-selected : (ns : List (ℕ × Note)) → All (λ n. contains n.0 [] ≡ false) ns
nothing-selected [] = tt
nothing-selected (n ∷ ns) = (refl, nothing-selected ns)

pub numbered-IsQueue : (ns : List Note) → IsQueue [] (numbered 0 ns)
numbered-IsQueue ns = (nothing-selected (numbered 0 ns), numbered-Distinct 0 ns)

pub sort_by-IsQueue :
    (before : ℕ × Note → ℕ × Note → Bool) (ns : List Note)
    → IsQueue [] (sort_by before (numbered 0 ns))
sort_by-IsQueue before ns = (
  nothing-selected (sort_by before (numbered 0 ns)),
  sort_by-Distinct before (numbered 0 ns) (numbered-Distinct 0 ns),
)
