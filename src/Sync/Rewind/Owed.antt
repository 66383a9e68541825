-- ===== src/Sync/Rewind/Owed.antt =====
-- The catch-up that a trim owes again.
use zcash_sdk_kmp.Base.{
  ℕ, ◌≤◌, ◌≡◌, ◌⊎◌, refl, sym, ◌∙◌, subst, max, Bool, true, false, ◌&&◌, ◌||◌, Option, none, some,
  List, [], ◌∷◌, map, ltb, ◌==◌, ==_iff, arith, inl, inr, Bool-cases, &&-parts,
}
use zcash_sdk_kmp.Store.{filter, coalesce}
use zcash_sdk_kmp.Sync.Tables.{NoteRow, AddressRow, SyncDb, any, max_height}
use zcash_sdk_kmp.Sync.Rewind.{
  is_paid_above, loses_note, owe, is_marked_above, clamp, trim_sync_data,
}

-- The largest height of the rows that pass a test is at least that of each of them.
pub max_height-filter :
    {A : Type 0} (height : A → ℕ) (p : A → Bool) (xs : List A) (h : ℕ)
    → any (λ x. p x && height x == h) xs ≡ true
    → h ≤ coalesce (max_height (map height (filter p xs)))
max_height-filter height p [] h e = cc
max_height-filter height p (x ∷ xs) h e = elim (Bool-cases (p x)) [
  | inl t ↦ rw t elim (Bool-cases (height x == h)) [
    | inl s ↦ first (max_height (map height (filter p xs))) ((==_iff (height x) h).0 s)
    | inr g ↦
        later (max_height (map height (filter p xs)))
          (max_height-filter height p xs h (rw (t, g) at e))
  ]
  | inr f ↦ rw f (max_height-filter height p xs h (rw f at e))
]
  where
    first :
        (o : Option ℕ)
        → height x ≡ h
        → h ≤ elim o as (λ _. ℕ) [ none ↦ height x | some m ↦ max (height x) m ]
    first none s = omega (arith, s)
    first (some m) s = omega (arith, s)

    later :
        (o : Option ℕ)
        → h ≤ coalesce o
        → h ≤ elim o as (λ _. ℕ) [ none ↦ height x | some m ↦ max (height x) m ]
    later none l = omega (arith, l)
    later (some m) l = omega (arith, l)

pub any-some :
    {A : Type 0} (p q : A → Bool) (xs : List A)
    → ((x : A) → p x ≡ true → q x ≡ true)
    → any p xs ≡ true
    → any q xs ≡ true
any-some p q [] h e = cc
any-some p q (x ∷ xs) h e = elim (Bool-cases (p x)) [
  | inl t ↦ rw (h x t) refl
  | inr f ↦ or_true (q x) (any-some p q xs h (rw f at e))
]
  where
    or_true : (b : Bool) {c : Bool} → c ≡ true → (b || c) ≡ true
    or_true true t = refl
    or_true false t = t

-- An address row that is behind a height.
abbrev pub owes_less : ℕ → ℕ → AddressRow → Bool
owes_less id_taddress height a =
    a.id_taddress == id_taddress && ltb (coalesce a.catch_up_owed_through) height

-- An address that loses a note is owed a catch-up through that note's height.
owe-owes :
    (notes : List NoteRow) (account height id_taddress through : ℕ) (a : AddressRow)
    → any (λ n. loses_note account height id_taddress n && n.height == through) notes ≡ true
    → owes_less id_taddress through (owe notes account height a) ≡ false
unfolding owe
owe-owes notes account height id_taddress through a e =
    go (Bool-cases (a.id_taddress == id_taddress))
  where
    loses : any (loses_note account height id_taddress) notes ≡ true
    loses =
        any-some (λ n. loses_note account height id_taddress n && n.height == through)
          (loses_note account height id_taddress) notes
          (λ n h. (&&-parts (loses_note account height id_taddress n) (n.height == through) h).0) e

    both : (b c d : Bool) → ((b && c) && d) ≡ true → (b && d) ≡ true
    both true true d h = h
    both true false d h = cc
    both false c d h = cc

    highest :
        through
        ≤ coalesce (
            max_height
              (map (λ (n : NoteRow). n.height) (filter (is_paid_above height id_taddress) notes)))
    highest =
        max_height-filter (λ (n : NoteRow). n.height) (is_paid_above height id_taddress) notes
          through
          (any-some (λ n. loses_note account height id_taddress n && n.height == through)
            (λ n. is_paid_above height id_taddress n && n.height == through) notes
            (λ n h.
              both (is_paid_above height id_taddress n) (n.account == account) (n.height == through)
                h)
            e)

    covers : (b : Bool) (x y : ℕ) → through ≤ y → (b && ltb (max x y) through) ≡ false
    covers true x y l = ground (arith, l)
    covers false x y l = refl

    go :
        ((a.id_taddress == id_taddress) ≡ true) ⊎ ((a.id_taddress == id_taddress) ≡ false)
        → owes_less id_taddress through (owe notes account height a) ≡ false
    go (inl t) =
        let same = (==_iff a.id_taddress id_taddress).0 t in
        rw (subst (λ i. any (loses_note account height i) notes ≡ true) (sym same) loses) (
          covers (a.id_taddress == id_taddress) (coalesce a.catch_up_owed_through) _ (
            subst
              (λ i.
                through
                ≤ coalesce (
                    max_height
                      (map (λ (n : NoteRow). n.height) (filter (is_paid_above height i) notes))))
              (sym same) highest))
    go (inr f) = elim (Bool-cases (any (loses_note account height a.id_taddress) notes)) [
      | inl s ↦ rw (s, f) refl
      | inr s ↦ rw (s, f) refl
    ]

clamp-owes_less :
    (account height id_taddress through : ℕ) (a : AddressRow)
    → owes_less id_taddress through (clamp account height a) ≡ owes_less id_taddress through a
unfolding clamp
clamp-owes_less account height id_taddress through a =
    elim (Bool-cases (is_marked_above account height a)) [ inl t ↦ rw t refl | inr f ↦ rw f refl ]

-- When a trim deletes a transparent note that was paid to an address at some height, every row of
-- that address is owed a catch-up through this height afterwards.
pub trim_sync_data_owes :
    (db : SyncDb) (account height id_taddress through : ℕ)
    → any (λ n. loses_note account height id_taddress n && n.height == through) db.notes ≡ true
    → any (owes_less id_taddress through) (trim_sync_data db account height).addresses ≡ false
unfolding trim_sync_data
trim_sync_data_owes db account height id_taddress through e = owed db.addresses
  where
    owed :
        (rows : List AddressRow)
        → any
            (owes_less id_taddress through)
            (map (clamp account height) (map (owe db.notes account height) rows))
          ≡ false
    owed [] = refl
    owed (a ∷ rows) =
        rw
          (
            clamp-owes_less account height id_taddress through (owe db.notes account height a)
                ∙ owe-owes db.notes account height id_taddress through a e,
            owed rows,
          )
          refl
