-- ===== src/Jni/Registry/Refines.antt =====
-- The registry as a function from handles to wallets that counts what was opened.
use zcash_sdk_kmp.Base.{
  ℕ, suc, ◌+◌, ◌^◌, ◌≤◌, ◌<◌, ◌≡◌, ◌⊎◌, refl, ap, subst, ◌∙◌, ◌==◌, Option, none, some, List, [],
  ◌∷◌, ◌++◌, if◌then◌else◌, arith, length, length-append, Bool-cases, inl, inr, ==_iff,
}
use mathlib.Core.Option as Option
use zcash_sdk_kmp.Jni.Registry.{
  Registry, lookup, delete, change_at, new, insert, get, update, remove,
}

pub data Op (C : Type 0) : Type 0 where
  opens : C → Op C
  alter : ℕ → (C → C) → Op C
  close : ℕ → Op C

-- The specification: how many wallets were opened, and which is open at a handle.
pub record Spec (C : Type 0) : Type 0 where
  pub opened : ℕ
  pub at : ℕ → Option C

module _ {C : Type 0} where
  unfoldable pub apply : Op C → Registry C → Registry C
  apply (opens c) r = (insert c r).1
  apply (alter h f) r = update h f r
  apply (close h) r = remove h r

  unfoldable pub run : List (Op C) → Registry C → Registry C
  run [] r = r
  run (op ∷ ops) r = run ops (apply op r)

  abbrev pub set : ℕ → Option C → (ℕ → Option C) → ℕ → Option C
  set h c f k = if k == h then c else f k

  unfoldable pub spec : Op C → Spec C → Spec C
  spec (opens c) s = record { opened = s.opened + 1; at = set (s.opened + 1) (some c) s.at }
  spec (alter h f) s = record { opened = s.opened; at = set h (Option.map f (s.at h)) s.at }
  spec (close h) s = record { opened = s.opened; at = set h none s.at }

  unfoldable pub replay : List (Op C) → Spec C → Spec C
  replay [] s = s
  replay (op ∷ ops) s = replay ops (spec op s)

  lookup-delete :
      (k h : ℕ) (cs : List (ℕ × C))
      → lookup k (delete h cs) ≡ (if k == h then none else lookup k cs)
  lookup-delete k h [] = ground arith
  lookup-delete k h (c ∷ cs) = elim (Bool-cases (c.0 == h)) [
    | inl t ↦ rw (t, lookup-delete k h cs) (ground arith)
    | inr f ↦ rw (f, lookup-delete k h cs) (ground arith)
  ]

  lookup-change_at :
      (k h : ℕ) (f : C → C) (cs : List (ℕ × C))
      → lookup k (change_at h f cs) ≡ (if k == h then Option.map f (lookup h cs) else lookup k cs)
  lookup-change_at k h f [] = ground arith
  lookup-change_at k h f (c ∷ cs) = elim (Bool-cases (c.0 == h)) [
    | inl t ↦ rw t (ground arith)
    | inr g ↦ rw (g, lookup-change_at k h f cs) (ground arith)
  ]

  -- The registry is the specification, with handles up to the number of wallets that were opened.
  pub record Matches (r : Registry C) (s : Spec C) : Type 0 where
    pub lookups : (h : ℕ) → lookup h r.coins ≡ s.at h
    pub counter : r.next_handle ≡ s.opened + 1
    pub bounds : (h : ℕ) → (h ≡ 0) ⊎ (s.opened < h) → s.at h ≡ none

  pub apply-Matches :
      (op : Op C) (r : Registry C) (s : Spec C)
      → s.opened + 2 < 2 ^ 64
      → Matches r s
      → Matches (apply op r) (spec op s)
  unfolding apply spec insert update remove
  apply-Matches (opens c) r s b m = record {
    lookups =
        λ h. rw (lookup-delete h r.next_handle r.coins, m.lookups h, m.counter) (ground arith);
    counter = rw m.counter (omega (arith, b));
    bounds = λ h out. elim out [
      | inl z ↦ let e = m.bounds h (inl z) in ground (arith, e, z)
      | inr l ↦ let e = m.bounds h (inr (omega (arith, l))) in ground (arith, e, l)
    ];
  }
  apply-Matches (alter k f) r s b m = record {
    lookups = λ h. rw (lookup-change_at h k f r.coins, m.lookups k, m.lookups h) refl;
    counter = m.counter;
    bounds = λ h out.
        let e = m.bounds h out in
        elim (Bool-cases (h == k)) [
          | inl t ↦ rw t (ap (Option.map f) (subst (λ x. s.at x ≡ none) ((==_iff h k).0 t) e))
          | inr g ↦ rw g e
        ];
  }
  apply-Matches (close k) r s b m = record {
    lookups = λ h. rw (lookup-delete h k r.coins, m.lookups h) refl;
    counter = m.counter;
    bounds = λ h out. let e = m.bounds h out in ground (arith, e);
  }

  opened-spec :
      (op : Op C) (s : Spec C) (n : ℕ)
      → s.opened + suc n + 2 ≤ 2 ^ 64
      → (spec op s).opened + n + 2 ≤ 2 ^ 64
  unfolding spec
  opened-spec (opens c) s n b = omega (arith, b)
  opened-spec (alter k f) s n b = omega (arith, b)
  opened-spec (close k) s n b = omega (arith, b)

  run-Matches :
      (ops : List (Op C)) (r : Registry C) (s : Spec C)
      → s.opened + length ops + 2 ≤ 2 ^ 64
      → Matches r s
      → Matches (run ops r) (replay ops s)
  unfolding run replay
  run-Matches [] r s b m = m
  run-Matches (op ∷ ops) r s b m =
      run-Matches ops (apply op r) (spec op s) (opened-spec op s (length ops) b)
        (apply-Matches op r s (omega (arith, b)) m)

  -- After any calls, less than 2^63 of them, the wallet at each handle is the one that the
  -- specification has there, and the next handle is one more than the number of wallets opened.
  pub run_refines :
      (ops : List (Op C)) (h : ℕ)
      → length ops < 2 ^ 63
      → let s = replay ops (record { opened = 0; at = λ _. none }) in
        (get h (run ops new) ≡ s.at h) × ((run ops new).next_handle ≡ s.opened + 1)
  unfolding get new
  run_refines ops h b =
      let m =
        run-Matches ops new (record { opened = 0; at = λ _. none }) (omega (arith, b))
          (record { lookups = λ h. refl; counter = refl; bounds = λ h out. refl }) in
      (m.lookups h, m.counter)

  spec-opened : (op : Op C) (s : Spec C) → s.opened ≤ (spec op s).opened
  unfolding spec
  spec-opened (opens c) s = omega arith
  spec-opened (alter k f) s = omega arith
  spec-opened (close k) s = omega arith

  -- A handle that was given out and is not open stays so.
  replay-closed :
      (ops : List (Op C)) (s : Spec C) (h : ℕ)
      → h ≤ s.opened
      → s.at h ≡ none
      → (replay ops s).at h ≡ none
  unfolding replay spec
  replay-closed [] s h b e = e
  replay-closed (op ∷ ops) s h b e =
      replay-closed ops (spec op s) h (omega (arith, b, spec-opened op s)) (stays op)
    where
      stays : (op : Op C) → (spec op s).at h ≡ none
      stays (opens c) = ground (arith, b, e)
      stays (alter k f) = elim (Bool-cases (h == k)) [
        | inl t ↦ rw t (ap (Option.map f) (subst (λ x. s.at x ≡ none) ((==_iff h k).0 t) e))
        | inr g ↦ rw g e
      ]
      stays (close k) = ground (arith, e)

  replay-append :
      (ops ops' : List (Op C)) (s : Spec C) → replay (ops ++ ops') s ≡ replay ops' (replay ops s)
  unfolding replay
  replay-append [] ops' s = refl
  replay-append (op ∷ ops) ops' s = replay-append ops ops' (spec op s)

  closed : (s : Spec C) (h : ℕ) → (spec (close h) s).at h ≡ none
  unfolding spec
  closed s h = ground arith

  -- A handle below the next one finds no wallet from when it is closed on, whatever calls follow,
  -- when there are less than 2^63 calls in all.
  pub remove_forever :
      (ops ops' : List (Op C)) (h : ℕ)
      → length (ops ++ close h ∷ ops') < 2 ^ 63
      → h < (run ops new).next_handle
      → get h (run (ops ++ close h ∷ ops') new) ≡ none
  unfolding replay
  remove_forever ops ops' h b k =
      let start : Spec C = record { opened = 0; at = λ _. none } in
      let before = run_refines ops h (omega (arith, b, length-append ops (close h ∷ ops'))) in
      (run_refines (ops ++ close h ∷ ops') h b).0
      ∙ ap (λ (s : Spec C). s.at h) (replay-append ops (close h ∷ ops') start)
      ∙ after (replay ops start) (omega (arith, k, before.1))
    where
      after : (s : Spec C) → h ≤ s.opened → (replay (close h ∷ ops') s).at h ≡ none
      after s l =
          replay-closed ops' (spec (close h) s) h (omega (arith, l, spec-opened (close h) s))
            (closed s h)
