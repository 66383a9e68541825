-- ===== src/Warp/Stream/Chain.antt =====
-- Chains of blocks: consecutive heights, each block naming the hash of the one before it.
use mathlib.Core.List.{append_assoc}
use zcash_sdk_kmp.Base.{
  ℕ, ◌+◌, ◌≡◌, refl, sym, ap, ◌∙◌, subst, true, false, Option, none, some, List, [], ◌∷◌, ◌++◌,
  arith, length,
}
use zcash_sdk_kmp.Warp.Stream.{
  Hash, hash_eq, CompactBlock, BlockMessage, chunk, save_header, reorg, breaks_chain,
}

-- The block names the hash, if one is known.
abbrev pub Follows : Option Hash → CompactBlock → Type 0
Follows none b = Unit
Follows (some h) b = h ≡ b.prev_hash

-- The blocks run from `height` after `hash` up to `height'`, the next height, and `hash'`.
abbrev pub Linked : ℕ → Option Hash → List CompactBlock → ℕ → Option Hash → Type 0
Linked height hash [] height' hash' = (height' ≡ height) × (hash' ≡ hash)
Linked height hash (b ∷ bs) height' hash' =
    (b.height ≡ height) × Follows hash b × Linked (height + 1) (some b.hash) bs height' hash'

pub Linked-snoc :
    (height : ℕ) (hash : Option Hash) (bs : List CompactBlock) (height' : ℕ) (hash' : Option Hash)
    (b : CompactBlock)
    → Linked height hash bs height' hash'
    → b.height ≡ height'
    → Follows hash' b
    → Linked height hash (bs ++ b ∷ []) (height' + 1) (some b.hash)
Linked-snoc height hash [] height' hash' b l e f =
    (e ∙ l.0, subst (λ h. Follows h b) l.1 f, (ap (λ (n : ℕ). n + 1) l.0, refl))
Linked-snoc height hash (x ∷ xs) height' hash' b l e f =
    (l.0, l.1, Linked-snoc (height + 1) (some x.hash) xs height' hash' b l.2 e f)

pub Linked-length :
    (height : ℕ) (hash : Option Hash) (bs : List CompactBlock) (height' : ℕ) (hash' : Option Hash)
    → Linked height hash bs height' hash'
    → height' ≡ height + length bs
Linked-length height hash [] height' hash' l = omega (arith, l.0)
Linked-length height hash (b ∷ bs) height' hash' l =
    omega (arith, Linked-length (height + 1) (some b.hash) bs height' hash' l.2)

-- The blocks of the chunks among the messages.
abbrev pub blocks_of : List BlockMessage → List CompactBlock
blocks_of [] = []
blocks_of (chunk bs ∷ ms) = bs ++ blocks_of ms
blocks_of (save_header h ∷ ms) = blocks_of ms
blocks_of (reorg ids h ∷ ms) = blocks_of ms

pub blocks_of-append :
    (ms ns : List BlockMessage) → blocks_of (ms ++ ns) ≡ blocks_of ms ++ blocks_of ns
blocks_of-append [] ns = refl
blocks_of-append (chunk bs ∷ ms) ns =
    ap (◌++◌ bs) (blocks_of-append ms ns) ∙ sym (append_assoc bs (blocks_of ms) (blocks_of ns))
blocks_of-append (save_header h ∷ ms) ns = blocks_of-append ms ns
blocks_of-append (reorg ids h ∷ ms) ns = blocks_of-append ms ns

pub hash_eq_lem : (a b : Hash) → hash_eq a b ≡ true → a ≡ b
hash_eq_lem [] [] h = refl
hash_eq_lem [] (y ∷ ys) h = cc
hash_eq_lem (x ∷ xs) [] h = cc
hash_eq_lem (x ∷ xs) (y ∷ ys) h = ground (arith, hash_eq_lem xs ys)

pub breaks_chain-Follows :
    (h : Option Hash) (b : CompactBlock) → breaks_chain h b ≡ false → Follows h b
breaks_chain-Follows none b e = tt
breaks_chain-Follows (some h) b e = hash_eq_lem h b.prev_hash (ground arith)

pub hash_eq_refl : (h : Hash) → hash_eq h h ≡ true
hash_eq_refl [] = refl
hash_eq_refl (x ∷ xs) = ground (arith, hash_eq_refl xs)
