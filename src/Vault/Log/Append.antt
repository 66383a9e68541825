-- ===== src/Vault/Log/Append.antt =====
-- A log that was appended to, whole or cut in the last entry, is read back.
use mathlib.Core.List.{append_assoc, append-nil}
use zcash_sdk_kmp.Base.{
  ℕ, zero, suc, ◌+◌, ◌*◌, ◌/◌, ◌%◌, ◌^◌, ◌<◌, ◌≤◌, ◌≡◌, refl, sym, ap, ◌∙◌, subst, true, false,
  List, [], ◌∷◌, ◌++◌, arith, length, take, drop, some, ltb, All, length-append, take-length-append,
  drop-length-append, length-take,
}
use zcash_sdk_kmp.Vault.Bytes.{ok, write_u16}
use zcash_sdk_kmp.Vault.Entry.{
  LogEntry, init, add_device, account, IsEntry, read_entry, write_entry, frame_of,
  length-write_entry, read_entry-write_entry,
}
use zcash_sdk_kmp.Vault.Log.{
  sized, frame_size, advance, read_frame, parse_step, parse_from, parse_entries, write_log,
}

-- The bytes of an entry begin with its tag, which announces its frame.
pub frame_size-write_entry :
    (e : LogEntry) (rest : List ℕ)
    → IsEntry e
    → (tag : ℕ) × (bs : List ℕ) × (write_entry e ++ rest ≡ tag ∷ bs)
      × (frame_size tag bs ≡ sized (frame_of e))
unfolding write_entry write_u16
frame_size-write_entry (init pk sk salt) rest v = (0, _, refl, refl)
frame_size-write_entry (add_device id sk) rest v = (1, _, refl, refl)
frame_size-write_entry (account epk nonce ct) rest v = (2, _, refl, ap sized (omega (arith, v.2)))

read_frame-append :
    (e : LogEntry) (rest : List ℕ)
    → IsEntry e
    → read_frame (frame_of e) (write_entry e ++ rest) ≡ advance (e ∷ []) rest
unfolding read_frame
read_frame-append e rest v =
    let whole : frame_of e ≡ length (write_entry e) = sym (length-write_entry e v) in
    let enough : ltb (length (write_entry e)) (length (write_entry e)) ≡ false = ground arith in
    rw
      (
        whole,
        take-length-append (write_entry e) rest,
        drop-length-append (write_entry e) rest,
        enough,
      )
      (let read : read_entry (write_entry e) ≡ ok e [] =
          subst (λ bs. read_entry bs ≡ ok e []) (append-nil (write_entry e))
            (read_entry-write_entry e [] v) in
        rw read)

pub parse_step-append :
    (e : LogEntry) (rest : List ℕ)
    → IsEntry e
    → parse_step (write_entry e ++ rest) ≡ advance (e ∷ []) rest
unfolding parse_step
parse_step-append e rest v =
    let t = frame_size-write_entry e rest v in
    let step : parse_step (t.0 ∷ t.1) ≡ read_frame (frame_of e) (t.0 ∷ t.1) =
      rw (parse_step, t.3) in
    ap parse_step t.2 ∙ step ∙ ap (read_frame (frame_of e)) (sym t.2) ∙ read_frame-append e rest v

drop-all : {A : Type 0} (n : ℕ) (xs : List A) → length xs ≤ n → drop n xs ≡ []
drop-all zero [] h = refl
drop-all zero (x ∷ xs) h = ground arith
drop-all (suc n) [] h = refl
drop-all (suc n) (x ∷ xs) h = drop-all n xs (omega arith)

read_frame-short : (size : ℕ) (bs : List ℕ) → length bs < size → read_frame size bs ≡ advance [] []
unfolding read_frame
read_frame-short size bs h =
    let short : ltb (length (take size bs)) size ≡ true = ground (arith, length-take size bs) in
    rw (short, drop-all size bs (omega arith))

-- A frame that is cut ends the scan.
ends :
    (size fuel : ℕ) (bs : List ℕ)
    → length bs < size
    → parse_step bs ≡ read_frame size bs
    → 1 ≤ fuel
    → parse_from (suc fuel) bs ≡ some []
unfolding parse_from parse_step
ends size zero bs h e le = ground arith
ends size (suc fuel) bs h e le = rw (parse_from, e, read_frame-short size bs h)

parse_from-cut :
    (e : LogEntry) (k fuel : ℕ)
    → IsEntry e
    → k < frame_of e
    → k ≤ fuel
    → parse_from (suc fuel) (take k (write_entry e)) ≡ some []
unfolding write_entry write_u16 parse_step parse_from
parse_from-cut e zero fuel v h le = refl
parse_from-cut (init pk sk salt) (suc k) fuel v h le =
    ends 109 fuel (0 ∷ take k (pk ++ (sk ++ salt)))
      (omega (arith, length-take k (pk ++ (sk ++ salt)))) refl (omega arith)
parse_from-cut (add_device id sk) (suc k) fuel v h le =
    ends 81 fuel (1 ∷ take k (id ++ sk)) (omega (arith, length-take k (id ++ sk))) refl
      (omega arith)
parse_from-cut (account epk nonce ct) (suc zero) fuel v h le = refl
parse_from-cut (account epk nonce ct) (suc (suc zero)) fuel v h le = refl
parse_from-cut (account epk nonce ct) (suc (suc (suc k))) fuel v h le =
    ends (3 + ((32 + 12 + length ct) % 2 ^ 16 / 256 * 256 + (32 + 12 + length ct) % 2 ^ 16 % 256))
      fuel
      (2
        ∷ (32 + 12 + length ct) % 2 ^ 16 / 256
        ∷ (32 + 12 + length ct) % 2 ^ 16 % 256
        ∷ take k (epk ++ (nonce ++ ct)))
      (omega (arith, v.2, length-take k (epk ++ (nonce ++ ct)))) refl (omega arith)

frame_of_pos : (e : LogEntry) → 0 < frame_of e
frame_of_pos (init _ _ _) = omega arith
frame_of_pos (add_device _ _) = omega arith
frame_of_pos (account _ _ ct) = omega arith

parse_from-append :
    (es : List LogEntry) (e : LogEntry) (k fuel : ℕ)
    → All IsEntry es
    → IsEntry e
    → k < length (write_entry e)
    → length (write_log es) + k ≤ fuel
    → parse_from (suc fuel) (write_log es ++ take k (write_entry e)) ≡ some es
unfolding write_log parse_from
parse_from-append [] e k fuel vs v h le =
    parse_from-cut e k fuel v (omega (arith, length-write_entry e v)) (omega arith)
parse_from-append (x ∷ es) e k zero vs v h le =
    ground (
      arith,
      length-append (write_entry x) (write_log es),
      length-write_entry x vs.0,
      frame_of_pos x,
    )
parse_from-append (x ∷ es) e k (suc fuel) vs v h le = rw (
  append_assoc (write_entry x) (write_log es) (take k (write_entry e)),
  parse_from,
  parse_step-append x (write_log es ++ take k (write_entry e)) vs.0,
  parse_from-append es e k fuel vs.1 v h (
      omega (
        arith,
        length-append (write_entry x) (write_log es),
        length-write_entry x vs.0,
        frame_of_pos x,
      )),
)

-- A log of entries that the arrays and the `u16` length can hold, followed by any part of one more
-- entry, as an append that was cut leaves it, is read as the entries that were appended whole.
pub parse_entries-write_log :
    (es : List LogEntry) (e : LogEntry) (k : ℕ)
    → All IsEntry es
    → IsEntry e
    → k < length (write_entry e)
    → parse_entries (write_log es ++ take k (write_entry e)) ≡ some es
unfolding parse_entries
parse_entries-write_log es e k vs v h =
    parse_from-append es e k (length (write_log es ++ take k (write_entry e))) vs v h (
      omega (
        arith,
        length-append (write_log es) (take k (write_entry e)),
        length-take k (write_entry e),
      ))
