-- ===== src/Tests/Vault.antt =====
-- Entries and logs at concrete bytes, and the format's theorems there.
use zcash_sdk_kmp.Base.{
  ℕ, ◌≡◌, refl, Bool, true, false, some, List, [], ◌∷◌, ◌++◌, arith, replicate, take, ltb,
  if◌then◌else◌,
}
use zcash_sdk_kmp.Vault.Bytes.{ok}
use zcash_sdk_kmp.Vault.Payload.{
  AccountPayload, read_payload, write_payload, read_payload-write_payload,
}
use zcash_sdk_kmp.Vault.Entry.{
  LogEntry, add_device, account, write_entry, read_entry, read_entry-write_entry,
}
use zcash_sdk_kmp.Vault.Log.{parse_entries, write_log}
use zcash_sdk_kmp.Vault.Log.Total.{parse_entries-total}
use zcash_sdk_kmp.Vault.Log.Append.{parse_entries-write_log}

-- ASCII bytes, which are UTF-8.
abbrev is_ascii : List ℕ → Bool
is_ascii [] = true
is_ascii (b ∷ bs) = if ltb b 128 then is_ascii bs else false

abbrev savings : AccountPayload
savings = record {
  timestamp = 70_000;
  name = 65 ∷ 66 ∷ [];
  entropy = replicate 32 7;
  aindex = 3;
  use_internal = true;
  birth_height = 2_000_000;
}

abbrev device : LogEntry
device = add_device (replicate 20 5) (replicate 60 6)

abbrev backup : LogEntry
backup = account (replicate 32 1) (replicate 12 2) (9 ∷ 8 ∷ [])

read_payload-write_payload_example :
    read_payload is_ascii (write_payload savings ++ 1 ∷ []) ≡ ok savings (1 ∷ [])
read_payload-write_payload_example =
    read_payload-write_payload is_ascii savings (1 ∷ [])
      (record { name_fits = omega arith; utf8 = refl; entropy_size = refl })

read_entry-write_entry_example : read_entry (write_entry backup ++ 4 ∷ []) ≡ ok backup (4 ∷ [])
read_entry-write_entry_example = read_entry-write_entry backup (4 ∷ []) (refl, refl, omega arith)

-- One entry, and 50 bytes of the next.
parse_entries-write_log_example :
    parse_entries (write_log (backup ∷ []) ++ take 50 (write_entry device)) ≡ some (backup ∷ [])
unfolding write_entry
parse_entries-write_log_example =
    parse_entries-write_log (backup ∷ []) device 50 ((refl, refl, omega arith), tt) (refl, refl)
      (omega arith)

-- An unknown tag, and the header of an account that is cut.
parse_entries-total_example : (es : List LogEntry) × (parse_entries (9 ∷ 2 ∷ 0 ∷ []) ≡ some es)
parse_entries-total_example = parse_entries-total (9 ∷ 2 ∷ 0 ∷ [])
