-- ===== src/Scanner/Attestation/SlotHashes.antt =====
-- The search in the slot hashes sysvar, `slot_hash_lookup` of
-- programs/grave-scanner/src/attestation.rs, against a search in the list of its entries.
use graveyield_protocol.Prelude.{
  ℕ, zero, suc, ◌+◌, ◌*◌, ◌^◌, ◌<◌, ◌≤◌, ◌≡◌, refl, ap, ◌∙◌, true, false, Option, none, some, List,
  [], ◌∷◌, ◌++◌, length, length-append, ltb, ◌==◌, if◌then◌else◌, slice, le_value, le_bytes,
  key_bytes, key_of_bytes, length-u64_bytes, length-key_bytes, le_value-le_bytes,
  key_of_bytes-key_bytes, All, arith, slice-middle, take-append,
}
use mathlib.Core.List.{append_assoc}

-- The loop, from entry `i` with `n` entries to go. Its test of the data's end comes before any
-- index could leave the range of usize.
unfoldable pub slot_hash_scan : List ℕ → ℕ → ℕ → ℕ → Option ℕ
slot_hash_scan d target zero i = none
slot_hash_scan d target (suc n) i = elim (ltb (length d) (8 + i * 40 + 40)) [
  | true ↦ none
  | false ↦ elim (le_value (slice d (8 + i * 40) 8) == target) [
    | true ↦ some (key_of_bytes (slice d (8 + i * 40 + 8) 32))
    | false ↦ slot_hash_scan d target n (suc i)
  ]
]

unfoldable pub slot_hash_lookup : List ℕ → ℕ → Option ℕ
unfolding slot_hash_scan
slot_hash_lookup d target =
    if ltb (length d) 8 then none else slot_hash_scan d target (le_value (slice d 0 8)) 0

-- The account's data for a list of entries, a slot with its hash each: their number, then each
-- slot in 8 bytes and its hash in 32.
unfoldable pub slot_hash_entries : List (ℕ × ℕ) → List ℕ
slot_hash_entries [] = []
slot_hash_entries ((slot, hash) ∷ rest) =
    le_bytes 8 slot ++ (key_bytes hash ++ slot_hash_entries rest)

unfoldable pub encode_slot_hashes : List (ℕ × ℕ) → List ℕ
unfolding slot_hash_entries
encode_slot_hashes entries = le_bytes 8 (length entries) ++ slot_hash_entries entries

-- The first entry of a slot.
abbrev pub find_hash : List (ℕ × ℕ) → ℕ → Option ℕ
find_hash [] target = none
find_hash ((slot, hash) ∷ rest) target = if slot == target then some hash else find_hash rest target

-- An entry whose slot is a u64 and whose hash has 32 bytes.
abbrev pub IsEntry : ℕ × ℕ → Type 0
IsEntry e = (e.0 < 256 ^ 8) × (e.1 < 256 ^ 32)

length-entry : (slot hash : ℕ) → length (le_bytes 8 slot ++ key_bytes hash) ≡ 40
length-entry slot hash = omega (
  arith,
  length-append (le_bytes 8 slot) (key_bytes hash),
  length-u64_bytes slot,
  length-key_bytes hash,
)

-- Where the entry after `front` has its parts.
record EntryAt (d : List ℕ) (offset slot hash : ℕ) : Type 0 where
  slot_bytes : slice d offset 8 ≡ le_bytes 8 slot
  hash_bytes : slice d (offset + 8) 32 ≡ key_bytes hash
  room : offset + 40 ≤ length d

entry_at :
    (d front rest : List ℕ) (slot hash offset : ℕ)
    → d ≡ front ++ (le_bytes 8 slot ++ (key_bytes hash ++ rest))
    → length front ≡ offset
    → EntryAt d offset slot hash
entry_at d front rest slot hash offset e l =
    let ss = le_bytes 8 slot in
    let hs = key_bytes hash in
    let ls = length-u64_bytes slot in
    let lh = length-key_bytes hash in
    record {
      slot_bytes = rw e (slice-middle front ss (hs ++ rest) offset 8 l ls);
      hash_bytes =
          rw (e, ← append_assoc front ss (hs ++ rest))
            (slice-middle (front ++ ss) hs rest (offset + 8) 32
              (omega (arith, length-append front ss)) lh);
      room = rw e (
          omega (
            arith,
            length-append front (ss ++ (hs ++ rest)),
            length-append ss (hs ++ rest),
            length-append hs rest,
          ));
    }

slot_hash_scan-find_hash :
    (d front : List ℕ) (entries : List (ℕ × ℕ)) (target i : ℕ)
    → d ≡ front ++ slot_hash_entries entries
    → length front ≡ 8 + i * 40
    → All IsEntry entries
    → slot_hash_scan d target (length entries) i ≡ find_hash entries target
unfolding slot_hash_scan slot_hash_entries
slot_hash_scan-find_hash d front [] target i e l w = refl
slot_hash_scan-find_hash d front ((slot, hash) ∷ rest) target i e l (w, ws) =
    let at = entry_at d front (slot_hash_entries rest) slot hash (8 + i * 40) e l in
    let room = at.room in
    let same_slot : le_value (slice d (8 + i * 40) 8) ≡ slot =
      ap le_value at.slot_bytes ∙ le_value-le_bytes 8 slot w.0 in
    let same_hash : key_of_bytes (slice d (8 + i * 40 + 8) 32) ≡ hash =
      ap key_of_bytes at.hash_bytes ∙ key_of_bytes-key_bytes hash w.1 in
    let entry = le_bytes 8 slot ++ key_bytes hash in
    let more = slot_hash_entries rest in
    let regroup : d ≡ (front ++ entry) ++ more =
      rw (append_assoc front entry more, append_assoc (le_bytes 8 slot) (key_bytes hash) more) e in
    let ih =
      slot_hash_scan-find_hash d (front ++ entry) rest target (suc i) regroup
        (omega (arith, length-append front entry, length-entry slot hash)) ws in
    ground (arith, same_slot, same_hash, ih)

-- On the encoding of entries whose slots fit in 8 bytes and whose hashes fit in 32, fewer than
-- 2^64 of them the search gives the hash of the first entry with the
-- slot asked for, and nothing where no entry has it.
pub slot_hash_lookup-encode_slot_hashes :
    (entries : List (ℕ × ℕ)) (target : ℕ)
    → All IsEntry entries
    → length entries < 256 ^ 8
    → slot_hash_lookup (encode_slot_hashes entries) target ≡ find_hash entries target
unfolding slot_hash_lookup encode_slot_hashes
slot_hash_lookup-encode_slot_hashes entries target w short =
    let count = le_bytes 8 (length entries) in
    let body = slot_hash_entries entries in
    let lc = length-u64_bytes (length entries) in
    let read : le_value (slice (count ++ body) 0 8) ≡ length entries =
      ap le_value (take-append count body 8 lc) ∙ le_value-le_bytes 8 (length entries) short in
    let scanned = slot_hash_scan-find_hash (count ++ body) count entries target 0 refl lc w in
    ground (arith, read, scanned, length-append count body)
