-- ===== src/Kv/Table.antt =====
-- kv_ftl.h: `struct mapping_entry` and the hash of keys; kv_ftl.c: the mapping table, a hash table whose
-- entries are chained through `next_slot`. A key is a function of the byte. A key longer than the 18
-- bytes that an entry has for it overwrites the fields behind them in C, and is a fault here.
use Prim.Native.Nat.{bit_xor}
pub mod Walk
pub mod Insert
use nvmevirt_fdp.Prelude.{
  ℕ, zero, suc, ◌+◌, ◌-◌, ◌*◌, ◌%◌, ◌^◌, Bool, true, false, not, ◌&&◌, Option, none, some, ltb, leb,
  ◌==◌, if◌then◌else◌, ◌>>=◌, ◌>>◌, nvmev_assert,
}
use nvmevirt_fdp.Ssd.Config.{u32}

-- -1 as a `size_t` and as an `unsigned int`.
abbrev pub no_offset : ℕ
no_offset = 2 ^ 64 - 1

abbrev pub no_slot : ℕ
no_slot = 2 ^ 32 - 1

-- `struct mapping_entry`.
pub record Entry : Type 0 where
  pub key : ℕ → ℕ
  pub mem_offset : ℕ
  pub len : ℕ
  pub next_slot : ℕ

-- An entry whose bytes are all set to -1.
abbrev pub no_entry : Entry
no_entry = record { key = λ i. 255; mem_offset = no_offset; len = no_offset; next_slot = no_slot }

-- The mapping table, and `hash_slots`.
pub record Table : Type 0 where
  pub slots : ℕ → Entry
  pub hash_slots : ℕ

abbrev pub set_entry : Table → ℕ → Entry → Table
set_entry t slot e = record t { slots = λ i. if slot == i then e else t.slots i }

-- Whether a slot holds an entry.
abbrev pub is_used : Table → ℕ → Bool
is_used t slot = not ((t.slots slot).mem_offset == no_offset)

-- `hash_function`, over the bytes up to `length`.
unfoldable pub hash_function : (ℕ → ℕ) → ℕ → ℕ
hash_function key zero = 2166136261
hash_function key (suc i) = bit_xor (u32 (hash_function key i * 16777619)) (key i)

unfoldable pub get_hash_slot : Table → (ℕ → ℕ) → ℕ → ℕ
unfolding hash_function
get_hash_slot t key key_len = hash_function key key_len % t.hash_slots

-- `memcmp(a, b, n) == 0`.
unfoldable pub same_bytes : (ℕ → ℕ) → (ℕ → ℕ) → ℕ → Bool
same_bytes a b zero = true
same_bytes a b (suc n) = same_bytes a b n && a n == b n

-- The walk along a chain that `update_mapping_entry`, `get_mapping_entry` and `delete_mapping_entry`
-- begin with: the slot where the key was found, or -1. The fuel counts the rounds; a chain that never
-- ends is walked forever.
unfoldable pub find_slot : ℕ → Table → (ℕ → ℕ) → ℕ → ℕ → Option ℕ
unfolding same_bytes
find_slot zero t key key_len slot = none
find_slot (suc fuel) t key key_len slot = elim (is_used t slot) [
  | false ↦ some no_slot
  | true ↦ elim (same_bytes key (t.slots slot).key key_len) [
    | true ↦ some slot
    | false ↦ elim ((t.slots slot).next_slot == no_slot) [
      | true ↦ some no_slot
      | false ↦ find_slot fuel t key key_len (t.slots slot).next_slot
    ]
  ]
]

-- The walk from the slot of a key's hash. A chain has no more entries than the table.
unfoldable pub find_key : Table → (ℕ → ℕ) → ℕ → Option ℕ
unfolding find_slot get_hash_slot
find_key t key key_len = do
  nvmev_assert (leb key_len 18)
  find_slot (t.hash_slots + 1) t key key_len (get_hash_slot t key key_len)

-- `get_mapping_entry` and `get_mapping_entry_by_key`: the entry of a key, or `no_entry`.
unfoldable pub get_mapping_entry : Table → (ℕ → ℕ) → ℕ → Option Entry
unfolding find_key
get_mapping_entry t key key_len = do
  slot ← find_key t key key_len
  some (
      if slot == no_slot
      then no_entry
      else record (t.slots slot) { key = λ i. if ltb i key_len then (t.slots slot).key i else 255 })

-- `update_mapping_entry`: 1 if there is no such key.
unfoldable pub update_mapping_entry : Table → (ℕ → ℕ) → ℕ → ℕ → Option (ℕ × Table)
unfolding find_key
update_mapping_entry t key key_len value_len = do
  slot ← find_key t key key_len
  some (
      if slot == no_slot
      then (1, t)
      else (0, set_entry t slot (record (t.slots slot) { len = value_len })))

-- `delete_mapping_entry`, whose result is not used.
unfoldable pub delete_mapping_entry : Table → (ℕ → ℕ) → ℕ → Option Table
unfolding find_key
delete_mapping_entry t key key_len = do
  slot ← find_key t key key_len
  some (if slot == no_slot then t else set_entry t slot no_entry)

-- The first loop of `find_next_slot`: the last entry of a chain, with the one before `tail` in `prevs`.
unfoldable pub find_tail : ℕ → Table → ℕ → ℕ → Option ℕ
find_tail zero t tail prevs = none
find_tail (suc fuel) t tail prevs = elim (is_used t tail) [
  | false ↦ some prevs
  | true ↦ elim ((t.slots tail).next_slot == no_slot) [
    | true ↦ some tail
    | false ↦ find_tail fuel t (t.slots tail).next_slot tail
  ]
]

-- The second loop: the first free slot from `slot` on. A full table is searched forever.
unfoldable pub find_free : ℕ → Table → ℕ → Option ℕ
find_free zero t slot = none
find_free (suc fuel) t slot = elim (is_used t slot) [
  | false ↦ some slot
  | true ↦ find_free fuel t (if leb t.hash_slots (u32 (slot + 1)) then 0 else u32 (slot + 1))
]

-- `find_next_slot`: the slot found, and the end of the chain.
unfoldable pub find_next_slot : Table → ℕ → Option (ℕ × ℕ)
unfolding find_tail find_free
find_next_slot t original_slot = do
  prevs ← find_tail (t.hash_slots + 1) t original_slot no_slot
  slot ← find_free (t.hash_slots + 1) t prevs
  some (slot, prevs)

-- The entry that is written, over an old one: the key is copied, `next_slot` stays.
abbrev pub written_entry : Entry → (ℕ → ℕ) → ℕ → ℕ → ℕ → Entry
written_entry old key key_len value_len val_offset = record old {
  key = λ i. if ltb i key_len then key i else old.key i;
  mem_offset = val_offset;
  len = value_len;
}

abbrev pub chain_mapping : Table → ℕ → ℕ → Table
chain_mapping t prev slot = set_entry t prev (record (t.slots prev) { next_slot = slot })

-- `new_mapping_entry` and `new_mapping_entry_by_key`.
unfoldable pub new_mapping_entry : Table → ℕ → (ℕ → ℕ) → ℕ → ℕ → ℕ → Option Table
unfolding get_hash_slot find_next_slot
new_mapping_entry t storage_size key key_len value_len val_offset = do
  nvmev_assert (ltb val_offset storage_size)
  nvmev_assert (leb key_len 18)
  let hash = get_hash_slot t key key_len
  (slot, prev_slot) ← (if is_used t hash then find_next_slot t hash else some (hash, no_slot))
  let t' = set_entry t slot (written_entry (t.slots slot) key key_len value_len val_offset)
  some (if prev_slot == no_slot then t' else chain_mapping t' prev_slot slot)
