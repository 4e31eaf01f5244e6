-- ===== src/Tests/Keys.antt =====
-- The key-value FTL at concrete inputs: a table of 4 slots, and memory of 1 MB that is never reused.
use nvmevirt_fdp.Prelude.{
  ℕ, ◌≡◌, refl, arith, some, [], ◌∷◌, Returns, inl, if-rule, ◌==◌, if◌then◌else◌, ◌-◌, ◌^◌, ◌>>=◌,
}
use nvmevirt_fdp.Kv.Table.{
  Entry, Table, hash_function, same_bytes, find_key, delete_mapping_entry, no_slot, find_slot,
  get_hash_slot, get_mapping_entry, new_mapping_entry,
}
use nvmevirt_fdp.Kv.Table.Walk.{IsTable}
use nvmevirt_fdp.Kv.Table.Insert.{IsFree, Finds, new_mapping_entry-Finds}
use nvmevirt_fdp.Kv.Memory.{
  append_only_ops, append_only_allocator_init, allocate_all, IsPacked, sum, allocate_all-IsPacked,
}
use nvmevirt_fdp.Kv.Io.{KvCommand, KvFtl}
use nvmevirt_fdp.Kv.Iter.{iter_scan, matches}
use nvmevirt_fdp.Kv.Iter.Scans.{Scanned, iter_scan-Scanned}
use nvmevirt_fdp.Kv.Io.Stored.{Stored}

-- Three pieces, of which the second takes a page.
allocate_all-IsPacked_example :
    IsPacked
      (allocate_all (100 ∷ 4096 ∷ 8 ∷ []) (append_only_allocator_init 1048576)).1.latest
      0
      (allocate_all (100 ∷ 4096 ∷ 8 ∷ []) (append_only_allocator_init 1048576)).0
unfolding append_only_allocator_init sum
allocate_all-IsPacked_example =
    allocate_all-IsPacked (100 ∷ 4096 ∷ 8 ∷ []) (append_only_allocator_init 1048576) (omega arith)

-- A table whose slot 2 holds a key that the others are chained behind.
abbrev keys : Table
keys = record {
  slots = λ i.
      if i == 2
      then record { key = λ j. 7; mem_offset = 0; len = 8; next_slot = no_slot }
      else record { key = λ j. 0; mem_offset = 2 ^ 64 - 1; len = 2 ^ 64 - 1; next_slot = no_slot };
  hash_slots = 4;
}

keys-IsTable : IsTable keys
keys-IsTable = record {
  some_slot = omega arith;
  slots_fit = omega arith;
  links = λ i u. inl (if-rule {A = Entry} (λ e. e.next_slot ≡ no_slot) (i == 2) _ _ refl refl);
}

-- The key of one byte 5, whose hash is that slot.
abbrev five : ℕ → ℕ
five i = 5

five-IsFree : IsFree keys 3
five-IsFree = (refl, omega arith)

five_absent : find_slot 4 keys five 1 (get_hash_slot keys five 1) ≡ some no_slot
unfolding find_slot get_hash_slot hash_function same_bytes
five_absent = refl

new_mapping_entry-Finds_example :
    Returns
      (λ t. Returns (Finds 12 4096) (get_mapping_entry t five 1))
      (new_mapping_entry keys 1048576 five 1 12 4096)
new_mapping_entry-Finds_example =
    new_mapping_entry-Finds keys 1048576 five 1 12 4096 3 keys-IsTable (omega arith) (omega arith)
      (omega arith) five-IsFree five_absent

abbrev store : KvCommand
store = record {
  opcode = 0x81;
  key = five;
  key_len = 0;
  value_len = 2000;
  prp1 = 5000;
  prp2 = 8192;
}

abbrev device : KvFtl append_only_ops
unfolding append_only_ops
device = record {
  table = keys;
  memory = record { latest = 4096; dev_size = 1048576; total_written = 4096 };
  storage_size = 1048576;
}

-- A deletion of the first key of a chain hides the rest of it: `next_slot` is lost with the entry.
abbrev chained : Table
chained = record {
  slots = λ i.
      if i == 2
      then record { key = λ j. 1; mem_offset = 0; len = 8; next_slot = 3 }
      else if i == 3
      then record { key = λ j. 5; mem_offset = 8; len = 8; next_slot = no_slot }
      else record { key = λ j. 0; mem_offset = 2 ^ 64 - 1; len = 2 ^ 64 - 1; next_slot = no_slot };
  hash_slots = 4;
}

found_before : find_key chained five 1 ≡ some 3
unfolding find_key find_slot get_hash_slot hash_function same_bytes
found_before = refl

lost_after : (delete_mapping_entry chained (λ i. 1) 1 >>= λ t. find_key t five 1) ≡ some no_slot
unfolding delete_mapping_entry find_key find_slot get_hash_slot hash_function same_bytes
lost_after = refl

-- An iterator for keys that begin with the byte 5, over the chain.
iter_scan-Scanned_example :
    Scanned chained
      (record { prefix = 5; bitmask = 255; current_pos = 0 })
      0
      4
      (iter_scan 4 chained (record { prefix = 5; bitmask = 255; current_pos = 0 }) 0 4)
iter_scan-Scanned_example =
    iter_scan-Scanned chained (record { prefix = 5; bitmask = 255; current_pos = 0 }) 4 0 4
      (omega arith) (omega arith)

found_by_scan :
    (iter_scan 4 chained (record { prefix = 5; bitmask = 255; current_pos = 0 }) 0 4).found ≡ 3 ∷ []
unfolding iter_scan matches
found_by_scan = refl
