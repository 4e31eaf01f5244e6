-- ===== src/Kv/Batch.antt =====
-- kv_ftl.c: one store of a batch, `__do_perform_kv_batched_io`.
use nvmevirt_fdp.Prelude.{ℕ, Option, none, some, ◌==◌, if◌then◌else◌, ◌>>=◌}
use nvmevirt_fdp.Kv.Table.{no_offset, get_mapping_entry, new_mapping_entry}
use nvmevirt_fdp.Kv.Memory.{Allocator}
use nvmevirt_fdp.Kv.Io.{nvme_cmd_kv_store, KvFtl}

-- The `memcpy` of a value to the storage.
pub record StorageWrite : Type 0 where
  pub offset : ℕ
  pub val_len : ℕ

module _ (al : Allocator) where
  -- `allocate_mem_offset_by_length`: an allocator that fails gives offset 0.
  unfoldable pub allocate_mem_offset_by_length : KvFtl al → ℕ → ℕ × KvFtl al
  allocate_mem_offset_by_length f val_len =
      let (offset, memory) = al.allocate val_len f.memory in
      (if offset == no_offset then 0 else offset, record f { memory = memory })

  -- `__do_perform_kv_batched_io`: what is written, and the state. The length of an entry that exists is not
  -- updated. A length of less than 0 is not modelled.
  unfoldable pub do_perform_kv_batched_io :
      KvFtl al → ℕ → (ℕ → ℕ) → ℕ → ℕ → Option (Option StorageWrite × KvFtl al)
  unfolding get_mapping_entry allocate_mem_offset_by_length new_mapping_entry
  do_perform_kv_batched_io f opcode key key_len val_len = do
    entry ← get_mapping_entry f.table key key_len
    if opcode == nvme_cmd_kv_store
        then (if entry.mem_offset == no_offset
            then (do
              let (offset, g) = allocate_mem_offset_by_length f val_len
              table ← new_mapping_entry g.table g.storage_size key key_len val_len offset
              some (
                some (record { offset = offset; val_len = val_len }),
                record g { table = table },
              ))
            else some (some (record { offset = entry.mem_offset; val_len = val_len }), f))
        else some (none, f)
