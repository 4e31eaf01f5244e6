-- ===== src/Kv/Io.antt =====
-- kv_ftl.c: the commands on one key, `__do_perform_kv_io`. nvme_kv.h: the fields of the commands that are
-- read, which its views have at the same place. What is copied between the host and the storage is the
-- list of copies, at offsets of the storage.
pub mod Stored
use nvmevirt_fdp.Prelude.{
  ℕ, ◌+◌, ◌*◌, ◌%◌, ◌^◌, Bool, true, false, Option, none, some, List, [], min, leb, ◌==◌, ◌&&◌, not,
  if◌then◌else◌, ◌>>=◌,
}
use nvmevirt_fdp.Ssd.Config.{u32}
use nvmevirt_fdp.Zns.Recv.{Copy, prp_copies}
use nvmevirt_fdp.Kv.Table.{
  no_offset, no_slot, Entry, Table, no_entry, get_mapping_entry, update_mapping_entry,
  delete_mapping_entry, new_mapping_entry,
}
use nvmevirt_fdp.Kv.Memory.{Allocator}

abbrev pub nvme_cmd_kv_store : ℕ
nvme_cmd_kv_store = 0x81

abbrev pub nvme_cmd_kv_retrieve : ℕ
nvme_cmd_kv_retrieve = 0x90

abbrev pub nvme_cmd_kv_delete : ℕ
nvme_cmd_kv_delete = 0xA1

abbrev pub nvme_cmd_kv_exist : ℕ
nvme_cmd_kv_exist = 0xB3

abbrev pub kv_err_key_not_exist : ℕ
kv_err_key_not_exist = 0x310

abbrev pub small_length : ℕ
small_length = 1024

-- `struct nvme_kv_command`.
pub record KvCommand : Type 0 where
  pub opcode : ℕ
  pub key : ℕ → ℕ
  pub key_len : ℕ
  pub value_len : ℕ
  pub prp1 : ℕ
  pub prp2 : ℕ

abbrev pub cmd_key_length : KvCommand → ℕ
cmd_key_length cmd = cmd.key_len + 1

abbrev pub cmd_value_length : KvCommand → ℕ
cmd_value_length cmd = u32 (cmd.value_len * 4)

-- `struct kv_ftl`, but for the handles of iterators, with the state of the allocator and the part of the
-- configuration that is read.
pub record KvFtl (al : Allocator) : Type 0 where
  pub table : Table
  pub memory : al.A
  pub storage_size : ℕ

-- What a command leaves: its result, the status if it sets one, the copies, and the state.
pub record KvReply (al : Allocator) : Type 0 where
  pub result : ℕ
  pub status : Option ℕ
  pub copies : List Copy
  pub ftl : KvFtl al

module _ (al : Allocator) (host : ℕ → ℕ) where
  -- A command that copies nothing.
  abbrev pub kv_reply : KvFtl al → Option ℕ → KvReply al
  kv_reply f status = record { result = 0; status = status; copies = []; ftl = f }

  -- The loop over the PRPs.
  unfoldable pub kv_copies : KvCommand → ℕ → ℕ → Option (List Copy)
  unfolding prp_copies
  kv_copies cmd offset length = prp_copies length host cmd.prp1 cmd.prp2 length offset 0 none

  -- `allocate_mem_offset`, for a store: an allocator that fails gives offset 0.
  unfoldable pub allocate_mem_offset : KvFtl al → KvCommand → ℕ × KvFtl al
  allocate_mem_offset f cmd =
      let (offset, memory) = al.allocate (cmd_value_length cmd) f.memory in
      (if offset == no_offset then 0 else offset, record f { memory = memory })

  -- A store of a key that has no entry.
  unfoldable pub kv_insert : KvFtl al → KvCommand → Option (KvReply al)
  unfolding allocate_mem_offset kv_copies new_mapping_entry
  kv_insert f cmd = do
    let (offset, g) = allocate_mem_offset f cmd
    copies ← kv_copies cmd offset (cmd_value_length cmd)
    table ←
        new_mapping_entry g.table g.storage_size cmd.key (cmd_key_length cmd) (cmd_value_length cmd)
          offset
    some (record { result = 0; status = none; copies = copies; ftl = record g { table = table } })

  -- A store of a key that has one: the new length is recorded if both are small.
  unfoldable pub kv_update : KvFtl al → KvCommand → Entry → Option (KvReply al)
  unfolding kv_copies update_mapping_entry
  kv_update f cmd entry = do
    let length = cmd_value_length cmd
    copies ← kv_copies cmd entry.mem_offset length
    (_, table) ←
        (if not (length == entry.len) && leb length small_length && leb entry.len small_length
          then update_mapping_entry f.table cmd.key (cmd_key_length cmd) length
          else some (0, f.table))
    some (record { result = 0; status = none; copies = copies; ftl = record f { table = table } })

  -- A retrieval of a key that has an entry: the length that is copied.
  unfoldable pub kv_retrieve : KvFtl al → KvCommand → Entry → Option (KvReply al)
  unfolding kv_copies
  kv_retrieve f cmd entry = do
    let length = min entry.len (cmd_value_length cmd)
    copies ← kv_copies cmd entry.mem_offset length
    some (record { result = u32 length; status = none; copies = copies; ftl = f })

  -- `__do_perform_kv_io`.
  unfoldable pub do_perform_kv_io : KvFtl al → KvCommand → Option (KvReply al)
  unfolding get_mapping_entry kv_insert kv_update kv_retrieve delete_mapping_entry
  do_perform_kv_io f cmd = do
    entry ← get_mapping_entry f.table cmd.key (cmd_key_length cmd)
    let absent = entry.mem_offset == no_offset
    if cmd.opcode == nvme_cmd_kv_store
        then (if absent then kv_insert f cmd else kv_update f cmd entry)
        else if cmd.opcode == nvme_cmd_kv_retrieve
        then (if absent
            then some (kv_reply f (some kv_err_key_not_exist))
            else kv_retrieve f cmd entry)
        else if cmd.opcode == nvme_cmd_kv_exist
        then some (kv_reply f (if absent then some kv_err_key_not_exist else none))
        else if cmd.opcode == nvme_cmd_kv_delete
        then (if absent then some (kv_reply f (some kv_err_key_not_exist)) else (do
          table ← delete_mapping_entry f.table cmd.key (cmd_key_length cmd)
          some (kv_reply (record f { table = table }) none)))
        else some (kv_reply f none)

-- The table after `kv_init_namespace`: what is not set to -1 is 0.
unfoldable pub kv_init_table : ℕ → Table
kv_init_table hash_slots = record {
  slots =
      λ i. record { key = λ j. 0; mem_offset = no_offset; len = no_offset; next_slot = no_slot };
  hash_slots = hash_slots;
}

-- `kv_init_namespace`, for a table of `hash_slots` entries.
unfoldable pub kv_init_namespace : (al : Allocator) → ℕ → ℕ → KvFtl al
unfolding kv_init_table
kv_init_namespace al storage_size hash_slots = record {
  table = kv_init_table hash_slots;
  memory = al.init storage_size;
  storage_size = storage_size;
}
