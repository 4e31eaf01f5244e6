-- ===== src/Kv/Io/Stored.antt =====
-- kv_ftl.c: a store of a new key, and a retrieve after it.
use nvmevirt_fdp.Prelude.{ℕ, ◌%◌, ◌^◌, ◌≤◌, ◌<◌, ◌≡◌, min, some, none, List, Returns}
use nvmevirt_fdp.Ssd.Config.{u32, kb}
use nvmevirt_fdp.Zns.Recv.{Copy}
use nvmevirt_fdp.Zns.Recv.Copies.{Carries, prp_page}
use nvmevirt_fdp.Kv.Table.{no_slot, Table, find_slot, get_hash_slot}
use nvmevirt_fdp.Kv.Table.Walk.{IsTable}
use nvmevirt_fdp.Kv.Table.Insert.{IsFree}
use nvmevirt_fdp.Kv.Memory.{Allocator}
use nvmevirt_fdp.Kv.Io.{
  nvme_cmd_kv_retrieve, KvCommand, KvFtl, KvReply, cmd_key_length, cmd_value_length,
  allocate_mem_offset, do_perform_kv_io,
}

-- The copies carry `length` bytes of the storage from `offset` on, to or from the pages that the
-- command's PRPs name.
abbrev pub CarriesFor : (ℕ → ℕ) → KvCommand → ℕ → ℕ → List Copy → Type 0
CarriesFor host cmd offset length cs =
    Carries (prp_page host cmd.prp1 cmd.prp2 length) 0 offset length cs

-- What a retrieval of a value of `stored` bytes at `offset` answers.
pub record Retrieved (al : Allocator) (host : ℕ → ℕ) (stored offset : ℕ) (cmd : KvCommand)
    (g : KvFtl al) (r : KvReply al) : Type 0 where
  pub result : r.result ≡ u32 (min stored (cmd_value_length cmd))
  pub status : r.status ≡ none
  pub copies : CarriesFor host cmd offset (min stored (cmd_value_length cmd)) r.copies
  pub same : r.ftl ≡ g

module _ (al : Allocator) (host : ℕ → ℕ) where
  -- A device that can take a new key: the table has a free slot and links that stay in it, and the memory
  -- that the allocator gives is in the device.
  pub record HasRoomFor (f : KvFtl al) (cmd : KvCommand) : Type 0 where
    pub table : IsTable f.table
    pub free : ℕ
    pub is_free : IsFree f.table free
    pub in_device : (allocate_mem_offset al host f cmd).0 < f.storage_size
    pub device_fits : f.storage_size < 2 ^ 64
    pub key_fits : cmd_key_length cmd ≤ 18
    pub absent :
        find_slot f.table.hash_slots f.table cmd.key
          (cmd_key_length cmd)
          (get_hash_slot f.table cmd.key (cmd_key_length cmd))
        ≡ some no_slot

  -- What a store leaves, and what a retrieval of its key then answers, for any length asked.
  pub record Stored (f : KvFtl al) (cmd : KvCommand) (r : KvReply al) : Type 0 where
    pub carried :
        CarriesFor host cmd (allocate_mem_offset al host f cmd).0 (cmd_value_length cmd) r.copies
    pub retrieved :
        (get : KvCommand)
        → get.opcode ≡ nvme_cmd_kv_retrieve
        → get.key ≡ cmd.key
        → get.key_len ≡ cmd.key_len
        → get.prp2 % kb 4 ≡ 0
        → Returns
            (Retrieved al host
              (cmd_value_length cmd)
              (allocate_mem_offset al host f cmd).0
              get
              r.ftl)
            (do_perform_kv_io al host r.ftl get)
