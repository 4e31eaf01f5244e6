-- ===== src/Ssd/Media.antt =====
-- ssd.h: the state of blocks and pages, `struct nand_block` and `struct nand_page`. The arrays behind
-- `get_blk` and `get_pg` are functions of the address, which read its channel, LUN, plane, block and
-- page; sectors (`sec`) and the field `wp` are never read after `ssd_init`.
use nvmevirt_fdp.Prelude.{ℕ, Bool, true, false, if◌then◌else◌}
use nvmevirt_fdp.Ssd.Address.{Ppa, same_blk, same_pg}

-- PG_FREE, PG_INVALID, PG_VALID.
pub data PageStatus : Type 0 where
  pg_free pg_invalid pg_valid : PageStatus

abbrev pub is_free : PageStatus → Bool
is_free PageStatus.pg_free = true
is_free PageStatus.pg_invalid = false
is_free PageStatus.pg_valid = false

abbrev pub is_valid : PageStatus → Bool
is_valid PageStatus.pg_valid = true
is_valid PageStatus.pg_free = false
is_valid PageStatus.pg_invalid = false

pub record Block : Type 0 where
  pub ipc : ℕ
  pub vpc : ℕ
  pub erase_cnt : ℕ

pub record Media : Type 0 where
  pub get_pg : Ppa → PageStatus
  pub get_blk : Ppa → Block

abbrev pub set_pg : Media → Ppa → PageStatus → Media
set_pg m p st = record m { get_pg = λ q. if same_pg p q then st else m.get_pg q }

abbrev pub set_blk : Media → Ppa → Block → Media
set_blk m p b = record m { get_blk = λ q. if same_blk p q then b else m.get_blk q }

-- `ssd_init_nand_blk` and `ssd_init_nand_page`, for every block and page.
unfoldable pub init_media : Media
init_media = record {
  get_pg = λ _. PageStatus.pg_free;
  get_blk = λ _. record { ipc = 0; vpc = 0; erase_cnt = 0 };
}
