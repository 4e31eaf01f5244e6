-- ===== src/Zns/Io.antt =====
-- zns_read_write.c: what reads and writes share; nvmev.h: `struct nvmev_result` with the field `result`
-- of a zone append. The divisors are parameters of the device, which are positive.
use nvmevirt_fdp.Prelude.{
  ℕ, ◌+◌, ◌-◌, ◌*◌, ◌/◌, ◌%◌, ◌^◌, Bool, not, ◌||◌, min, ◌==◌, if◌then◌else◌,
}
use nvmevirt_fdp.Ssd.Config.{u32, u64}
use nvmevirt_fdp.Ssd.Address.{Ppa}
use nvmevirt_fdp.Fdp.Namespace.{NvmeCommand}
use nvmevirt_fdp.Fdp.Namespace.Write.{is_fua}
use nvmevirt_fdp.Zns.State.{
  full, ZnsFtl, active_zone, open_zone, set_desc, change_zone_state, release_zone_resource,
  lpn_to_zone, zone_to_slpn, lba_to_zone, zone_to_slba, die_to_channel, die_to_lun,
}

-- `struct nvmev_result`.
pub record ZnsResult : Type 0 where
  pub status : ℕ
  pub nsecs_target : ℕ
  pub result : ℕ

-- What a handler leaves: whether the command was taken, the command's SLBA (an append rewrites it in the
-- submission queue), the result and the state.
pub record ZnsReply : Type 0 where
  pub taken : Bool
  pub slba : ℕ
  pub ret : ZnsResult
  pub ftl : ZnsFtl

-- `__check_boundary_error`: whether the blocks are of one zone.
abbrev pub check_boundary_error : ZnsFtl → ℕ → ℕ → Bool
check_boundary_error f slba nr_lba =
    lba_to_zone f slba == lba_to_zone f (u64 (slba + u32 nr_lba + 2 ^ 64 - 1))

-- `__increase_write_ptr`. Its `ASSERT` is an empty macro.
unfoldable pub increase_write_ptr : ZnsFtl → ℕ → ℕ → ZnsFtl
increase_write_ptr f zid nr_lba =
    let d = f.zone_descs zid in
    let wp = u64 (d.wp + u32 nr_lba) in
    let g = set_desc f zid (record d { wp = wp }) in
    if wp == u64 (zone_to_slba f zid + d.zone_capacity)
    then change_zone_state (release_zone_resource (release_zone_resource g open_zone) active_zone)
        zid full
    else g

-- `__lpn_to_ppa`. The fields of the address are bit fields.
unfoldable pub lpn_to_ppa : ZnsFtl → ℕ → Ppa
lpn_to_ppa f lpn =
    let zone = lpn_to_zone f lpn in
    let off = u64 (lpn + 2 ^ 64 - zone_to_slpn f zone) in
    let sdie = u64 (zone * f.zp.dies_per_zone) % f.sp.tt_luns in
    let die = u32 (sdie + off / f.sp.pgs_per_oneshotpg % f.zp.dies_per_zone) in
    record {
      pg = off % f.sp.pgs_per_oneshotpg % 2 ^ 16;
      blk = 0;
      pl = 0;
      lun = die_to_lun f die % 2 ^ 8;
      ch = die_to_channel f die % 2 ^ 8;
      rsv = 0;
    }

-- The pages from `lpn` on, `left` at most, that are of one group of `size` pages.
abbrev pub pages_of_group : ℕ → Ppa → ℕ → ℕ
pages_of_group size p left = min left (u64 (size - p.pg % size))

-- The completion time: a command with FUA, or a device without early completion, waits for the NAND.
abbrev pub completion : ZnsFtl → NvmeCommand → ℕ → ℕ → ℕ
completion f cmd nsecs_latest nsecs_xfer_completed =
    if is_fua cmd || not f.sp.write_early_completion then nsecs_latest else nsecs_xfer_completed
