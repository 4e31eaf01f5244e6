-- ===== src/Zns/State.antt =====
-- nvme_zns.h and zns_ftl.h: zones, their resources and the state of the ZNS FTL, with the functions of
-- zns_ftl.h on them. The arrays behind `zone_descs`, `zone_write_buffer` and `zrwa_buffer` are
-- functions of the zone's number, and the memory behind `storage_base_addr` of the byte's.
use nvmevirt_fdp.Prelude.{
  ℕ, ◌+◌, ◌-◌, ◌*◌, ◌/◌, ◌%◌, ◌^◌, Bool, true, false, List, ltb, ◌==◌, if◌then◌else◌,
}
use nvmevirt_fdp.Ssd.Config.{SsdParams, u32, u64}
use nvmevirt_fdp.Ssd.Buffer.{Buffer}
use nvmevirt_fdp.Ssd.Nand.{SsdTime}
use nvmevirt_fdp.Zns.Config.{ZnsParams}

-- `enum zone_state`.
pub data ZoneState : Type 0 where
  zone_empty opened_impl opened_expl closed read_only full offline : ZoneState

-- `struct zone_descriptor`: the fields that the code uses. `zrwav` is one bit.
pub record ZoneDesc : Type 0 where
  pub state : ZoneState
  pub zrwav : Bool
  pub zone_capacity : ℕ
  pub zslba : ℕ
  pub wp : ℕ

-- `struct zone_resource_info`.
pub record ZoneResource : Type 0 where
  pub acquired_cnt : ℕ
  pub total_cnt : ℕ

-- `enum zone_resource_type`.
pub data ResourceType : Type 0 where
  active_zone open_zone zrwa_zone : ResourceType

-- The buffer that a scheduled internal operation releases to: `ssd->write_buffer`, or one of a zone.
pub data BufferRef : Type 0 where
  ssd_buffer : BufferRef
  zone_buffer zrwa_buffer_of : ℕ → BufferRef

-- A call of `schedule_internal_operation` of io.c.
pub record ZnsRelease : Type 0 where
  pub sqid : ℕ
  pub nsecs_target : ℕ
  pub write_buffer : BufferRef
  pub buffs_to_release : ℕ

-- `struct zns_ftl`, with what it points to. `res_infos` has one field for each type.
pub record ZnsFtl : Type 0 where
  pub sp : SsdParams
  pub zp : ZnsParams
  pub res_active : ZoneResource
  pub res_open : ZoneResource
  pub res_zrwa : ZoneResource
  pub zone_descs : ℕ → ZoneDesc
  pub zone_write_buffer : ℕ → Buffer
  pub zrwa_buffer : ℕ → Buffer
  pub write_buffer : Buffer
  pub time : SsdTime
  pub storage : ℕ → ℕ
  pub scheduled : List ZnsRelease

abbrev pub get_resource : ZnsFtl → ResourceType → ZoneResource
get_resource f active_zone = f.res_active
get_resource f open_zone = f.res_open
get_resource f zrwa_zone = f.res_zrwa

abbrev pub set_resource : ZnsFtl → ResourceType → ZoneResource → ZnsFtl
set_resource f active_zone r = record f { res_active = r }
set_resource f open_zone r = record f { res_open = r }
set_resource f zrwa_zone r = record f { res_zrwa = r }

-- `is_zone_resource_avail`, `is_zone_resource_full`.
abbrev pub is_zone_resource_avail : ZnsFtl → ResourceType → Bool
is_zone_resource_avail f type =
    ltb (get_resource f type).acquired_cnt (get_resource f type).total_cnt

abbrev pub is_zone_resource_full : ZnsFtl → ResourceType → Bool
is_zone_resource_full f type = (get_resource f type).acquired_cnt == (get_resource f type).total_cnt

-- `acquire_zone_resource`: whether there was one, and the state.
abbrev pub acquire_zone_resource : ZnsFtl → ResourceType → Bool × ZnsFtl
acquire_zone_resource f type =
    if is_zone_resource_avail f type
    then (
      true,
      set_resource f type (record (get_resource f type) {
        acquired_cnt = u32 ((get_resource f type).acquired_cnt + 1);
      }),
    )
    else (false, f)

-- `release_zone_resource`. `ASSERT` is an empty macro, so the count wraps below 0.
abbrev pub release_zone_resource : ZnsFtl → ResourceType → ZnsFtl
release_zone_resource f type = set_resource f type (record (get_resource f type) {
  acquired_cnt = ((get_resource f type).acquired_cnt + 2 ^ 32 - 1) % 2 ^ 32;
})

abbrev pub set_desc : ZnsFtl → ℕ → ZoneDesc → ZnsFtl
set_desc f zid d = record f { zone_descs = λ i. if zid == i then d else f.zone_descs i }

-- `change_zone_state`.
abbrev pub change_zone_state : ZnsFtl → ℕ → ZoneState → ZnsFtl
change_zone_state f zid state = set_desc f zid (record (f.zone_descs zid) { state = state })

-- Pages and sectors of a zone.
abbrev pub zone_pgs : ZnsFtl → ℕ
zone_pgs f = f.zp.zone_size / f.sp.pgsz

abbrev pub zone_lbas : ZnsFtl → ℕ
zone_lbas f = f.zp.zone_size / f.sp.secsz

-- The conversions. Products of `uint32_t` wrap before they are widened.
abbrev pub lpn_to_zone : ZnsFtl → ℕ → ℕ
lpn_to_zone f lpn = u32 (lpn / zone_pgs f)

abbrev pub zone_to_slpn : ZnsFtl → ℕ → ℕ
zone_to_slpn f zid = u32 (zid * zone_pgs f)

abbrev pub lba_to_zone : ZnsFtl → ℕ → ℕ
lba_to_zone f lba = u32 (lba / zone_lbas f)

abbrev pub zone_to_slba : ZnsFtl → ℕ → ℕ
zone_to_slba f zid = u32 (zid * zone_lbas f)

abbrev pub zone_to_elba : ZnsFtl → ℕ → ℕ
zone_to_elba f zid = u64 (zone_to_slba f (u32 (zid + 1)) + 2 ^ 64 - 1)

abbrev pub zone_to_elpn : ZnsFtl → ℕ → ℕ
zone_to_elpn f zid = zone_to_elba f zid / f.sp.secs_per_pg

abbrev pub lba_to_lpn : ZnsFtl → ℕ → ℕ
lba_to_lpn f lba = lba / f.sp.secs_per_pg

abbrev pub die_to_channel : ZnsFtl → ℕ → ℕ
die_to_channel f die = die % f.sp.nchs

abbrev pub die_to_lun : ZnsFtl → ℕ → ℕ
die_to_lun f die = die / f.sp.nchs
