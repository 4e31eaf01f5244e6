-- ===== src/Zns/Send.antt =====
-- zns_mgmt_send.c: Zone Management Send. Each operation returns the command's status.
pub mod Transitions
pub mod Opening
pub mod Keeps
pub mod Outcomes
use nvmevirt_fdp.Prelude.{
  ℕ, zero, suc, ◌+◌, ◌-◌, ◌*◌, ◌%◌, ◌^◌, Bool, true, false, not, ◌&&◌, ◌||◌, min, ltb, leb, ◌==◌,
  if◌then◌else◌, Option, some, ◌>>=◌, ◌>>◌, nvmev_assert, for_range,
}
use nvmevirt_fdp.Ssd.Config.{u64}
use nvmevirt_fdp.Ssd.Buffer.{buffer_refill}
use nvmevirt_fdp.Fdp.Namespace.{nvme_sc_success, nvme_sc_invalid_field}
use nvmevirt_fdp.Zns.State.{
  ZoneState, zone_empty, opened_impl, opened_expl, closed, read_only, full, offline, ZoneDesc,
  ZnsFtl, active_zone, open_zone, zrwa_zone, is_zone_resource_full, acquire_zone_resource,
  release_zone_resource, set_desc, change_zone_state, zone_to_slba, lba_to_zone,
}

-- NVME_SC_ZNS_*, from 0x1B6 on.
abbrev pub invalid_zone_operation : ℕ
invalid_zone_operation = 0x1B6

abbrev pub zrwa_rsrc_unavail : ℕ
zrwa_rsrc_unavail = 0x1B7

abbrev pub err_boundary : ℕ
err_boundary = 0x1B8

abbrev pub err_full : ℕ
err_full = 0x1B9

abbrev pub err_read_only : ℕ
err_read_only = 0x1BA

abbrev pub err_offline : ℕ
err_offline = 0x1BB

abbrev pub invalid_write : ℕ
invalid_write = 0x1BC

abbrev pub no_active_zone : ℕ
no_active_zone = 0x1BD

abbrev pub no_open_zone : ℕ
no_open_zone = 0x1BE

abbrev pub invalid_transition : ℕ
invalid_transition = 0x1BF

-- `__zmgmt_send_close_zone`.
unfoldable pub close_zone : ZnsFtl → ℕ → ℕ × ZnsFtl
close_zone f zid = elim (f.zone_descs zid).state [
  | ZoneState.opened_impl ↦
      (nvme_sc_success, release_zone_resource (change_zone_state f zid closed) open_zone)
  | ZoneState.opened_expl ↦
      (nvme_sc_success, release_zone_resource (change_zone_state f zid closed) open_zone)
  | ZoneState.closed ↦ (nvme_sc_success, f)
  | _ ↦ (invalid_transition, f)
]

-- The release of a zone's active resource, and of its ZRWA if it has one.
abbrev pub release_active : ZnsFtl → ℕ → ZnsFtl
release_active f zid =
    let g = release_zone_resource f active_zone in
    if (f.zone_descs zid).zrwav then release_zone_resource g zrwa_zone else g

-- `__zmgmt_send_finish_zone`.
unfoldable pub finish_zone : ZnsFtl → ℕ → ℕ × ZnsFtl
finish_zone f zid = elim (f.zone_descs zid).state [
  | ZoneState.opened_impl ↦ (
    nvme_sc_success,
    change_zone_state (release_active (release_zone_resource f open_zone) zid) zid full,
  )
  | ZoneState.opened_expl ↦ (
    nvme_sc_success,
    change_zone_state (release_active (release_zone_resource f open_zone) zid) zid full,
  )
  | ZoneState.closed ↦ (nvme_sc_success, change_zone_state (release_active f zid) zid full)
  | ZoneState.zone_empty ↦ (nvme_sc_success, change_zone_state f zid full)
  | ZoneState.full ↦ (nvme_sc_success, f)
  | _ ↦ (invalid_transition, f)
]

-- `__zmgmt_send_open_zone`, from the case of a closed zone on.
unfoldable pub open_closed_zone : ZnsFtl → ℕ → ℕ × ZnsFtl
open_closed_zone f zid =
    let (acquired, g) = acquire_zone_resource f open_zone in
    if acquired then (nvme_sc_success, change_zone_state g zid opened_expl) else (no_open_zone, g)

-- The ZRWA of an empty zone that is opened with one.
abbrev pub take_zrwa : ZnsFtl → ℕ → ZnsFtl
take_zrwa f zid =
    let (_, g) = acquire_zone_resource f zrwa_zone in
    set_desc g zid (record (g.zone_descs zid) { zrwav = true })

-- The case of an empty zone, whose checks precede every change.
unfoldable pub open_empty_zone : ZnsFtl → ℕ → Bool → ℕ × ZnsFtl
unfolding open_closed_zone
open_empty_zone f zid zrwa =
    if is_zone_resource_full f active_zone
    then (no_active_zone, f)
    else if is_zone_resource_full f open_zone
    then (no_open_zone, f)
    else if zrwa && is_zone_resource_full f zrwa_zone
    then (zrwa_rsrc_unavail, f)
    else (let g = (if zrwa then take_zrwa f zid else f) in
        let (_, h) = acquire_zone_resource g active_zone in open_closed_zone h zid)

-- `__zmgmt_send_open_zone`.
unfoldable pub open_zone_explicitly : ZnsFtl → ℕ → Bool → ℕ × ZnsFtl
unfolding open_empty_zone open_closed_zone
open_zone_explicitly f zid zrwa = elim (f.zone_descs zid).state [
  | ZoneState.zone_empty ↦ open_empty_zone f zid zrwa
  | ZoneState.closed ↦ open_closed_zone f zid
  | ZoneState.opened_impl ↦ (nvme_sc_success, change_zone_state f zid opened_expl)
  | ZoneState.opened_expl ↦ (nvme_sc_success, f)
  | _ ↦ (invalid_transition, f)
]

-- `__reset_zone`.
unfoldable pub reset_storage : ZnsFtl → ℕ → ZnsFtl
reset_storage f zid =
    let d = f.zone_descs zid in
    let g = set_desc f zid (record d { wp = d.zslba; zrwav = false }) in
    record g {
      storage = λ a.
          if leb (zid * f.zp.zone_size) a && ltb a (zid * f.zp.zone_size + f.zp.zone_size)
          then 0
          else f.storage a;
      zrwa_buffer = λ i.
          if not (f.zp.zrwa_buffer_size == 0) && (zid == i)
          then buffer_refill (f.zrwa_buffer i)
          else f.zrwa_buffer i;
    }

-- The reset of a zone that holds no resource.
abbrev pub empty_zone : ZnsFtl → ℕ → ℕ × ZnsFtl
empty_zone f zid =
    (nvme_sc_success, reset_storage (change_zone_state f zid ZoneState.zone_empty) zid)

-- `__zmgmt_send_reset_zone`.
unfoldable pub reset_zone : ZnsFtl → ℕ → ℕ × ZnsFtl
unfolding reset_storage
reset_zone f zid = elim (f.zone_descs zid).state [
  | ZoneState.opened_impl ↦ empty_zone (release_active (release_zone_resource f open_zone) zid) zid
  | ZoneState.opened_expl ↦ empty_zone (release_active (release_zone_resource f open_zone) zid) zid
  | ZoneState.closed ↦ empty_zone (release_active f zid) zid
  | ZoneState.full ↦ empty_zone f zid
  | ZoneState.zone_empty ↦ empty_zone f zid
  | _ ↦ (invalid_transition, f)
]

-- `__zmgmt_send_offline_zone`.
unfoldable pub offline_zone : ZnsFtl → ℕ → ℕ × ZnsFtl
offline_zone f zid = elim (f.zone_descs zid).state [
  | ZoneState.read_only ↦ (nvme_sc_success, change_zone_state f zid offline)
  | ZoneState.offline ↦ (nvme_sc_success, f)
  | _ ↦ (invalid_transition, f)
]

-- The write pointer moves behind `slba`; a zone that is written to its end becomes full.
unfoldable pub commit_zrwa : ZnsFtl → ℕ → ℕ → Bool → ℕ × ZnsFtl
commit_zrwa f zid slba is_open =
    let d = f.zone_descs zid in
    let wp = u64 (slba + 1) in
    let g = set_desc f zid (record d { wp = wp }) in
    (
      nvme_sc_success,
      (if wp == u64 (zone_to_slba f zid + d.zone_capacity)
          then (let h = (if is_open then release_zone_resource g open_zone else g) in
              change_zone_state
                (release_zone_resource (release_zone_resource h active_zone) zrwa_zone) zid full)
          else g),
    )

-- The last LBA that an explicit flush may name, and the number of LBAs that it flushes.
abbrev pub zrwa_end : ZnsFtl → ℕ → ℕ
zrwa_end f zid =
    let d = f.zone_descs zid in
    min (u64 (d.wp + f.zp.lbas_per_zrwa + 2 ^ 64 - 1))
      (u64 (zone_to_slba f zid + d.zone_capacity + 2 ^ 64 - 1))

abbrev pub flushed_lbas : ZoneDesc → ℕ → ℕ
flushed_lbas d slba = u64 (slba + 2 ^ 64 - d.wp + 1)

-- The switch on the state of the zone.
unfoldable pub flush_zone : ZnsFtl → ℕ → ℕ → ℕ × ZnsFtl
unfolding commit_zrwa
flush_zone f zid slba = elim (f.zone_descs zid).state [
  | ZoneState.opened_expl ↦ commit_zrwa f zid slba true
  | ZoneState.opened_impl ↦ commit_zrwa f zid slba true
  | ZoneState.closed ↦ commit_zrwa f zid slba false
  | _ ↦ (invalid_zone_operation, f)
]

-- `__zmgmt_send_flush_explicit_zrwa`. Its division faults at 0.
unfoldable pub flush_explicit_zrwa : ZnsFtl → ℕ → Option (ℕ × ZnsFtl)
unfolding flush_zone
flush_explicit_zrwa f slba =
    let zid = lba_to_zone f slba in
    let d = f.zone_descs zid in
    if not d.zrwav
    then some (invalid_zone_operation, f)
    else if not (leb d.wp slba && leb slba (zrwa_end f zid))
    then some (invalid_zone_operation, f)
    else (do
      nvmev_assert (not (f.zp.lbas_per_zrwafg == 0))
      some (
          if not (flushed_lbas d slba % f.zp.lbas_per_zrwafg == 0)
          then (nvme_sc_invalid_field, f)
          else flush_zone f zid slba))

-- `enum zone_send_action`; the actions that the code does not handle are one.
pub data SendAction : Type 0 where
  zsa_close zsa_finish zsa_open zsa_reset zsa_offline zsa_flush_expl_zrwa zsa_other : SendAction

unfoldable pub action_of : ℕ → SendAction
action_of zsa =
    if zsa == 0x1
    then zsa_close
    else if zsa == 0x2
    then zsa_finish
    else if zsa == 0x3
    then zsa_open
    else if zsa == 0x4
    then zsa_reset
    else if zsa == 0x5
    then zsa_offline
    else if zsa == 0x11
    then zsa_flush_expl_zrwa
    else zsa_other

-- `__zmgmt_send`. For another action the status is a variable that is never set: `unset`.
unfoldable pub zmgmt_send : ℕ → ZnsFtl → ℕ → SendAction → Bool → Option (ℕ × ZnsFtl)
unfolding close_zone finish_zone open_zone_explicitly reset_zone offline_zone flush_explicit_zrwa
zmgmt_send unset f slba zsa_close option = some (close_zone f (lba_to_zone f slba))
zmgmt_send unset f slba zsa_finish option = some (finish_zone f (lba_to_zone f slba))
zmgmt_send unset f slba zsa_open option = some (open_zone_explicitly f (lba_to_zone f slba) option)
zmgmt_send unset f slba zsa_reset option = some (reset_zone f (lba_to_zone f slba))
zmgmt_send unset f slba zsa_offline option = some (offline_zone f (lba_to_zone f slba))
zmgmt_send unset f slba zsa_flush_expl_zrwa option = flush_explicit_zrwa f slba
zmgmt_send unset f slba zsa_other option = some (unset, f)

-- The loop over the zones with `select_all`.
unfoldable pub send_all : ℕ → ZnsFtl → SendAction → Bool → Option ZnsFtl
unfolding for_range zmgmt_send
send_all unset f action option =
    for_range f.zp.nr_zones 0
      (λ zid g. do (_, g') ← zmgmt_send unset g (zone_to_slba g zid) action option; some g') f

-- The fields of `struct nvme_zone_mgmt_send` that are read.
pub record ZoneMgmtSend : Type 0 where
  pub slba : ℕ
  pub zsa : ℕ
  pub select_all : Bool
  pub zsaso : Bool

-- `zns_zmgmt_send`: the status and the state; the time is the request's.
unfoldable pub zns_zmgmt_send : ℕ → ZnsFtl → ZoneMgmtSend → Option (ℕ × ZnsFtl)
unfolding send_all zmgmt_send action_of
zns_zmgmt_send unset f cmd =
    if cmd.select_all
    then (do g ← send_all unset f (action_of cmd.zsa) cmd.zsaso; some (nvme_sc_success, g))
    else zmgmt_send unset f cmd.slba (action_of cmd.zsa) cmd.zsaso
