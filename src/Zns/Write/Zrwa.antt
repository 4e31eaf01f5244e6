-- ===== src/Zns/Write/Zrwa.antt =====
-- zns_read_write.c: `__zns_write_zrwa`, a write to the random write area of a zone, and `zns_write`.
use nvmevirt_fdp.Prelude.{
  ℕ, zero, suc, ◌+◌, ◌-◌, ◌*◌, ◌/◌, ◌%◌, ◌^◌, Bool, true, false, not, ◌||◌, Option, none, some, ltb,
  leb, ◌==◌, if◌then◌else◌, ◌>>=◌, ◌>>◌, nvmev_assert,
}
use nvmevirt_fdp.Ssd.Config.{u32, u64, div_round_up}
use nvmevirt_fdp.Ssd.Buffer.{buffer_allocate}
use nvmevirt_fdp.Ssd.Nand.{ssd_advance_write_buffer}
use nvmevirt_fdp.Fdp.Namespace.{NvmevRequest, nvme_sc_success}
use nvmevirt_fdp.Fdp.Namespace.Write.{lba_to_byte, nr_lba}
use nvmevirt_fdp.Zns.State.{
  ZoneState, opened_impl, zrwa_buffer_of, ZnsFtl, open_zone, acquire_zone_resource,
  change_zone_state, lpn_to_zone, lba_to_zone, lba_to_lpn, zone_to_elba,
}
use nvmevirt_fdp.Zns.Send.{
  err_boundary, err_full, err_read_only, err_offline, invalid_write, no_open_zone,
}
use nvmevirt_fdp.Zns.Io.{
  ZnsResult, ZnsReply, check_boundary_error, increase_write_ptr, lpn_to_ppa, pages_of_group,
  completion,
}
use nvmevirt_fdp.Zns.Write.{Programming, program_oneshot, zns_write_at_wp}

-- `buffer_allocate` on the buffer of a zone's ZRWA, which a device without such buffers does not have.
unfoldable pub allocate_zrwa : ZnsFtl → ℕ → ℕ → Option (ℕ × ZnsFtl)
allocate_zrwa f zid size = do
  nvmev_assert (not (f.zp.zrwa_buffer_size == 0))
  (granted, b) ← buffer_allocate (f.zrwa_buffer zid) size
  some (granted, record f { zrwa_buffer = λ i. if zid == i then b else f.zrwa_buffer i })

-- The case of a closed or empty zone.
unfoldable pub open_zrwa : ZnsFtl → ℕ → Option (ℕ × ZnsFtl)
unfolding allocate_zrwa
open_zrwa f zid =
    let (acquired, g) = acquire_zone_resource f open_zone in
    if acquired
    then (do
      (granted, h) ← allocate_zrwa g zid g.zp.zrwa_size
      nvmev_assert (not (granted == 0))
      some (nvme_sc_success, change_zone_state h zid opened_impl))
    else some (no_open_zone, g)

-- The switch on the state of the zone.
unfoldable pub enter_zrwa : ZnsFtl → ℕ → Option (ℕ × ZnsFtl)
unfolding open_zrwa
enter_zrwa f zid = elim (f.zone_descs zid).state [
  | ZoneState.closed ↦ open_zrwa f zid
  | ZoneState.zone_empty ↦ open_zrwa f zid
  | ZoneState.opened_impl ↦ some (nvme_sc_success, f)
  | ZoneState.opened_expl ↦ some (nvme_sc_success, f)
  | ZoneState.full ↦ some (err_full, f)
  | ZoneState.read_only ↦ some (err_read_only, f)
  | ZoneState.offline ↦ some (err_offline, f)
]

-- The last block of the command, and the blocks that implicitly flush: those behind the ZRWA, up to a
-- whole flush group, or all up to the end of the zone.
abbrev pub end_lba : NvmevRequest → ℕ
end_lba req = u64 (req.cmd.slba + nr_lba req.cmd + 2 ^ 64 - 1)

abbrev pub zrwa_impl_end : ZnsFtl → ℕ → ℕ
zrwa_impl_end f wp = u64 (wp + u32 (2 * f.zp.lbas_per_zrwa) + 2 ^ 64 - 1)

unfoldable pub implicit_flush : ZnsFtl → ℕ → ℕ → ℕ → Option ℕ
implicit_flush f zid wp elba =
    let zrwa_impl_start = u64 (wp + f.zp.lbas_per_zrwa) in
    if leb zrwa_impl_start elba
    then (do
      nvmev_assert (not (f.zp.lbas_per_zrwafg == 0))
      some (
          u64 (
            div_round_up (u64 (elba + 2 ^ 64 - zrwa_impl_start + 1)) f.zp.lbas_per_zrwafg
            * f.zp.lbas_per_zrwafg)))
    else some (if elba == zone_to_elba f zid then u64 (elba + 2 ^ 64 - wp + 1) else 0)

-- The loop `while (remaining > 0)`; the fuel counts the rounds.
unfoldable pub flush_pages : ℕ → NvmevRequest → ℕ → ℕ → ℕ → ℕ → Programming → Option Programming
unfolding program_oneshot
flush_pages zero req zid stime remaining lpn w = if ltb 0 remaining then none else some w
flush_pages (suc fuel) req zid stime remaining lpn w = elim (ltb 0 remaining) [
  | true ↦
      let f = w.ftl in
      let size = f.sp.pgs_per_oneshotpg in
      let pgs = pages_of_group size (lpn_to_ppa f lpn) remaining in
      (if u64 ((lpn_to_ppa f lpn).pg % size + pgs) == size
        then program_oneshot req (zrwa_buffer_of zid) (size * f.sp.pgsz) stime lpn w
        else some w)
      >>= λ w'. flush_pages fuel req zid stime (remaining - pgs) (u64 (lpn + pgs)) w'
  | false ↦ some w
]

-- The data of a write that was accepted, with `nr_lbas_flush` blocks to flush from `prev_wp` on.
unfoldable pub flush_data : ZnsFtl → NvmevRequest → ℕ → ℕ → ℕ → Option (ℕ × Programming)
unfolding flush_pages
flush_data f req zid prev_wp nr_lbas_flush = do
  (nsecs_xfer_completed, t) ←
      ssd_advance_write_buffer f.sp f.time req.nsecs_start (lba_to_byte (nr_lba req.cmd))
  let remaining = nr_lbas_flush / f.sp.secs_per_pg
  w ←
      flush_pages remaining req zid nsecs_xfer_completed remaining (lba_to_lpn f prev_wp)
        (record { nsecs_latest = nsecs_xfer_completed; ftl = record f { time = t } })
  some (nsecs_xfer_completed, w)

-- The checks before the switch.
unfoldable pub check_zrwa : ZnsFtl → NvmevRequest → ℕ → ℕ
check_zrwa f req zid =
    let wp = (f.zone_descs zid).wp in
    if not (lba_to_byte (nr_lba req.cmd) % f.sp.write_unit_size == 0)
    then invalid_write
    else if not (check_boundary_error f req.cmd.slba (nr_lba req.cmd))
    then err_boundary
    else if ltb req.cmd.slba wp || ltb (zrwa_impl_end f wp) (end_lba req)
    then invalid_write
    else nvme_sc_success

abbrev pub zrwa_reply : NvmevRequest → ZnsResult → Bool → ℕ → ℕ → ZnsFtl → ZnsReply
zrwa_reply req ret taken status target f = record {
  taken = taken;
  slba = req.cmd.slba;
  ret = if taken then record ret { status = status; nsecs_target = target } else ret;
  ftl = f;
}

-- From the flush on: a write that finds no room in the ZRWA is left for later.
unfoldable pub write_to_zrwa : ZnsFtl → NvmevRequest → ZnsResult → ℕ → ℕ → Option ZnsReply
unfolding implicit_flush allocate_zrwa increase_write_ptr flush_data
write_to_zrwa f req ret zid prev_wp = do
  nr_lbas_flush ← implicit_flush f zid prev_wp (end_lba req)
  (granted, g) ←
      (if ltb 0 nr_lbas_flush then allocate_zrwa f zid (lba_to_byte nr_lbas_flush) else some (1, f))
  if granted == 0 then some (zrwa_reply req ret false 0 0 g) else (do
    let h = (if ltb 0 nr_lbas_flush then increase_write_ptr g zid nr_lbas_flush else g)
    (nsecs_xfer_completed, w) ← flush_data h req zid prev_wp nr_lbas_flush
    some (
        zrwa_reply req ret true nvme_sc_success
          (completion h req.cmd w.nsecs_latest nsecs_xfer_completed) w.ftl))

-- `__zns_write_zrwa`.
unfoldable pub zns_write_zrwa : ZnsFtl → NvmevRequest → ZnsResult → Option ZnsReply
unfolding check_zrwa enter_zrwa write_to_zrwa
zns_write_zrwa f req ret =
    let zid = lba_to_zone f req.cmd.slba in
    let status = check_zrwa f req zid in
    if not (status == nvme_sc_success)
    then some (zrwa_reply req ret true status req.nsecs_start f)
    else (do
      (status', g) ← enter_zrwa f zid
      if status' == nvme_sc_success
          then write_to_zrwa g req ret zid (f.zone_descs zid).wp
          else some (zrwa_reply req ret true status' req.nsecs_start g))

-- `zns_write`.
unfoldable pub zns_write : ZnsFtl → NvmevRequest → ZnsResult → Option ZnsReply
unfolding zns_write_at_wp zns_write_zrwa
zns_write f req ret =
    if (f.zone_descs (lpn_to_zone f (lba_to_lpn f req.cmd.slba))).zrwav
    then zns_write_zrwa f req ret
    else zns_write_at_wp f req ret
