-- ===== src/Zns/Write.antt =====
-- zns_read_write.c: `__zns_write`, a write or an append at the write pointer of a zone.
pub mod Entry
pub mod Accepts
pub mod Total
pub mod Written
pub mod Zrwa
use nvmevirt_fdp.Prelude.{
  ℕ, zero, suc, ◌+◌, ◌-◌, ◌*◌, ◌%◌, ◌^◌, Bool, true, false, not, ◌&&◌, ◌||◌, Option, none, some,
  List, [], ◌∷◌, ◌++◌, max, ltb, leb, ◌==◌, if◌then◌else◌, ◌>>=◌,
}
use nvmevirt_fdp.Ssd.Config.{u32, u64}
use nvmevirt_fdp.Ssd.Buffer.{Buffer, buffer_allocate}
use nvmevirt_fdp.Ssd.Nand.{nand_write, ssd_advance_nand, ssd_advance_write_buffer}
use nvmevirt_fdp.Fdp.Namespace.{NvmevRequest, nvme_sc_success}
use nvmevirt_fdp.Fdp.Namespace.Write.{lba_to_byte, nr_lba}
use nvmevirt_fdp.Zns.State.{
  ZoneState, zone_empty, opened_impl, opened_expl, closed, read_only, full, offline, BufferRef,
  ssd_buffer, zone_buffer, ZnsFtl, active_zone, open_zone, is_zone_resource_full,
  acquire_zone_resource, change_zone_state, lba_to_zone, lba_to_lpn, zone_to_elpn,
}
use nvmevirt_fdp.Zns.Send.{
  err_boundary, err_full, err_read_only, err_offline, invalid_write, no_active_zone, no_open_zone,
}
use nvmevirt_fdp.Zns.Io.{
  ZnsResult, ZnsReply, check_boundary_error, increase_write_ptr, lpn_to_ppa, pages_of_group,
  completion,
}

abbrev pub nvme_cmd_zone_append : ℕ
nvme_cmd_zone_append = 0x7d

-- The buffer that a write to a zone fills.
abbrev pub buffer_of_zone : ZnsFtl → ℕ → BufferRef
buffer_of_zone f zid = if not (f.zp.zone_wb_size == 0) then zone_buffer zid else ssd_buffer

abbrev pub get_buffer : ZnsFtl → ℕ → Buffer
get_buffer f zid = if not (f.zp.zone_wb_size == 0) then f.zone_write_buffer zid else f.write_buffer

abbrev pub set_buffer : ZnsFtl → ℕ → Buffer → ZnsFtl
set_buffer f zid b =
    if not (f.zp.zone_wb_size == 0)
    then record f { zone_write_buffer = λ i. if zid == i then b else f.zone_write_buffer i }
    else record f { write_buffer = b }

-- The case of a closed zone, which an empty zone goes through to.
unfoldable pub open_implicitly : ZnsFtl → ℕ → ℕ × ZnsFtl
open_implicitly f zid =
    let (acquired, g) = acquire_zone_resource f open_zone in
    if acquired then (nvme_sc_success, change_zone_state g zid opened_impl) else (no_open_zone, g)

-- The switch on the state of the zone: the status, which stays a success if the write goes on.
unfoldable pub enter_zone : ZnsFtl → ℕ → ℕ → ℕ × ZnsFtl
unfolding open_implicitly
enter_zone f zid slba = elim (f.zone_descs zid).state [
  | ZoneState.zone_empty ↦
      if not (slba == (f.zone_descs zid).zslba)
      then (invalid_write, f)
      else if is_zone_resource_full f active_zone
      then (no_active_zone, f)
      else if is_zone_resource_full f open_zone
      then (no_open_zone, f)
      else (let (_, g) = acquire_zone_resource f active_zone in open_implicitly g zid)
  | ZoneState.closed ↦ open_implicitly f zid
  | ZoneState.opened_impl ↦ (nvme_sc_success, f)
  | ZoneState.opened_expl ↦ (nvme_sc_success, f)
  | ZoneState.full ↦ (err_full, f)
  | ZoneState.read_only ↦ (err_read_only, f)
  | ZoneState.offline ↦ (err_offline, f)
]

-- The checks of a write that has its part of the buffer, and the move of the write pointer.
unfoldable pub accept_write : ZnsFtl → ℕ → ℕ → ℕ → ℕ × ZnsFtl
unfolding enter_zone increase_write_ptr
accept_write f zid slba nr_lba =
    if not (lba_to_byte nr_lba % f.sp.write_unit_size == 0)
    then (invalid_write, f)
    else if not (check_boundary_error f slba nr_lba)
    then (err_boundary, f)
    else if not (slba == (f.zone_descs zid).wp)
    then (invalid_write, f)
    else (let (status, g) = enter_zone f zid slba in
        if status == nvme_sc_success
        then (status, increase_write_ptr g zid nr_lba)
        else (status, g))

-- The bytes that a programmed oneshot page releases; the last one of a zone may be cut.
abbrev pub bufs_to_release : ZnsFtl → Bool → ℕ
bufs_to_release f last =
    let unaligned_space = f.zp.zone_size % (f.sp.pgs_per_oneshotpg * f.sp.pgsz) in
    if last && ltb 0 unaligned_space then unaligned_space else f.sp.pgs_per_oneshotpg * f.sp.pgsz

-- The latest completion time, and the state.
pub record Programming : Type 0 where
  pub nsecs_latest : ℕ
  pub ftl : ZnsFtl

-- The program of the oneshot page of `lpn`, with the release of its part of a buffer.
unfoldable pub program_oneshot :
    NvmevRequest → BufferRef → ℕ → ℕ → ℕ → Programming → Option Programming
program_oneshot req write_buffer buffs stime lpn w = do
  let f = w.ftl
  (nsecs_completed, t) ←
      ssd_advance_nand f.sp
        (record {
          cmd = nand_write;
          xfer_size = f.sp.pgs_per_oneshotpg * f.sp.pgsz;
          stime = stime;
          interleave_pci_dma = false;
          ppa = lpn_to_ppa f lpn;
        })
        f.time
  some (record {
    nsecs_latest = max nsecs_completed w.nsecs_latest;
    ftl = record f {
      time = t;
      scheduled =
          f.scheduled
          ++ record {
            sqid = req.sq_id;
            nsecs_target = nsecs_completed;
            write_buffer = write_buffer;
            buffs_to_release = buffs;
          }
            ∷ [];
    };
  })

-- Whether the `pgs` pages from `lpn` on end a oneshot page or the zone.
abbrev pub last_of_zone : ℕ → ℕ → ℕ → Bool
last_of_zone zone_elpn lpn pgs = u64 (lpn + pgs + 2 ^ 64 - 1) == zone_elpn

abbrev pub fills_oneshot : ZnsFtl → ℕ → ℕ → ℕ → Bool
fills_oneshot f zone_elpn lpn pgs =
    u64 ((lpn_to_ppa f lpn).pg % f.sp.pgs_per_oneshotpg + pgs) == f.sp.pgs_per_oneshotpg
    || last_of_zone zone_elpn lpn pgs

-- One round of the loop, over `pgs` pages: a oneshot page is programmed when its last page, or that of
-- the zone, is written.
unfoldable pub program_pages :
    NvmevRequest → BufferRef → ℕ → ℕ → ℕ → ℕ → Programming → Option Programming
unfolding program_oneshot
program_pages req write_buffer stime zone_elpn lpn pgs w =
    if fills_oneshot w.ftl zone_elpn lpn pgs
    then (let buffs = bufs_to_release w.ftl (last_of_zone zone_elpn lpn pgs) in
        program_oneshot req write_buffer buffs stime lpn w)
    else some w

-- The loop over the pages `lpn` to `elpn`; the fuel counts the rounds.
unfoldable pub write_pages :
    ℕ → NvmevRequest → BufferRef → ℕ → ℕ → ℕ → ℕ → Programming → Option Programming
unfolding program_pages
write_pages zero req write_buffer stime zone_elpn elpn lpn w = if leb lpn elpn then none else some w
write_pages (suc fuel) req write_buffer stime zone_elpn elpn lpn w = elim (leb lpn elpn) [
  | true ↦
      let pgs = pages_of_group w.ftl.sp.pgs_per_oneshotpg (lpn_to_ppa w.ftl lpn) (elpn - lpn + 1) in
      program_pages req write_buffer stime zone_elpn lpn pgs w >>= λ w'.
      write_pages fuel req write_buffer stime zone_elpn elpn (lpn + pgs) w'
  | false ↦ some w
]

-- The data of a write that was accepted: the time of the transfer, then the NAND.
unfoldable pub write_data : ZnsFtl → NvmevRequest → ℕ → ℕ → Option (ℕ × Programming)
unfolding write_pages
write_data f req zid slba = do
  (nsecs_xfer_completed, t) ←
      ssd_advance_write_buffer f.sp f.time req.nsecs_start (lba_to_byte (nr_lba req.cmd))
  let slpn = lba_to_lpn f slba
  let elpn = lba_to_lpn f (u64 (slba + nr_lba req.cmd + 2 ^ 64 - 1))
  w ←
      write_pages (elpn + 1 - slpn) req (buffer_of_zone f zid) nsecs_xfer_completed
        (zone_to_elpn f zid) elpn slpn
        (record { nsecs_latest = nsecs_xfer_completed; ftl = record f { time = t } })
  some (nsecs_xfer_completed, w)

-- The rest of `__zns_write`, which has its part of the buffer.
unfoldable pub write_zone : ZnsFtl → NvmevRequest → ℕ → ℕ → ℕ → Option ZnsReply
unfolding accept_write write_data
write_zone f req zid slba result =
    let (status, g) = accept_write f zid slba (nr_lba req.cmd) in
    if status == nvme_sc_success
    then (do
      (nsecs_xfer_completed, w) ← write_data g req zid slba
      some (record {
        taken = true;
        slba = slba;
        ret = record {
          status = status;
          nsecs_target = completion g req.cmd w.nsecs_latest nsecs_xfer_completed;
          result = result;
        };
        ftl = w.ftl;
      }))
    else some (record {
      taken = true;
      slba = slba;
      ret = record { status = status; nsecs_target = req.nsecs_start; result = result };
      ftl = g;
    })

-- The block that a write begins at: an append takes the write pointer, and reports it.
abbrev pub is_append : NvmevRequest → Bool
is_append req = req.cmd.opcode == nvme_cmd_zone_append

abbrev pub write_slba : ZnsFtl → NvmevRequest → ℕ → ℕ
write_slba f req zid = if is_append req then (f.zone_descs zid).wp else req.cmd.slba

abbrev pub write_result : ZnsFtl → NvmevRequest → ℕ → ZnsResult → ℕ
write_result f req zid ret = if is_append req then (f.zone_descs zid).wp else ret.result

-- `__zns_write`.
unfoldable pub zns_write_at_wp : ZnsFtl → NvmevRequest → ZnsResult → Option ZnsReply
unfolding write_zone
zns_write_at_wp f req ret = do
  let zid = lba_to_zone f req.cmd.slba
  let slba = write_slba f req zid
  let result = write_result f req zid ret
  let bytes = lba_to_byte (nr_lba req.cmd)
  (granted, b) ← buffer_allocate (get_buffer f zid) bytes
  if ltb granted bytes
      then some (record {
        taken = false;
        slba = slba;
        ret = record ret { result = result };
        ftl = set_buffer f zid b;
      })
      else write_zone (set_buffer f zid b) req zid slba result
