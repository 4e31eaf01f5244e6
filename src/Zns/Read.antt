-- ===== src/Zns/Read.antt =====
-- zns_read_write.c: `zns_read`.
pub mod Total
use nvmevirt_fdp.Prelude.{
  ℕ, zero, suc, ◌+◌, ◌-◌, ◌*◌, ◌%◌, ◌^◌, Bool, true, false, not, Option, none, some, leb, ◌==◌,
  if◌then◌else◌, max, ◌>>=◌,
}
use nvmevirt_fdp.Ssd.Config.{u64, kb}
use nvmevirt_fdp.Ssd.Nand.{SsdTime, nand_read, ssd_advance_nand, ssd_advance_pcie}
use nvmevirt_fdp.Fdp.Namespace.{NvmevRequest, nvme_sc_success}
use nvmevirt_fdp.Fdp.Namespace.Write.{lba_to_byte, nr_lba}
use nvmevirt_fdp.Zns.State.{
  ZoneState, zone_empty, opened_impl, opened_expl, closed, read_only, full, offline, ZnsFtl,
  lpn_to_zone, lba_to_lpn,
}
use nvmevirt_fdp.Zns.Send.{err_boundary, err_offline}
use nvmevirt_fdp.Zns.Io.{ZnsResult, ZnsReply, check_boundary_error, lpn_to_ppa, pages_of_group}

-- The latest completion time, and the time model.
pub record ZnsReading : Type 0 where
  pub nsecs_latest : ℕ
  pub time : SsdTime

abbrev pub is_offline : ZoneState → Bool
is_offline ZoneState.zone_empty = false
is_offline ZoneState.opened_impl = false
is_offline ZoneState.opened_expl = false
is_offline ZoneState.closed = false
is_offline ZoneState.read_only = false
is_offline ZoneState.full = false
is_offline ZoneState.offline = true

-- The loop over the pages `lpn` to `elpn`, each round within a flash page; the fuel counts the rounds.
unfoldable pub read_pages : ℕ → ZnsFtl → ℕ → ℕ → ℕ → ZnsReading → Option ZnsReading
read_pages zero f stime elpn lpn r = if leb lpn elpn then none else some r
read_pages (suc fuel) f stime elpn lpn r = elim (leb lpn elpn) [
  | true ↦
      let p = lpn_to_ppa f lpn in
      let pgs = pages_of_group f.sp.pgs_per_flashpg p (elpn - lpn + 1) in
      ssd_advance_nand f.sp
        (record {
          cmd = nand_read;
          xfer_size = u64 (pgs * f.sp.pgsz);
          stime = stime;
          interleave_pci_dma = false;
          ppa = p;
        })
        r.time
      >>= λ (completed, t).
          read_pages fuel f stime elpn (lpn + pgs)
            (record { nsecs_latest = max completed r.nsecs_latest; time = t })
  | false ↦ some r
]

-- The firmware's part of a read.
abbrev pub read_latency : ZnsFtl → NvmevRequest → ℕ
read_latency f req =
    if leb (lba_to_byte (nr_lba req.cmd)) (kb 4) then f.sp.fw_4kb_rd_lat else f.sp.fw_rd_lat

abbrev pub read_status : ZnsFtl → NvmevRequest → ℕ
read_status f req =
    if is_offline (f.zone_descs (lpn_to_zone f (lba_to_lpn f req.cmd.slba))).state
    then err_offline
    else if check_boundary_error f req.cmd.slba (nr_lba req.cmd)
    then nvme_sc_success
    else err_boundary

-- `zns_read`: a read that fails takes its time all the same.
unfoldable pub zns_read : ZnsFtl → NvmevRequest → ZnsResult → Option ZnsReply
unfolding read_pages
zns_read f req ret = do
  let slpn = lba_to_lpn f req.cmd.slba
  let elpn = lba_to_lpn f (u64 (req.cmd.slba + nr_lba req.cmd + 2 ^ 64 - 1))
  let stime = u64 (req.nsecs_start + read_latency f req)
  r ←
      read_pages (elpn + 1 - slpn) f stime elpn slpn
        (record { nsecs_latest = stime; time = f.time })
  (completed, t) ← ssd_advance_pcie r.time r.nsecs_latest (u64 (nr_lba req.cmd * f.sp.secsz))
  some (record {
    taken = true;
    slba = req.cmd.slba;
    ret = record ret { status = read_status f req; nsecs_target = max completed r.nsecs_latest };
    ftl = record f { time = t };
  })
