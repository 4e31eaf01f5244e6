-- ===== src/Fdp/Namespace/Read.antt =====
-- fdp_ftl.c: `fdp_read` and `fdp_flush`.
pub mod Total
pub mod Flush
use nvmevirt_fdp.Prelude.{
  ℕ, zero, suc, ◌+◌, ◌-◌, ◌*◌, ◌/◌, ◌%◌, Bool, true, false, not, ◌&&◌, ◌||◌, Option, some, max, min,
  ltb, leb, ◌==◌, if◌then◌else◌, ◌>>=◌, for_range,
}
use nvmevirt_fdp.Ssd.Config.{SsdParams, u32, u64, kb}
use nvmevirt_fdp.Ssd.Address.{Ppa, mapped_ppa, blk_in_ssd}
use nvmevirt_fdp.Ssd.Geometry.{valid_ppa}
use nvmevirt_fdp.Ssd.Nand.{SsdTime, nand_read, read_clock, ssd_advance_nand, ssd_next_idle_time}
use nvmevirt_fdp.Fdp.Mapping.{get_maptbl_ent}
use nvmevirt_fdp.Fdp.Namespace.{NvmevRequest, NvmevResult, Ns, part_time, set_time, nvme_sc_success}
use nvmevirt_fdp.Fdp.Namespace.Write.{lba_to_byte, nr_lba, start_lpn, end_lpn}

-- `is_same_flash_page`.
unfoldable pub is_same_flash_page : SsdParams → Ppa → Ppa → Bool
unfolding blk_in_ssd
is_same_flash_page sp p q =
    blk_in_ssd p == blk_in_ssd q && p.pg / sp.pgs_per_flashpg == q.pg / sp.pgs_per_flashpg

-- The variables of the inner loop: the bytes gathered for the flash page of `prev_ppa`, the latest
-- completion time, and the time model.
pub record Reading : Type 0 where
  pub xfer_size : ℕ
  pub prev_ppa : Ppa
  pub nsecs_latest : ℕ
  pub time : SsdTime

-- `if (xfer_size > 0)`: the NAND read of what was gathered.
unfoldable pub issue_read : SsdParams → ℕ → Reading → Option Reading
issue_read sp stime r =
    if ltb 0 r.xfer_size
    then (do
      (completed, t) ←
          ssd_advance_nand sp
            (record {
              cmd = nand_read;
              xfer_size = r.xfer_size;
              stime = stime;
              interleave_pci_dma = true;
              ppa = r.prev_ppa;
            })
            r.time
      some (record r { nsecs_latest = max completed r.nsecs_latest; time = t }))
    else some r

-- One round of the inner loop, at the entry of a logical page.
unfoldable pub read_page : SsdParams → ℕ → Ppa → Reading → Option Reading
unfolding mapped_ppa valid_ppa is_same_flash_page issue_read
read_page sp stime cur_ppa r =
    if not (mapped_ppa cur_ppa) || not (valid_ppa sp cur_ppa)
    then some r
    else if mapped_ppa r.prev_ppa && is_same_flash_page sp cur_ppa r.prev_ppa
    then some (record r { xfer_size = u32 (r.xfer_size + sp.pgsz) })
    else (do
      r' ← issue_read sp stime r
      some (record r' { xfer_size = u32 sp.pgsz; prev_ppa = cur_ppa }))

-- The outer loop's state.
pub record ReadState (Q : Type 0) : Type 0 where
  pub nsecs_latest : ℕ
  pub ns : Ns Q

module _ {Q : Type 0} where
  -- The pages `lpn`, `lpn + nr_parts`, … of one partition, up to `end_lpn`.
  unfoldable pub read_part : ℕ → ℕ → ℕ → ReadState Q → Option (ReadState Q)
  unfolding for_range read_page issue_read
  read_part stime end start s = do
    let i = start % s.ns.nr_parts
    let f = s.ns.ftls i
    let nr_parts = s.ns.nr_parts
    let r0 : Reading = record {
      xfer_size = 0;
      prev_ppa = get_maptbl_ent f (start / nr_parts);
      nsecs_latest = s.nsecs_latest;
      time = part_time s.ns i;
    }
    r1 ←
        for_range ((end - start) / nr_parts + 1) 0
          (λ k. read_page f.sp stime (get_maptbl_ent f ((start + k * nr_parts) / nr_parts))) r0
    r2 ← issue_read f.sp stime r1
    some (record { nsecs_latest = r2.nsecs_latest; ns = set_time s.ns i r2.time })

  -- `fdp_read`: the outer loop visits each partition that the range touches.
  unfoldable pub fdp_read : Ns Q → NvmevRequest → NvmevResult → Option (Bool × NvmevResult × Ns Q)
  unfolding for_range read_part
  fdp_read ns req ret = if leb sp.tt_pgs (end / ns.nr_parts) then some (false, ret, ns) else (do
    s ←
        for_range (min ns.nr_parts (end + 1 - start)) start (read_part stime end)
          (record { nsecs_latest = req.nsecs_start; ns = ns })
    some (true, record { status = nvme_sc_success; nsecs_target = s.nsecs_latest }, s.ns))
    where
      sp : SsdParams
      sp = (ns.ftls 0).sp

      start : ℕ
      start = start_lpn sp req.cmd

      end : ℕ
      end = end_lpn sp req.cmd

      stime : ℕ
      stime = u64 (
          req.nsecs_start
          + (if leb (lba_to_byte (nr_lba req.cmd)) (kb 4 * ns.nr_parts)
              then sp.fw_4kb_rd_lat
              else sp.fw_rd_lat))

  -- `fdp_flush`: done when every partition is idle.
  unfoldable pub flush_parts : ℕ → ℕ × Ns Q → ℕ × Ns Q
  unfolding ssd_next_idle_time
  flush_parts zero s = s
  flush_parts (suc n) s =
      let (latest, ns) = flush_parts n s in
      let (idle, t) = ssd_next_idle_time (ns.ftls n).sp (part_time ns n) in
      (max latest idle, set_time ns n t)

  unfoldable pub fdp_flush : Ns Q → NvmevResult × Ns Q
  unfolding flush_parts read_clock
  fdp_flush ns0 =
      let (start, t) = read_clock (part_time ns0 0) in
      let (latest, ns) = flush_parts ns0.nr_parts (start, set_time ns0 0 t) in
      (record { status = nvme_sc_success; nsecs_target = latest }, ns)
