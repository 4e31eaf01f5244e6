-- ===== src/Fdp/Namespace/Write.antt =====
-- fdp_ftl.c: `fdp_write`.
pub mod Rejects
use nvmevirt_fdp.Prelude.{
  ℕ, ◌+◌, ◌-◌, ◌*◌, ◌/◌, ◌%◌, ◌^◌, Bool, true, false, not, ◌&&◌, ◌||◌, Option, some, [], ◌∷◌, ◌++◌,
  max, ltb, leb, ◌==◌, if◌then◌else◌, ◌>>=◌, for_range, set, get_or,
}
use nvmevirt_fdp.Ssd.Config.{SsdParams, u64, fdp_nr_ruh}
use nvmevirt_fdp.Ssd.Address.{Ppa, mapped_ppa, invalid_lpn}
use nvmevirt_fdp.Ssd.Buffer.{buffer_allocate}
use nvmevirt_fdp.Ssd.Nand.{NandCmd, nand_write, ssd_advance_write_buffer}
use nvmevirt_fdp.Fdp.Context.{
  FdpCtx, evt_invalid_pid, event_f_piv, event_f_nsidv, ruha_unused, ruha_host, ruha_ctrl,
}
use nvmevirt_fdp.Fdp.Lines.{PQueue}
use nvmevirt_fdp.Fdp.State.{Ftl, user_io}
use nvmevirt_fdp.Fdp.Mapping.{get_maptbl_ent, set_maptbl_ent, set_rmap_ent}
use nvmevirt_fdp.Fdp.Pointers.{get_new_page, advance_write_pointer}
use nvmevirt_fdp.Fdp.Pages.{mark_page_invalid, mark_page_valid}
use nvmevirt_fdp.Fdp.Gc.{emit_now, advance, last_pg_in_wordline, use_credit}
use nvmevirt_fdp.Fdp.Namespace.{
  NvmeCommand, NvmevRequest, NvmevResult, Ns, part, set_part, part_time, set_time, nvme_sc_success,
  nvme_sc_invalid_field,
}

-- `LBA_TO_BYTE`, with 9 bits.
abbrev pub lba_to_byte : ℕ → ℕ
lba_to_byte n = u64 (n * 2 ^ 9)

abbrev pub nr_lba : NvmeCommand → ℕ
nr_lba cmd = cmd.length + 1

abbrev pub start_lpn : SsdParams → NvmeCommand → ℕ
start_lpn sp cmd = cmd.slba / sp.secs_per_pg

abbrev pub end_lpn : SsdParams → NvmeCommand → ℕ
end_lpn sp cmd = u64 (cmd.slba + nr_lba cmd - 1) / sp.secs_per_pg

-- DTYPE and DSPEC of the command.
abbrev pub dtype : NvmeCommand → ℕ
dtype cmd = cmd.control / 2 ^ 4 % 2 ^ 4

abbrev pub dspec : NvmeCommand → ℕ
dspec cmd = cmd.dsmgmt / 2 ^ 16 % 2 ^ 16

abbrev pub directive_placement : ℕ
directive_placement = 2

-- NVME_RW_FUA, bit 14 of `control`.
abbrev pub is_fua : NvmeCommand → Bool
is_fua cmd = cmd.control / 2 ^ 14 % 2 == 1

-- Whether the command names a reclaim unit handle that does not exist.
abbrev pub bad_pid : NvmeCommand → Bool
bad_pid cmd = dtype cmd == directive_placement && leb fdp_nr_ruh (dspec cmd)

-- The handle that the write goes to.
abbrev pub ruh_of : NvmeCommand → ℕ
ruh_of cmd = if dtype cmd == directive_placement then dspec cmd else 0

-- The usage attribute that the write leaves.
unfoldable pub use_ruh : FdpCtx → NvmeCommand → FdpCtx
use_ruh c cmd =
    if dtype cmd == directive_placement
    then record c { ruh_attr = set c.ruh_attr (dspec cmd) ruha_host }
    else if get_or c.ruh_attr 0 ruha_unused == ruha_unused
    then record c { ruh_attr = set c.ruh_attr 0 ruha_ctrl }
    else c

-- The statistics of an accepted write.
unfoldable pub count_write : FdpCtx → ℕ → FdpCtx
count_write c bytes = record c { hbmw = u64 (c.hbmw + bytes); mbmw = u64 (c.mbmw + bytes) }

-- The loop's state: the latest completion time, and the namespace.
pub record Writing (Q : Type 0) : Type 0 where
  pub nsecs_latest : ℕ
  pub ns : Ns Q

module _ (pq : PQueue) where
  -- The old page of a logical page that is mapped becomes invalid.
  unfoldable pub unmap_page : Ftl pq.Q → Ppa → Option (Ftl pq.Q)
  unfolding mapped_ppa mark_page_invalid set_rmap_ent
  unmap_page f p =
      if mapped_ppa p
      then (mark_page_invalid pq f p >>= λ f'. set_rmap_ent f' invalid_lpn p)
      else some f

  -- The changes to the FTL in one round of the loop, up to the write pointer.
  unfoldable pub map_page : Ftl pq.Q → ℕ → ℕ → Option (Ppa × Ftl pq.Q)
  unfolding unmap_page get_new_page set_maptbl_ent set_rmap_ent mark_page_valid
      advance_write_pointer
  map_page f ruh local_lpn = do
    f1 ← unmap_page f (get_maptbl_ent f local_lpn)
    ppa ← get_new_page f1 user_io ruh
    f2 ← set_maptbl_ent f1 local_lpn ppa
    f3 ← set_rmap_ent f2 local_lpn ppa
    f4 ← mark_page_valid f3 ppa
    f5 ← advance_write_pointer pq f4 user_io ruh
    some (ppa, f5)

  -- A full wordline is programmed, and its part of the write buffer is released when that is done.
  unfoldable pub program_wordline : ℕ → NandCmd → ℕ → Writing pq.Q → Option (Writing pq.Q)
  unfolding advance
  program_wordline sq_id swr i w = do
    (completed, d) ← advance (part w.ns i) swr
    let ns = set_part w.ns i d
    some (record {
      nsecs_latest = max completed w.nsecs_latest;
      ns = record ns {
        scheduled =
            ns.scheduled
            ++ record { sqid = sq_id; nsecs_target = completed; buffs_to_release = swr.xfer_size }
              ∷ [];
      };
    })

  -- One round of the loop of `fdp_write`.
  unfoldable pub write_page : ℕ → ℕ → ℕ → ℕ → Writing pq.Q → Option (Writing pq.Q)
  unfolding map_page program_wordline last_pg_in_wordline use_credit
  write_page sq_id stime ruh lpn w = do
    let i = lpn % w.ns.nr_parts
    let d = part w.ns i
    let sp = d.ftl.sp
    (ppa, f) ← map_page d.ftl ruh (lpn / w.ns.nr_parts)
    let w1 : Writing pq.Q = record {
      nsecs_latest = w.nsecs_latest;
      ns = set_part w.ns i (record d { ftl = f });
    }
    w2 ←
        (if last_pg_in_wordline sp ppa
          then program_wordline sq_id
              (record {
                cmd = nand_write;
                xfer_size = sp.pgsz * sp.pgs_per_oneshotpg;
                stime = stime;
                interleave_pci_dma = false;
                ppa = ppa;
              })
              i w1
          else some w1)
    d2 ← use_credit pq (part w2.ns i)
    some (record { nsecs_latest = w2.nsecs_latest; ns = set_part w2.ns i d2 })

  -- The part of `fdp_write` after the write buffer has granted the bytes.
  unfoldable pub write_granted :
      Ns pq.Q → NvmevRequest → NvmevResult → Option (Bool × NvmevResult × Ns pq.Q)
  unfolding count_write ssd_advance_write_buffer for_range write_page
  write_granted ns req ret = do
    let sp = (ns.ftls 0).sp
    let cmd = req.cmd
    let bytes = lba_to_byte (nr_lba cmd)
    let ns1 = record ns { ctx = count_write ns.ctx bytes }
    (xferred, t) ← ssd_advance_write_buffer sp (part_time ns1 0) req.nsecs_start bytes
    w ←
        for_range (end_lpn sp cmd + 1 - start_lpn sp cmd) (start_lpn sp cmd)
          (λ lpn. write_page req.sq_id xferred (ruh_of cmd) lpn)
          (record { nsecs_latest = xferred; ns = set_time ns1 0 t })
    some (
      true,
      record {
        status = nvme_sc_success;
        nsecs_target =
            if is_fua cmd || not sp.write_early_completion then w.nsecs_latest else xferred;
      },
      w.ns,
    )

  -- `fdp_write`: whether it took the command, its result and the namespace. A refused command leaves
  -- the result as it was.
  unfoldable pub fdp_write :
      Ns pq.Q → NvmevRequest → NvmevResult → Option (Bool × NvmevResult × Ns pq.Q)
  unfolding emit_now use_ruh buffer_allocate write_granted
  fdp_write ns req ret =
      if leb sp.tt_pgs (end_lpn sp cmd / ns.nr_parts)
      then some (false, ret, ns)
      else if bad_pid cmd
      then (let d =
            emit_now (part ns 0) evt_invalid_pid (event_f_piv + event_f_nsidv) (dspec cmd)
              cmd.nsid in
          some (
            true,
            record { status = nvme_sc_invalid_field; nsecs_target = req.nsecs_start },
            set_part ns 0 d,
          ))
      else (do
        let ns1 = record ns { ctx = use_ruh ns.ctx cmd }
        (allocated, wbuf) ← buffer_allocate ns1.wbuf bytes
        let ns2 = record ns1 { wbuf = wbuf }
        if ltb allocated bytes then some (false, ret, ns2) else write_granted ns2 req ret)
    where
      sp : SsdParams
      sp = (ns.ftls 0).sp

      cmd : NvmeCommand
      cmd = req.cmd

      bytes : ℕ
      bytes = lba_to_byte (nr_lba cmd)
