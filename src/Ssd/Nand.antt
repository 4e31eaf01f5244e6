-- ===== src/Ssd/Nand.antt =====
-- ssd.c: the time model of the NAND array, the channels and the PCIe link. `struct ssd_channel` and
-- `struct nand_lun` hold what is timed here; the state of blocks and pages is Ssd/Media. The clock
-- (`cpu_clock`) is not code of the repository: `clock n` is its n-th reading.
pub mod Laws
pub mod Sending
pub mod Occupies
use nvmevirt_fdp.Prelude.{
  ℕ, zero, suc, ◌+◌, ◌-◌, ◌*◌, ◌/◌, ◌%◌, Bool, false, not, ◌&&◌, Option, none, some, min, max, List,
  get_elem?, ◌==◌, if◌then◌else◌, ◌>>=◌, ◌>>◌, nvmev_assert,
}
use nvmevirt_fdp.Ssd.Config.{SsdParams, u32, u64, kb, div_round_up}
use nvmevirt_fdp.Ssd.Address.{Ppa, word, unmapped_ppa}
use nvmevirt_fdp.Ssd.Channel.{Channel, chmodel_init, chmodel_request, unit_xfer_size}

pub record Lun : Type 0 where
  pub next_lun_avail_time : ℕ
  pub busy : Bool
  pub gc_endtime : ℕ

-- `pcie` and the clock are shared by the partitions of a namespace.
pub record SsdTime : Type 0 where
  pub luns : ℕ → ℕ → Lun
  pub channels : ℕ → Channel
  pub pcie : Channel
  pub clock : ℕ → ℕ
  pub reads : ℕ

-- NAND_READ, NAND_WRITE, NAND_ERASE, NAND_NOP.
abbrev pub nand_read : ℕ
nand_read = 0

abbrev pub nand_write : ℕ
nand_write = 1

abbrev pub nand_erase : ℕ
nand_erase = 2

abbrev pub nand_nop : ℕ
nand_nop = 3

-- `struct nand_cmd`. Its `type` is written by the callers and read nowhere.
pub record NandCmd : Type 0 where
  pub cmd : ℕ
  pub xfer_size : ℕ
  pub stime : ℕ
  pub interleave_pci_dma : Bool
  pub ppa : Ppa

abbrev pub get_lun : SsdTime → Ppa → Lun
get_lun t p = t.luns p.ch p.lun

unfoldable pub set_lun : SsdTime → Ppa → Lun → SsdTime
set_lun t p l = record t {
  luns = λ ch lun. if p.ch == ch && p.lun == lun then l else t.luns ch lun;
}

-- `lun->next_lun_avail_time = time`.
unfoldable pub set_avail : SsdTime → Ppa → ℕ → SsdTime
unfolding set_lun
set_avail t p time = set_lun t p (record (get_lun t p) { next_lun_avail_time = time })

-- `ssd_init_ch`, with the firmware overhead added to the transfer time.
unfoldable pub init_channel : SsdParams → Channel
init_channel sp = record ch {
  xfer_lat = u32 (ch.xfer_lat + u64 (sp.fw_ch_xfer_lat * unit_xfer_size) / kb 4);
}
  where
    ch : Channel
    ch = chmodel_init sp.ch_bandwidth

-- The parts of `ssd_init` that are timed. `gc_endtime` is left as allocated; it is never read.
unfoldable pub init_time : SsdParams → (ℕ → ℕ) → SsdTime
unfolding init_channel
init_time sp clock = record {
  luns = λ _ _. record { next_lun_avail_time = 0; busy = false; gc_endtime = 0 };
  channels = λ _. init_channel sp;
  pcie = chmodel_init sp.pcie_bandwidth;
  clock = clock;
  reads = 0;
}

-- A reading of the clock (`__get_ioclock`, `__get_wallclock`).
unfoldable pub read_clock : SsdTime → ℕ × SsdTime
read_clock t = (t.clock t.reads, record t { reads = t.reads + 1 })

-- `chmodel_request` on the channel of a NAND command.
unfoldable pub advance_channel : SsdTime → ℕ → ℕ → ℕ → Option (ℕ × SsdTime)
unfolding read_clock
advance_channel t c request_time length = do
  let (now, t') = read_clock t
  (time, ch) ← chmodel_request (t'.channels c) now request_time length
  some (time, record t' { channels = λ d. if c == d then ch else t'.channels d })

-- `ssd_advance_pcie`.
unfoldable pub ssd_advance_pcie : SsdTime → ℕ → ℕ → Option (ℕ × SsdTime)
unfolding read_clock
ssd_advance_pcie t request_time length = do
  let (now, t') = read_clock t
  (time, pcie) ← chmodel_request t'.pcie now request_time length
  some (time, record t' { pcie = pcie })

-- `ssd_advance_write_buffer`.
unfoldable pub ssd_advance_write_buffer : SsdParams → SsdTime → ℕ → ℕ → Option (ℕ × SsdTime)
ssd_advance_write_buffer sp t request_time length =
    let latest = u64 (request_time + sp.fw_wbuf_lat0) in
    ssd_advance_pcie t (u64 (latest + u64 (sp.fw_wbuf_lat1 * div_round_up length (kb 4)))) length

-- `get_cell`; its divisions fault at 0.
unfoldable pub get_cell : SsdParams → Ppa → Option ℕ
get_cell sp p = do
  nvmev_assert (not (sp.pgs_per_flashpg == 0))
  nvmev_assert (not (sp.cell_mode == 0))
  some (p.pg / sp.pgs_per_flashpg % sp.cell_mode)

-- The parts of a read that are sent: the end of the channel transfer, the completion time.
pub record Sent : Type 0 where
  pub chnl_etime : ℕ
  pub completed : ℕ
  pub time : SsdTime

-- One round of `while (remaining)`.
unfoldable pub send_part : SsdTime → Bool → ℕ → ℕ → ℕ → Option Sent
send_part t interleave c chnl_stime xfer_size = do
  (chnl_etime, t') ← advance_channel t c chnl_stime xfer_size
  (completed, t'') ←
      (if interleave then ssd_advance_pcie t' chnl_etime xfer_size else some (chnl_etime, t'))
  some (record { chnl_etime = chnl_etime; completed = completed; time = t'' })

-- `while (remaining)`, entered with data to send; the fuel counts the rounds. The times are
-- uninitialised if there is nothing to send, which is a fault here.
unfoldable pub send_parts : ℕ → SsdParams → Bool → ℕ → ℕ → ℕ → SsdTime → Option Sent
send_parts zero sp interleave c remaining chnl_stime t = none
send_parts (suc fuel) sp interleave c remaining chnl_stime t = do
  let xfer_size = min remaining sp.max_ch_xfer_size
  part ← send_part t interleave c chnl_stime xfer_size
  let rest = send_parts fuel sp interleave c (remaining - xfer_size) part.chnl_etime part.time
  if remaining - xfer_size == 0 then some part else rest

-- The case NAND_READ.
unfoldable pub advance_read : SsdParams → NandCmd → ℕ → SsdTime → Option (ℕ × SsdTime)
unfolding send_parts set_avail
advance_read sp n cmd_stime t = do
  cell ← get_cell sp n.ppa
  let nand_stime = max (get_lun t n.ppa).next_lun_avail_time cmd_stime
  lat ← get_elem? (if n.xfer_size == 4096 then sp.pg_4kb_rd_lat else sp.pg_rd_lat) cell
  sent ←
      send_parts n.xfer_size sp n.interleave_pci_dma n.ppa.ch n.xfer_size (u64 (nand_stime + lat)) t
  some (sent.completed, set_avail sent.time n.ppa sent.chnl_etime)

-- The case NAND_WRITE.
unfoldable pub advance_write : SsdParams → NandCmd → ℕ → SsdTime → Option (ℕ × SsdTime)
unfolding set_avail
advance_write sp n cmd_stime t = do
  let chnl_stime = max (get_lun t n.ppa).next_lun_avail_time cmd_stime
  (chnl_etime, t') ← advance_channel t n.ppa.ch chnl_stime n.xfer_size
  let nand_etime = u64 (chnl_etime + sp.pg_wr_lat)
  some (nand_etime, set_avail t' n.ppa nand_etime)

-- The cases NAND_ERASE and NAND_NOP, which only occupy the LUN.
unfoldable pub occupy : NandCmd → ℕ → ℕ → SsdTime → ℕ × SsdTime
unfolding set_avail
occupy n lat cmd_stime t =
    let nand_etime = u64 (max (get_lun t n.ppa).next_lun_avail_time cmd_stime + lat) in
    (nand_etime, set_avail t n.ppa nand_etime)

-- `ssd_advance_nand`: the time at which the command completes. A command with no start time starts
-- now.
unfoldable pub ssd_advance_nand : SsdParams → NandCmd → SsdTime → Option (ℕ × SsdTime)
unfolding read_clock advance_read advance_write occupy word
ssd_advance_nand sp n t0 =
    let (cmd_stime, t) = (if n.stime == 0 then read_clock t0 else (n.stime, t0)) in
    if word n.ppa == unmapped_ppa
    then some (cmd_stime, t)
    else if n.cmd == nand_read
    then advance_read sp n cmd_stime t
    else if n.cmd == nand_write
    then advance_write sp n cmd_stime t
    else if n.cmd == nand_erase
    then some (occupy n sp.blk_er_lat cmd_stime t)
    else if n.cmd == nand_nop
    then some (occupy n 0 cmd_stime t)
    else some (0, t)

-- The two loops of `ssd_next_idle_time`.
unfoldable pub latest_of_luns : (ℕ → Lun) → ℕ → ℕ → ℕ
latest_of_luns luns zero latest = latest
latest_of_luns luns (suc n) latest = max (latest_of_luns luns n latest) (luns n).next_lun_avail_time

unfoldable pub latest_of_channels : (ℕ → ℕ → Lun) → ℕ → ℕ → ℕ → ℕ
unfolding latest_of_luns
latest_of_channels luns zero luns_per_ch latest = latest
latest_of_channels luns (suc n) luns_per_ch latest =
    latest_of_luns (luns n) luns_per_ch (latest_of_channels luns n luns_per_ch latest)

unfoldable pub ssd_next_idle_time : SsdParams → SsdTime → ℕ × SsdTime
unfolding latest_of_channels read_clock
ssd_next_idle_time sp t0 =
    let (now, t) = read_clock t0 in (latest_of_channels t.luns sp.nchs sp.luns_per_ch now, t)
