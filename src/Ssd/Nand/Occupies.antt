-- ===== src/Ssd/Nand/Occupies.antt =====
-- ssd.c: what a NAND command does to the LUNs, and the time that it answers.
use nvmevirt_fdp.Prelude.{
  ℕ, ◌+◌, ◌^◌, ◌≤◌, ◌<◌, ◌≡◌, false, ◌==◌, ◌&&◌, if◌then◌else◌, List, [], ◌∷◌,
}
use nvmevirt_fdp.Ssd.Config.{SsdParams}
use nvmevirt_fdp.Ssd.Nand.{SsdTime, NandCmd, nand_write, nand_erase, get_lun, read_clock}

-- The time at which a command starts: that of the clock if it names none.
abbrev start_time : NandCmd → SsdTime → ℕ
start_time n t = if n.stime == 0 then t.clock t.reads else n.stime

-- The latency of a command, without its transfer; that of a read depends on the cell.
abbrev array_latency : SsdParams → NandCmd → ℕ
array_latency sp n =
    if n.cmd == nand_write then sp.pg_wr_lat else if n.cmd == nand_erase then sp.blk_er_lat else 0

abbrev AllSoon : List ℕ → Type 0
AllSoon [] = Unit {0}
AllSoon (x ∷ xs) = (x < 2 ^ 60) × AllSoon xs

-- No time or latency of the command is near the end of the 64 bits.
pub record IsSoon (sp : SsdParams) (n : NandCmd) (t : SsdTime) : Type 0 where
  pub lun : (get_lun t n.ppa).next_lun_avail_time < 2 ^ 60
  pub start : start_time n t < 2 ^ 60
  pub prog : sp.pg_wr_lat < 2 ^ 60
  pub erase : sp.blk_er_lat < 2 ^ 60
  pub reads_4kb : AllSoon sp.pg_4kb_rd_lat
  pub reads : AllSoon sp.pg_rd_lat
  pub bytes : n.xfer_size < 2 ^ 28

-- The LUN of the command is busy, after what it was doing and after the start, for at least the latency
-- of the command, and until the time answered at most; no other LUN changes.
pub record Occupied (sp : SsdParams) (n : NandCmd) (t : SsdTime) (r : ℕ × SsdTime) : Type 0 where
  pub after_lun :
      (get_lun t n.ppa).next_lun_avail_time + array_latency sp n
      ≤ (get_lun r.1 n.ppa).next_lun_avail_time
  pub after_start : start_time n t + array_latency sp n ≤ (get_lun r.1 n.ppa).next_lun_avail_time
  pub answered : (get_lun r.1 n.ppa).next_lun_avail_time ≤ r.0
  pub others : (c l : ℕ) → (n.ppa.ch == c && n.ppa.lun == l) ≡ false → r.1.luns c l ≡ t.luns c l

-- `Occupied`, for a start and a latency.
abbrev Busied : NandCmd → SsdTime → ℕ → ℕ → ℕ × SsdTime → Type 0
Busied n t cmd_stime lat r =
    ((get_lun t n.ppa).next_lun_avail_time + lat ≤ (get_lun r.1 n.ppa).next_lun_avail_time)
    × (cmd_stime + lat ≤ (get_lun r.1 n.ppa).next_lun_avail_time)
    × ((get_lun r.1 n.ppa).next_lun_avail_time ≤ r.0)
    × ((c l : ℕ) → (n.ppa.ch == c && n.ppa.lun == l) ≡ false → r.1.luns c l ≡ t.luns c l)

-- The start of a command, and the state after the clock was read or not.
abbrev started : NandCmd → SsdTime → ℕ × SsdTime
started n t = if n.stime == 0 then read_clock t else (n.stime, t)
