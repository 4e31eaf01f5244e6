-- ===== src/Fdp/State.antt =====
-- fdp_ftl.h: the state of one FTL partition, and `fdp_init_params` of fdp_ftl.c.
use nvmevirt_fdp.Prelude.{ℕ, ◌+◌, ◌^◌, ◌%◌, ◌-◌, Bool, true, List}
use nvmevirt_fdp.Ssd.Config.{SsdParams, fdp_nr_ruh, u32}
use nvmevirt_fdp.Ssd.Address.{Ppa}
use nvmevirt_fdp.Ssd.Media.{Media}
use nvmevirt_fdp.Ssd.Nand.{SsdTime}
use nvmevirt_fdp.Fdp.Context.{FdpCtx}
use nvmevirt_fdp.Fdp.Lines.{Lines}

-- `uint32_t` counters.
abbrev pub inc32 : ℕ → ℕ
inc32 n = u32 (n + 1)

abbrev pub dec32 : ℕ → ℕ
dec32 n = (n + 2 ^ 32 - 1) % 2 ^ 32

-- `struct fdpparams`. The share `op_area_pcent`, a double, is only used to compute `pba_pcent`.
pub record FdpParams : Type 0 where
  pub gc_thres_lines : ℕ
  pub gc_thres_lines_high : ℕ
  pub enable_gc_delay : Bool
  pub pba_pcent : ℕ

-- `fdp_init_params`; (int)((1 + 0.07) * 100) is 107.
unfoldable pub fdp_init_params : FdpParams
fdp_init_params = record {
  gc_thres_lines = fdp_nr_ruh + 1;
  gc_thres_lines_high = fdp_nr_ruh + 1;
  enable_gc_delay = true;
  pba_pcent = 107;
}

-- USER_IO and GC_IO.
pub data IoType : Type 0 where
  user_io gc_io : IoType

-- `struct fdp_write_pointer`; `curline` is the line's index.
pub record WritePointer : Type 0 where
  pub curline : ℕ
  pub ch : ℕ
  pub lun : ℕ
  pub pg : ℕ
  pub blk : ℕ
  pub pl : ℕ

-- `struct fdp_line_mgmt`. The lists hold the indices of lines, first to last.
pub record LineMgmt (Q : Type 0) : Type 0 where
  pub lines : Lines
  pub free_line_list : List ℕ
  pub victim_line_pq : Q
  pub full_line_list : List ℕ
  pub tt_lines : ℕ
  pub free_line_cnt : ℕ
  pub victim_line_cnt : ℕ
  pub full_line_cnt : ℕ

-- `struct fdp_write_flow_control`.
pub record WriteFlow : Type 0 where
  pub write_credits : ℕ
  pub credits_to_refill : ℕ

-- `struct fdp_ftl`, with what `ssd` points to but its time model.
pub record Ftl (Q : Type 0) : Type 0 where
  pub sp : SsdParams
  pub media : Media
  pub cp : FdpParams
  pub maptbl : ℕ → Ppa
  pub rmap : ℕ → ℕ
  pub wp_ruh : ℕ → WritePointer
  pub gc_wp : WritePointer
  pub lm : LineMgmt Q
  pub wfc : WriteFlow

-- What an operation on one partition reaches: its FTL, its time model and `fdp_ctx`.
pub record Dev (Q : Type 0) : Type 0 where
  pub ftl : Ftl Q
  pub time : SsdTime
  pub ctx : FdpCtx
